-- ===== src/Networks/Simple.antt =====
-- A host for the runs: `ip` as documented, on tables of namespaces, devices and pairs. Routes are added
-- or not, as the first argument says.
use dirigent.Prelude.{
  ◌≡◌, refl, ap, String, Bool, true, false, ◌&&◌, some, [], ite, arith, not_b, if◌then◌else◌,
}
use dirigent.Prelude.Names.{string_discrete}
use dirigent.Networks.{
  IpTool, Command, netns_add, netns_delete, within, link_del, to_root, veth_add, route_add,
}
use dirigent.Networks.Hosts.{IsIpTool, Deletes, is_quiet}

pub record Tables : Type 0 where
  pub netns : String → Bool
  pub device : String → Bool
  pub peer : String → String → Bool
  pub pair : String → String → Bool

abbrev pub set_at : String → Bool → (String → Bool) → String → Bool
set_at k b f j = ite (string_discrete k j) b (f j)

abbrev pub clear_at : String → (String → String → Bool) → String → String → Bool
clear_at k f j d = ite (string_discrete k j) false (f j d)

abbrev pub peer_at : String → String → (String → String → Bool) → String → String → Bool
peer_at n h f m d = ite (string_discrete h d) (ite (string_discrete n m) true false) (f m d)

abbrev pub pair_at : String → String → (String → String → Bool) → String → String → Bool
pair_at n h f m d = ite (string_discrete n m) (ite (string_discrete h d) true (f m d)) (f m d)

abbrev pub run_simple : Bool → Command → Tables → Bool × Tables
run_simple routes (netns_add n) s = if s.netns n then (false, s) else (
  true,
  record s { netns = set_at n true s.netns; peer = clear_at n s.peer; pair = clear_at n s.pair },
)
run_simple routes (netns_delete n) s = (
  s.netns n,
  record s {
    netns = set_at n false s.netns;
    device = λ d. if s.netns n && s.peer n d then false else s.device d;
  },
)
run_simple routes (within n (veth_add h g)) s =
    if s.netns n then (true, record s { pair = pair_at n h s.pair }) else (false, s)
run_simple routes (within n (to_root h)) s =
    if s.netns n && s.pair n h && not_b (s.device h)
    then (true, record s { device = set_at h true s.device; peer = peer_at n h s.peer })
    else (false, s)
run_simple routes (link_del d) s = (s.device d, record s { device = set_at d false s.device })
run_simple routes (route_add a b) s = (routes, s)
run_simple routes c s = (true, s)

abbrev pub simple : Bool → IpTool
simple routes = record {
  State = Tables;
  run = run_simple routes;
  interfaces = λ s. some [];
  has_netns = λ s n. s.netns n;
  has_device = λ s d. s.device d;
  holds_peer = λ s n d. s.netns n && s.peer n d;
  holds_pair = λ s n d. s.netns n && s.pair n d;
}

quiet_same :
    (routes : Bool) (c : Command) (s : Tables) → is_quiet c ≡ true → (run_simple routes c s).1 ≡ s
quiet_same routes (netns_add n) s q = ground (arith, q)
quiet_same routes (netns_delete n) s q = ground (arith, q)
quiet_same routes (within n (veth_add h g)) s q = ground (arith, q)
quiet_same routes (within n (to_root h)) s q = ground (arith, q)
quiet_same routes (link_del d) s q = ground (arith, q)
quiet_same routes (route_add a b) s q = refl
quiet_same routes c s q = refl

pub simple-IsIpTool : (routes : Bool) → IsIpTool (simple routes)
simple-IsIpTool routes = record {
  no_peer = λ s n d h. ground (arith, h);
  quiet_netns = λ c s m q. ap (λ (t : Tables). t.netns m) (quiet_same routes c s q);
  quiet_device = λ c s d q. ap (λ (t : Tables). t.device d) (quiet_same routes c s q);
  quiet_peer = λ c s m d q. ap (λ (t : Tables). t.netns m && t.peer m d) (quiet_same routes c s q);
  add_fresh = λ s n e. ground (arith, e);
  add_netns = λ s n m. ground arith;
  add_device = λ s n d. ground arith;
  add_peer = λ s n m d. ground arith;
  pair_netns = λ s n h g m. ground arith;
  pair_device = λ s n h g d. ground arith;
  pair_peer = λ s n h g m d. ground arith;
  pair_held = λ s n h g e. ground (arith, e);
  move_free = λ s n h e. ground (arith, e);
  move_netns = λ s n h m. ground arith;
  move_device = λ s n h d. ground arith;
  move_peer = λ s n h d p. ground (arith, p);
  deleted_netns = λ s n m e. ground arith;
  deleted_peers = λ s n d e. ground arith;
  missing_netns = λ s n m e. ground (arith, e);
  missing_peers = λ s n d e. ground (arith, e);
  del_netns = λ s d m. refl;
  deleted_device = λ s d e h. refl;
  missing_device = λ s d e h. ground (arith, h);
  other_netns = λ s n m d. ground (arith, d);
  other_peers = λ s n d h. ground (arith, h);
  other_device = λ s d e h. ground (arith, h);
}

pub simple-Deletes : (routes : Bool) → Deletes (simple routes)
simple-Deletes routes = record { netns = λ s n h. h; device = λ s d h. h }
