-- ===== src/Networks/Hosts.antt =====
-- What `ip` does to the namespaces and the devices of a host, and what a creation of a network leaves
-- of it (internal/worker_node/sandbox/firecracker/networking.go).
use dirigent.Prelude.{
  ◌≡◌, ◌≢◌, String, List, [], ◌∷◌, Bool, true, false, ite, if◌then◌else◌, arith, All, inl, inr, ◌∙◌,
  Bool-cases,
}
use dirigent.Prelude.Names.{string_discrete}
use dirigent.Networks.{
  IpTool, Command, netns_add, netns_delete, netns_delete_all, within, tuntap_add, link_up, link_del,
  to_root, addr_add, veth_add, default_via, route_add, source_nat, destination_nat, Cleanup,
  nothing, netns_only, netns_and_device, clean_up, run_steps, delete_device_by_name,
  delete_network_namespace_by_name,
}

-- A command that changes neither namespaces nor devices.
abbrev pub is_quiet : Command → Bool
is_quiet (netns_add n) = false
is_quiet (netns_delete n) = false
is_quiet netns_delete_all = false
is_quiet (within n (tuntap_add d)) = true
is_quiet (within n (link_up d)) = true
is_quiet (within n (addr_add a d)) = true
is_quiet (within n (default_via a)) = true
is_quiet (within n (source_nat d a b)) = true
is_quiet (within n (destination_nat d a b)) = true
is_quiet (within n c) = false
is_quiet (tuntap_add d) = false
is_quiet (link_up d) = true
is_quiet (link_del d) = false
is_quiet (to_root d) = false
is_quiet (addr_add a d) = true
is_quiet (veth_add d e) = false
is_quiet (default_via a) = false
is_quiet (route_add a b) = true
is_quiet (source_nat d a b) = false
is_quiet (destination_nat d a b) = false

-- The documented behaviour of `ip`: a namespace is added once; a deletion that succeeds takes the pairs with it
-- of which one end is in it, one of what is not there changes nothing, and none, whether it
-- succeeds or not, changes what it does not name; and a device is not moved onto another.
pub record IsIpTool (ip : IpTool) : Type 0 where
  pub no_peer :
      (s : ip.State) (n d : String) → ip.has_netns s n ≡ false → ip.holds_peer s n d ≡ false
  pub quiet_netns :
      (c : Command) (s : ip.State) (m : String)
      → is_quiet c ≡ true
      → ip.has_netns (ip.run c s).1 m ≡ ip.has_netns s m
  pub quiet_device :
      (c : Command) (s : ip.State) (d : String)
      → is_quiet c ≡ true
      → ip.has_device (ip.run c s).1 d ≡ ip.has_device s d
  pub quiet_peer :
      (c : Command) (s : ip.State) (m d : String)
      → is_quiet c ≡ true
      → ip.holds_peer (ip.run c s).1 m d ≡ ip.holds_peer s m d
  pub add_fresh :
      (s : ip.State) (n : String) → (ip.run (netns_add n) s).0 ≡ true → ip.has_netns s n ≡ false
  pub add_netns :
      (s : ip.State) (n m : String)
      → ip.has_netns (ip.run (netns_add n) s).1 m
        ≡ ite
            (string_discrete n m)
            (if (ip.run (netns_add n) s).0 then true else ip.has_netns s m)
            (ip.has_netns s m)
  pub add_device :
      (s : ip.State) (n d : String) → ip.has_device (ip.run (netns_add n) s).1 d ≡ ip.has_device s d
  pub add_peer :
      (s : ip.State) (n m d : String)
      → ip.holds_peer (ip.run (netns_add n) s).1 m d ≡ ip.holds_peer s m d
  pub pair_netns :
      (s : ip.State) (n h g m : String)
      → ip.has_netns (ip.run (within n (veth_add h g)) s).1 m ≡ ip.has_netns s m
  pub pair_device :
      (s : ip.State) (n h g d : String)
      → ip.has_device (ip.run (within n (veth_add h g)) s).1 d ≡ ip.has_device s d
  pub pair_peer :
      (s : ip.State) (n h g m d : String)
      → ip.holds_peer (ip.run (within n (veth_add h g)) s).1 m d ≡ ip.holds_peer s m d
  pub pair_held :
      (s : ip.State) (n h g : String)
      → (ip.run (within n (veth_add h g)) s).0 ≡ true
      → ip.holds_pair (ip.run (within n (veth_add h g)) s).1 n h ≡ true
  pub move_free :
      (s : ip.State) (n h : String)
      → (ip.run (within n (to_root h)) s).0 ≡ true
      → ip.has_device s h ≡ false
  pub move_netns :
      (s : ip.State) (n h m : String)
      → ip.has_netns (ip.run (within n (to_root h)) s).1 m ≡ ip.has_netns s m
  pub move_device :
      (s : ip.State) (n h d : String)
      → ip.has_device (ip.run (within n (to_root h)) s).1 d
        ≡ ite
            (string_discrete h d)
            (if (ip.run (within n (to_root h)) s).0 then true else ip.has_device s d)
            (ip.has_device s d)
  pub move_peer :
      (s : ip.State) (n h d : String)
      → ip.holds_pair s n h ≡ true
      → ip.holds_peer (ip.run (within n (to_root h)) s).1 n d
        ≡ ite
            (string_discrete h d)
            (if (ip.run (within n (to_root h)) s).0 then true else ip.holds_peer s n d)
            (ip.holds_peer s n d)
  pub deleted_netns :
      (s : ip.State) (n m : String)
      → (ip.run (netns_delete n) s).0 ≡ true
      → ip.has_netns (ip.run (netns_delete n) s).1 m
        ≡ ite (string_discrete n m) false (ip.has_netns s m)
  pub deleted_peers :
      (s : ip.State) (n d : String)
      → (ip.run (netns_delete n) s).0 ≡ true
      → ip.has_device (ip.run (netns_delete n) s).1 d
        ≡ (if ip.holds_peer s n d then false else ip.has_device s d)
  pub missing_netns :
      (s : ip.State) (n m : String)
      → ip.has_netns s n ≡ false
      → ip.has_netns (ip.run (netns_delete n) s).1 m ≡ ip.has_netns s m
  pub missing_peers :
      (s : ip.State) (n d : String)
      → ip.has_netns s n ≡ false
      → ip.has_device (ip.run (netns_delete n) s).1 d ≡ ip.has_device s d
  pub del_netns :
      (s : ip.State) (d m : String) → ip.has_netns (ip.run (link_del d) s).1 m ≡ ip.has_netns s m
  pub deleted_device :
      (s : ip.State) (d e : String)
      → (ip.run (link_del d) s).0 ≡ true
      → ip.has_device (ip.run (link_del d) s).1 e
        ≡ ite (string_discrete d e) false (ip.has_device s e)
  pub missing_device :
      (s : ip.State) (d e : String)
      → ip.has_device s d ≡ false
      → ip.has_device (ip.run (link_del d) s).1 e ≡ ip.has_device s e
  pub other_netns :
      (s : ip.State) (n m : String)
      → n ≢ m
      → ip.has_netns (ip.run (netns_delete n) s).1 m ≡ ip.has_netns s m
  pub other_peers :
      (s : ip.State) (n d : String)
      → ip.holds_peer s n d ≡ false
      → ip.has_device (ip.run (netns_delete n) s).1 d ≡ ip.has_device s d
  pub other_device :
      (s : ip.State) (d e : String)
      → d ≢ e
      → ip.has_device (ip.run (link_del d) s).1 e ≡ ip.has_device s e

-- A host on which no deletion of what is there fails. Nothing documents that: the code logs a failed
-- deletion and goes on, and what was to be deleted stays.
pub record Deletes (ip : IpTool) : Type 0 where
  pub netns :
      (s : ip.State) (n : String) → ip.has_netns s n ≡ true → (ip.run (netns_delete n) s).0 ≡ true
  pub device :
      (s : ip.State) (d : String) → ip.has_device s d ≡ true → (ip.run (link_del d) s).0 ≡ true

module _ (ip : IpTool) (l : IsIpTool ip) (ds : Deletes ip) where
  pub delete_netns :
      (s : ip.State) (n m : String)
      → ip.has_netns (ip.run (netns_delete n) s).1 m
        ≡ ite (string_discrete n m) false (ip.has_netns s m)
  delete_netns s n m = elim (Bool-cases (ip.has_netns s n)) [
    | inl e ↦ l.deleted_netns s n m (ds.netns s n e)
    | inr e ↦ l.missing_netns s n m e ∙ ground (arith, e)
  ]

  pub delete_peers :
      (s : ip.State) (n d : String)
      → ip.has_device (ip.run (netns_delete n) s).1 d
        ≡ (if ip.holds_peer s n d then false else ip.has_device s d)
  delete_peers s n d = elim (Bool-cases (ip.has_netns s n)) [
    | inl e ↦ l.deleted_peers s n d (ds.netns s n e)
    | inr e ↦ l.missing_peers s n d e ∙ ground (arith, l.no_peer s n d e)
  ]

  pub del_device :
      (s : ip.State) (d e : String)
      → ip.has_device (ip.run (link_del d) s).1 e
        ≡ ite (string_discrete d e) false (ip.has_device s e)
  del_device s d e = elim (Bool-cases (ip.has_device s d)) [
    | inl h ↦ l.deleted_device s d e (ds.device s d h)
    | inr h ↦ l.missing_device s d e h ∙ ground (arith, h)
  ]

module _ (ip : IpTool) where
  -- The same namespaces, and the same devices in the root namespace.
  pub record IsSame (s s' : ip.State) : Type 0 where
    pub netns : (m : String) → ip.has_netns s' m ≡ ip.has_netns s m
    pub device : (d : String) → ip.has_device s' d ≡ ip.has_device s d

  -- One namespace more, and, if its pair has been moved, one device more, which goes with it.
  pub record HasGrown (n h : String) (moved : Bool) (s s' : ip.State) : Type 0 where
    pub fresh : ip.has_netns s n ≡ false
    pub free : moved ≡ true → ip.has_device s h ≡ false
    pub netns : (m : String) → ip.has_netns s' m ≡ ite (string_discrete n m) true (ip.has_netns s m)
    pub device :
        (d : String)
        → ip.has_device s' d
          ≡ ite
              (string_discrete h d)
              (if moved then true else ip.has_device s d)
              (ip.has_device s d)
    pub peer : (d : String) → ip.holds_peer s' n d ≡ ite (string_discrete h d) moved false

  -- How a sequence of commands ends.
  abbrev pub HasEnded : String → String → Bool → ip.State → Bool × ip.State → Type 0
  HasEnded n h moved s (true, s') = HasGrown n h moved s s'
  HasEnded n h moved s (false, s') = IsSame s s'

-- The ways of cleaning up that fit: the device is deleted only if it has been moved.
abbrev pub undoes : Cleanup → Bool → Bool
undoes nothing moved = false
undoes netns_only moved = true
undoes netns_and_device moved = moved

-- Quiet commands that are cleaned up after.
abbrev pub IsUndone : Bool → Command × Cleanup → Type 0
IsUndone moved (c, cleanup) = (is_quiet c ≡ true) × (undoes cleanup moved ≡ true)

module _ (ip : IpTool) (l : IsIpTool ip) (ds : Deletes ip) where
  -- Both ways of cleaning up undo what was done.
  pub clean_up-IsSame :
      (cleanup : Cleanup) (n h : String) (moved : Bool) (s s' : ip.State)
      → undoes cleanup moved ≡ true
      → HasGrown ip n h moved s s'
      → IsSame ip s (clean_up ip cleanup n h s')
  unfolding clean_up delete_device_by_name delete_network_namespace_by_name
  clean_up-IsSame nothing n h moved s s' c g = ground (arith, c)
  clean_up-IsSame netns_only n h moved s s' c g = record {
    netns = λ m. ground (arith, delete_netns ip l ds s' n m, g.netns m, g.fresh);
    device = λ d. ground (arith, delete_peers ip l ds s' n d, g.device d, g.peer d, g.free);
  }
  clean_up-IsSame netns_and_device n h moved s s' c g = record {
    netns = λ m. ground (
      arith,
      l.del_netns (ip.run (netns_delete n) s').1 h m,
      delete_netns ip l ds s' n m,
      g.netns m,
      g.fresh,
    );
    device = λ d. ground (
      arith,
      del_device ip l ds (ip.run (netns_delete n) s').1 h d,
      delete_peers ip l ds s' n d,
      g.device d,
      g.peer d,
      g.free,
      c,
    );
  }

  quiet-HasGrown :
      (c : Command) (n h : String) (moved : Bool) (s s' : ip.State)
      → is_quiet c ≡ true
      → HasGrown ip n h moved s s'
      → HasGrown ip n h moved s (ip.run c s').1
  quiet-HasGrown c n h moved s s' q g = record {
    fresh = g.fresh;
    free = g.free;
    netns = λ m. ground (arith, l.quiet_netns c s' m q, g.netns m);
    device = λ d. ground (arith, l.quiet_device c s' d q, g.device d);
    peer = λ d. ground (arith, l.quiet_peer c s' n d q, g.peer d);
  }

  pub run_steps-HasEnded :
      (n h : String) (moved : Bool) (s s' : ip.State) (steps : List (Command × Cleanup))
      → All (IsUndone moved) steps
      → HasGrown ip n h moved s s'
      → HasEnded ip n h moved s (run_steps ip n h steps s')
  unfolding run_steps
  run_steps-HasEnded n h moved s s' [] a g = g
  run_steps-HasEnded n h moved s s' ((c, cleanup) ∷ steps) a g =
      let g' = quiet-HasGrown c n h moved s s' a.0.0 g in
      let undone = clean_up-IsSame cleanup n h moved s (ip.run c s').1 a.0.1 g' in
      let rest = run_steps-HasEnded n h moved s (ip.run c s').1 steps a.1 g' in
      ground (arith, g', undone, rest)
