-- ===== src/Networks/Creation.antt =====
-- A network is created as a whole or not at all: createNetwork and createVETHPair of
-- internal/worker_node/sandbox/firecracker/networking.go.
use dirigent.Prelude.{
  ℕ, ◌+◌, All, ◌≡◌, refl, inl, inr, String, Bool, true, false, Option, none, some, arith,
  Bool-cases, Option-cases, if◌then◌else◌,
}
use dirigent.Prelude.Int.{pos, ◌+ℤ◌}
use dirigent.Managers.{generate_veth, generate_ip_mac_pair, generate_single_ip}
use dirigent.Networks.{
  config_of, IpTool, NameFormats, NetworkConfig, NetworkPoolManager, Address, host, single,
  netns_add, within, veth_add, to_root, netns_only, run_steps, clean_up, device_steps, moved_steps,
  tap_steps, veth_steps, create_veth_pair, create_network,
}
use dirigent.Networks.Hosts.{
  IsIpTool, Deletes, IsSame, HasGrown, HasEnded, IsUndone, run_steps-HasEnded, clean_up-IsSame,
}

device_steps-IsUndone : (n : String) → All (IsUndone false) (device_steps n)
unfolding device_steps
device_steps-IsUndone n = ground arith

moved_steps-IsUndone :
    (n h g : String) (a b c : Address) → All (IsUndone true) (moved_steps n h g a b c)
unfolding moved_steps
moved_steps-IsUndone n h g a b c = ground arith

module _ (ip : IpTool) (l : IsIpTool ip) (ds : Deletes ip) where
  grown_add :
      (n h : String) (s : ip.State)
      → (ip.run (netns_add n) s).0 ≡ true
      → HasGrown ip n h false s (ip.run (netns_add n) s).1
  grown_add n h s e = record {
    fresh = l.add_fresh s n e;
    free = λ p. ground (arith, p);
    netns = λ m. ground (arith, l.add_netns s n m, e);
    device = λ d. ground (arith, l.add_device s n d);
    peer = λ d. ground (arith, l.add_peer s n n d, l.no_peer s n d, l.add_fresh s n e);
  }

  failed_add :
      (n : String) (s : ip.State)
      → (ip.run (netns_add n) s).0 ≡ false
      → IsSame ip s (ip.run (netns_add n) s).1
  failed_add n s e = record {
    netns = λ m. ground (arith, l.add_netns s n m, e);
    device = λ d. l.add_device s n d;
  }

  tap_steps-HasEnded :
      (n h : String) (s : ip.State) → HasEnded ip n h false s (run_steps ip n h (tap_steps n) s)
  unfolding run_steps tap_steps clean_up
  tap_steps-HasEnded n h s = elim (Bool-cases (ip.run (netns_add n) s).0) [
    | inr e ↦ rw e (failed_add n s e)
    | inl e ↦ rw e (
        run_steps-HasEnded ip l ds n h false s (ip.run (netns_add n) s).1 (device_steps n)
          (device_steps-IsUndone n) (grown_add n h s e))
  ]

  -- Only the namespace counts as long as no device has been moved.
  unmoved :
      (n h k : String) (s s' : ip.State) → HasGrown ip n h false s s' → HasGrown ip n k false s s'
  unmoved n h k s s' g = record {
    fresh = g.fresh;
    free = λ p. ground (arith, p);
    netns = g.netns;
    device = λ d. ground (arith, g.device d);
    peer = λ d. ground (arith, g.peer d);
  }

  pair-HasGrown :
      (n h g : String) (s s' : ip.State)
      → HasGrown ip n h false s s'
      → HasGrown ip n h false s (ip.run (within n (veth_add h g)) s').1
  pair-HasGrown n h g s s' k = record {
    fresh = k.fresh;
    free = λ p. ground (arith, p);
    netns = λ m. ground (arith, l.pair_netns s' n h g m, k.netns m);
    device = λ d. ground (arith, l.pair_device s' n h g d, k.device d);
    peer = λ d. ground (arith, l.pair_peer s' n h g n d, k.peer d);
  }

  move-HasGrown :
      (n h : String) (s s' : ip.State) (ok : Bool)
      → (ip.run (within n (to_root h)) s').0 ≡ ok
      → ip.holds_pair s' n h ≡ true
      → HasGrown ip n h false s s'
      → HasGrown ip n h ok s (ip.run (within n (to_root h)) s').1
  move-HasGrown n h s s' ok e p k = record {
    fresh = k.fresh;
    free = λ q. ground (arith, q, e, l.move_free s' n h, k.device h);
    netns = λ m. ground (arith, l.move_netns s' n h m, k.netns m);
    device = λ d. ground (arith, e, l.move_device s' n h d, k.device d);
    peer = λ d. ground (arith, e, l.move_peer s' n h d p, k.peer d);
  }

  veth_steps-HasEnded :
      (n h g : String) (a b c : Address) (s s' : ip.State)
      → HasGrown ip n h false s s'
      → HasEnded ip n h true s (run_steps ip n h (veth_steps n h g a b c) s')
  unfolding run_steps veth_steps
  veth_steps-HasEnded n h g a b c s s' k =
      let pair = within n (veth_add h g) in
      let move = within n (to_root h) in
      let k1 = pair-HasGrown n h g s s' k in
      let s1 = (ip.run pair s').1 in
      elim (Bool-cases (ip.run pair s').0) [
        | inr e ↦ rw e (clean_up-IsSame ip l ds netns_only n h false s s1 refl k1)
        | inl e ↦ rw e (elim (Bool-cases (ip.run move s1).0) [
          | inr f ↦ rw f (
              clean_up-IsSame ip l ds netns_only n h false s (ip.run move s1).1 refl
                (move-HasGrown n h s s1 false f (l.pair_held s' n h g e) k1))
          | inl f ↦ rw f (
              run_steps-HasEnded ip l ds n h true s (ip.run move s1).1 (moved_steps n h g a b c)
                (moved_steps-IsUndone n h g a b c)
                (move-HasGrown n h s s1 true f (l.pair_held s' n h g e) k1))
        ])
      ]

  -- What the creation of a network leaves: nothing of it, or its namespace and its device.
  abbrev pub IsWhole : Option NetworkConfig → ip.State → ip.State → Type 0
  IsWhole none s s' = IsSame ip s s'
  IsWhole (some c) s s' = HasGrown ip c.net_ns c.veth_host_name true s s'

  abbrev pub HasCreated :
      ip.State → Option (Option NetworkConfig × (NetworkPoolManager × ip.State)) → Type 0
  HasCreated s none = Unit
  HasCreated s (some (config, (np, s'))) = IsWhole config s s'

  finish :
      (s : ip.State) (c : NetworkConfig) (r : Bool × ip.State)
      → HasEnded ip c.net_ns c.veth_host_name true s r
      → IsWhole (if r.0 then some c else none) s r.1
  finish s c (true, s') h = h
  finish s c (false, s') h = h

  HasGrown-of :
      (n h : String) (s : ip.State) (r : Bool × ip.State)
      → r.0 ≡ true
      → HasEnded ip n h false s r
      → HasGrown ip n h false s r.1
  HasGrown-of n h s (true, s') e g = g
  HasGrown-of n h s (false, s') e g = ground (arith, e)

  IsSame-of :
      (n h : String) (s : ip.State) (r : Bool × ip.State)
      → r.0 ≡ false
      → HasEnded ip n h false s r
      → IsSame ip s r.1
  IsSame-of n h s (true, s') e g = ground (arith, e)
  IsSame-of n h s (false, s') e g = g

  module _ (nf : NameFormats) (draw : ℕ → ℕ) where
    create_veth_pair-IsWhole :
        (n : String) (np : NetworkPoolManager) (s0 s : ip.State)
        → ((h : String) → HasGrown ip n h false s0 s)
        → HasCreated s0 (create_veth_pair ip nf draw n (np, s))
    unfolding create_veth_pair generate_veth
    create_veth_pair-IsWhole n np s0 s g =
        let id = np.interface_name_generator in
        let guest_side = nf.device_name id in
        let host_side = nf.device_name (id +ℤ pos 1) in
        elim (Option-cases (generate_ip_mac_pair np.internal_ip_manager)) [
          | inl e ↦ rw (HasCreated, e) tt
          | inr ((network, internal), e) ↦
              rw (HasCreated, e)
                (elim (Option-cases (generate_single_ip np.exposed_ip_manager)) [
                  | inl f ↦ rw (HasCreated, f) tt
                  | inr ((address, exposed), f) ↦
                      let h = host internal.network_prefix network in
                      let x = single exposed.network_prefix address in
                      let steps = veth_steps n host_side guest_side (h 1) (h 2) x in
                      rw (HasCreated, f)
                        (finish s0 (config_of n host_side (h 1) (h 2) x)
                          (run_steps ip n host_side steps s)
                          (veth_steps-HasEnded n host_side guest_side (h 1) (h 2) x s0 s
                            (g host_side)))
                ])
        ]

    -- On a host where `ip` carries out every deletion of what is there, a creation that fails
    -- leaves the namespaces and the devices of the host as they were. One that succeeds adds a
    -- namespace that was not there, and moves one device into the root namespace, which held no
    -- device of that name; the pair of that device goes with the namespace.
    pub create_network-IsWhole :
        (np : NetworkPoolManager) (s : ip.State) → HasCreated s (create_network ip nf draw (np, s))
    unfolding create_network
    create_network-IsWhole np s =
        let n = nf.net_ns_name (draw np.draws) in
        let np' : NetworkPoolManager = record np { draws = np.draws + 1 } in
        let r = run_steps ip n "" (tap_steps n) s in
        let ended = tap_steps-HasEnded n "" s in
        elim (Bool-cases r.0) [
          | inl o ↦
              rw (HasCreated, o)
                (create_veth_pair-IsWhole n np' s r.1
                  (λ h. unmoved n "" h s r.1 (HasGrown-of n "" s r o ended)))
          | inr o ↦ rw (HasCreated, o) (IsSame-of n "" s r o ended)
        ]
