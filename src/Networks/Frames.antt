-- ===== src/Networks/Frames.antt =====
-- What the creation of a network cannot touch, also where cleaning up fails
-- (internal/worker_node/sandbox/firecracker/networking.go).
use dirigent.Prelude.{
  ℕ, ◌+◌, All, ◌≡◌, ◌≢◌, ◌⊎◌, refl, inl, inr, String, List, [], ◌∷◌, Bool, true, false, Option,
  none, some, arith, Bool-cases, Option-cases,
}
use dirigent.Prelude.Int.{pos, ◌+ℤ◌}
use dirigent.Managers.{generate_veth, generate_ip_mac_pair, generate_single_ip}
use dirigent.Networks.{
  IpTool, NameFormats, NetworkConfig, NetworkPoolManager, Address, host, single, Command, netns_add,
  netns_delete, within, veth_add, to_root, Cleanup, nothing, netns_only, netns_and_device,
  delete_device_by_name, delete_network_namespace_by_name, clean_up, run_steps, device_steps,
  moved_steps, tap_steps, veth_steps, create_veth_pair, create_network,
}
use dirigent.Networks.Hosts.{IsIpTool, is_quiet}

-- Cleaning up deletes no device but h, which d names.
abbrev IsNear : String → String → Command × Cleanup → Type 0
IsNear d h (c, cleanup) = (is_quiet c ≡ true) × ((d ≡ h) ⊎ (cleanup ≢ netns_and_device))

device_steps-IsNear : (n d h : String) → All (IsNear d h) (device_steps n)
unfolding device_steps
device_steps-IsNear n d h = ground arith

moved_steps-IsNear : (n h g : String) (a b c : Address) → All (IsNear h h) (moved_steps n h g a b c)
unfolding moved_steps
moved_steps-IsNear n h g a b c = ground arith

module _ (ip : IpTool) (l : IsIpTool ip) where
  -- All namespaces but n, and all devices of the root namespace but h, are as they were.
  pub record IsLocal (n h : String) (s s' : ip.State) : Type 0 where
    pub netns : (m : String) → n ≢ m → ip.has_netns s' m ≡ ip.has_netns s m
    pub device : (d : String) → h ≢ d → ip.has_device s' d ≡ ip.has_device s d

  -- And no device but h goes with the namespace n.
  record HasOne (n h : String) (s s' : ip.State) : Type 0 where
    local : IsLocal n h s s'
    peer : (d : String) → h ≢ d → ip.holds_peer s' n d ≡ false

  clean_up-IsLocal :
      (cleanup : Cleanup) (n d h : String) (s s' : ip.State)
      → (d ≡ h) ⊎ (cleanup ≢ netns_and_device)
      → HasOne n h s s'
      → IsLocal n h s (clean_up ip cleanup n d s')
  unfolding clean_up delete_device_by_name delete_network_namespace_by_name
  clean_up-IsLocal nothing n d h s s' c t = t.local
  clean_up-IsLocal netns_only n d h s s' c t = record {
    netns = λ m k. ground (arith, l.other_netns s' n m k, t.local.netns m k);
    device = λ e k. ground (arith, l.other_peers s' n e (t.peer e k), t.local.device e k);
  }
  clean_up-IsLocal netns_and_device n d h s s' c t =
      let s1 = (ip.run (netns_delete n) s').1 in
      record {
        netns =
            λ m k. ground (arith, l.del_netns s1 d m, l.other_netns s' n m k, t.local.netns m k);
        device = λ e k. ground (
          arith,
          c,
          k,
          l.other_device s1 d e,
          l.other_peers s' n e (t.peer e k),
          t.local.device e k,
        );
      }

  quiet-HasOne :
      (c : Command) (n h : String) (s s' : ip.State)
      → is_quiet c ≡ true
      → HasOne n h s s'
      → HasOne n h s (ip.run c s').1
  quiet-HasOne c n h s s' q t = record {
    local = record {
      netns = λ m k. ground (arith, l.quiet_netns c s' m q, t.local.netns m k);
      device = λ d k. ground (arith, l.quiet_device c s' d q, t.local.device d k);
    };
    peer = λ d k. ground (arith, l.quiet_peer c s' n d q, t.peer d k);
  }

  -- How a sequence of commands ends.
  abbrev Stays : String → String → ip.State → Bool × ip.State → Type 0
  Stays n h s (true, s') = HasOne n h s s'
  Stays n h s (false, s') = IsLocal n h s s'

  run_steps-Stays :
      (n d h : String) (s s' : ip.State) (steps : List (Command × Cleanup))
      → All (IsNear d h) steps
      → HasOne n h s s'
      → Stays n h s (run_steps ip n d steps s')
  unfolding run_steps
  run_steps-Stays n d h s s' [] a t = t
  run_steps-Stays n d h s s' ((c, cleanup) ∷ steps) a t =
      let t' = quiet-HasOne c n h s s' a.0.0 t in
      let cleaned = clean_up-IsLocal cleanup n d h s (ip.run c s').1 a.0.1 t' in
      let rest = run_steps-Stays n d h s (ip.run c s').1 steps a.1 t' in
      ground (arith, t', cleaned, rest)

  add-IsLocal : (n h : String) (s : ip.State) → IsLocal n h s (ip.run (netns_add n) s).1
  add-IsLocal n h s = record {
    netns = λ m k. ground (arith, k, l.add_netns s n m);
    device = λ d k. l.add_device s n d;
  }

  tap_steps-Stays : (n d h : String) (s : ip.State) → Stays n h s (run_steps ip n d (tap_steps n) s)
  unfolding run_steps tap_steps clean_up
  tap_steps-Stays n d h s = elim (Bool-cases (ip.run (netns_add n) s).0) [
    | inr e ↦ rw e (add-IsLocal n h s)
    | inl e ↦ rw e (
        run_steps-Stays n d h s (ip.run (netns_add n) s).1 (device_steps n)
          (device_steps-IsNear n d h)
          (record {
            local = add-IsLocal n h s;
            peer = λ x k. ground (arith, l.add_peer s n n x, l.no_peer s n x, l.add_fresh s n e);
          }))
  ]

  pair-HasOne :
      (n h g : String) (s s' : ip.State)
      → HasOne n h s s'
      → HasOne n h s (ip.run (within n (veth_add h g)) s').1
  pair-HasOne n h g s s' t = record {
    local = record {
      netns = λ m k. ground (arith, l.pair_netns s' n h g m, t.local.netns m k);
      device = λ d k. ground (arith, l.pair_device s' n h g d, t.local.device d k);
    };
    peer = λ d k. ground (arith, l.pair_peer s' n h g n d, t.peer d k);
  }

  move-HasOne :
      (n h : String) (s s' : ip.State)
      → ip.holds_pair s' n h ≡ true
      → HasOne n h s s'
      → HasOne n h s (ip.run (within n (to_root h)) s').1
  move-HasOne n h s s' p t = record {
    local = record {
      netns = λ m k. ground (arith, l.move_netns s' n h m, t.local.netns m k);
      device = λ d k. ground (arith, k, l.move_device s' n h d, t.local.device d k);
    };
    peer = λ d k. ground (arith, k, l.move_peer s' n h d p, t.peer d k);
  }

  veth_steps-Stays :
      (n h g : String) (a b c : Address) (s s' : ip.State)
      → HasOne n h s s'
      → Stays n h s (run_steps ip n h (veth_steps n h g a b c) s')
  unfolding run_steps veth_steps
  veth_steps-Stays n h g a b c s s' t =
      let pair = within n (veth_add h g) in
      let move = within n (to_root h) in
      let t1 = pair-HasOne n h g s s' t in
      let s1 = (ip.run pair s').1 in
      elim (Bool-cases (ip.run pair s').0) [
        | inr e ↦ rw e (clean_up-IsLocal netns_only n h h s s1 (inl refl) t1)
        | inl e ↦
            let t2 = move-HasOne n h s s1 (l.pair_held s' n h g e) t1 in
            let s2 = (ip.run move s1).1 in
            rw e (elim (Bool-cases (ip.run move s1).0) [
              | inr f ↦ rw f (clean_up-IsLocal netns_only n h h s s2 (inl refl) t2)
              | inl f ↦ rw f (
                  run_steps-Stays n h h s s2 (moved_steps n h g a b c)
                    (moved_steps-IsNear n h g a b c) t2)
            ])
      ]

  IsLocal-of :
      (n h : String) (s : ip.State) (r : Bool × ip.State) → Stays n h s r → IsLocal n h s r.1
  IsLocal-of n h s (true, s') t = t.local
  IsLocal-of n h s (false, s') t = t

  HasOne-of :
      (n h : String) (s : ip.State) (r : Bool × ip.State)
      → r.0 ≡ true
      → Stays n h s r
      → HasOne n h s r.1
  HasOne-of n h s (true, s') e t = t
  HasOne-of n h s (false, s') e t = absurd (ground (arith, e))

  -- A creation that returns leaves all but n and h alone.
  abbrev pub StaysLocal :
      String
      → String
      → ip.State
      → Option (Option NetworkConfig × (NetworkPoolManager × ip.State))
      → Type 0
  StaysLocal n h s none = Unit
  StaysLocal n h s (some (config, (np, s'))) = IsLocal n h s s'

  module _ (nf : NameFormats) (draw : ℕ → ℕ) where
    create_veth_pair-StaysLocal :
        (n : String) (np : NetworkPoolManager) (s0 s : ip.State)
        → (let h = nf.device_name (np.interface_name_generator +ℤ pos 1) in
            HasOne n h s0 s → StaysLocal n h s0 (create_veth_pair ip nf draw n (np, s)))
    unfolding create_veth_pair generate_veth
    create_veth_pair-StaysLocal n np s0 s t =
        let id = np.interface_name_generator in
        let g = nf.device_name id in
        let h = nf.device_name (id +ℤ pos 1) in
        elim (Option-cases (generate_ip_mac_pair np.internal_ip_manager)) [
          | inl e ↦ rw (StaysLocal, e) tt
          | inr ((network, internal), e) ↦
              rw (StaysLocal, e)
                (elim (Option-cases (generate_single_ip np.exposed_ip_manager)) [
                  | inl f ↦ rw (StaysLocal, f) tt
                  | inr ((address, exposed), f) ↦
                      let a = host internal.network_prefix network in
                      let x = single exposed.network_prefix address in
                      let steps = veth_steps n h g (a 1) (a 2) x in
                      rw (StaysLocal, f)
                        (IsLocal-of n h s0 (run_steps ip n h steps s)
                          (veth_steps-Stays n h g (a 1) (a 2) x s0 s t))
                ])
        ]

    -- Whatever commands fail, those that clean up included, a creation of a network that returns has
    -- changed no namespace but the one of its drawn name, and no device of the root namespace but the
    -- host's side of its pair.
    pub create_network-IsLocal :
        (np : NetworkPoolManager) (s : ip.State)
        → StaysLocal
            (nf.net_ns_name (draw np.draws))
            (nf.device_name (np.interface_name_generator +ℤ pos 1))
            s
            (create_network ip nf draw (np, s))
    unfolding create_network
    create_network-IsLocal np s =
        let n = nf.net_ns_name (draw np.draws) in
        let h = nf.device_name (np.interface_name_generator +ℤ pos 1) in
        let np' : NetworkPoolManager = record np { draws = np.draws + 1 } in
        let r = run_steps ip n "" (tap_steps n) s in
        let stays = tap_steps-Stays n "" h s in
        elim (Bool-cases r.0) [
          | inl o ↦
              rw (StaysLocal, o)
                (create_veth_pair-StaysLocal n np' s r.1 (HasOne-of n h s r o stays))
          | inr o ↦ rw (StaysLocal, o) (IsLocal-of n h s r stays)
        ]
