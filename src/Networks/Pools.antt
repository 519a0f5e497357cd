-- ===== src/Networks/Pools.antt =====
-- Who has which network: the pool of internal/worker_node/sandbox/firecracker/networking.go under
-- every order of its operations.
use dirigent.Prelude.{
  ℕ, zero, suc, ◌+◌, ◌≤◌, ◌≡◌, refl, ◌⊎◌, inl, inr, String, List, [], ◌∷◌, ◌++◌, Bool, true, Option,
  none, some, ite, ltb, arith, Bool-cases, Option-cases, if◌then◌else◌, length, subst,
  length-append,
}
use dirigent.Prelude.Names.{string_discrete}
use dirigent.Managers.{generate_ip_mac_pair, generate_single_ip}
use dirigent.Networks.{
  IpTool, NameFormats, NetworkConfig, NetworkPoolManager, create_veth_pair, create_network,
  populate_loop, get_one_config, give_up_network, netns_delete, delete_device_by_name,
  delete_network_namespace_by_name, run_steps, tap_steps,
}
use dirigent.Networks.Hosts.{IsIpTool, Deletes, delete_netns}
use dirigent.Networks.Creation.{IsWhole, HasCreated, create_network-IsWhole}

abbrev pub owns : String → Option NetworkConfig → ℕ
owns n none = 0
owns n (some c) = ite (string_discrete c.net_ns n) 1 0

-- How many of the configurations have a namespace.
unfoldable pub count_of : String → List (Option NetworkConfig) → ℕ
count_of n [] = 0
count_of n (c ∷ cs) = owns n c + count_of n cs

pub count_of-append :
    (n : String) (xs ys : List (Option NetworkConfig))
    → count_of n (xs ++ ys) ≡ count_of n xs + count_of n ys
unfolding count_of
count_of-append n [] ys = omega arith
count_of-append n (x ∷ xs) ys = omega (arith, count_of-append n xs ys)

List-cases {ℓ} :
    {A : Type ℓ} (xs : List A) → (xs ≡ []) ⊎ ((x : A) × ((ys : List A) × (xs ≡ x ∷ ys)))
List-cases [] = inl refl
List-cases (x ∷ ys) = inr (x, (ys, refl))

module _ (ip : IpTool) where
  -- A namespace that exists is owned once, by the pool, by a virtual machine or by somebody else, and
  -- no other namespace is owned. `foreign` counts what is not this worker node's.
  abbrev pub IsOwned :
      (String → ℕ) → NetworkPoolManager → ip.State → List (Option NetworkConfig) → Type 0
  IsOwned foreign np s in_use =
      (n : String)
      → count_of n np.pool + count_of n in_use + foreign n ≡ (if ip.has_netns s n then 1 else 0)

module _ (ip : IpTool) (l : IsIpTool ip) (ds : Deletes ip) where
  whole-IsOwned :
      (foreign : String → ℕ) (np np' : NetworkPoolManager) (s s' : ip.State)
      (config : Option NetworkConfig) (in_use : List (Option NetworkConfig))
      → np'.pool ≡ np.pool
      → IsWhole ip l ds config s s'
      → IsOwned ip foreign np s in_use
      → (n : String)
      → count_of n np'.pool + (owns n config + count_of n in_use) + foreign n
        ≡ (if ip.has_netns s' n then 1 else 0)
  whole-IsOwned foreign np np' s s' none in_use p w o n = ground (arith, p, w.netns n, o n)
  whole-IsOwned foreign np np' s s' (some c) in_use p w o n =
      ground (arith, p, w.netns n, w.fresh, o n)

  module _ (nf : NameFormats) (draw : ℕ → ℕ) (foreign : String → ℕ) where
    abbrev KeepsPool :
        NetworkPoolManager
        → Option (Option NetworkConfig × (NetworkPoolManager × ip.State))
        → Type 0
    KeepsPool np none = Unit
    KeepsPool np (some (config, (np', s'))) =
        (np'.pool ≡ np.pool) × (np'.max_network_pool_size ≡ np.max_network_pool_size)

    create_veth_pair-KeepsPool :
        (n : String) (np : NetworkPoolManager) (s : ip.State)
        → KeepsPool np (create_veth_pair ip nf draw n (np, s))
    unfolding create_veth_pair
    create_veth_pair-KeepsPool n np s =
        elim (Option-cases (generate_ip_mac_pair np.internal_ip_manager)) [
          | inl e ↦ rw (KeepsPool, e) tt
          | inr (i, e) ↦
              rw (KeepsPool, e)
                (elim (Option-cases (generate_single_ip np.exposed_ip_manager)) [
                  | inl f ↦ rw (KeepsPool, f) tt
                  | inr (x, f) ↦ rw (KeepsPool, f) (refl, refl)
                ])
        ]

    create_network-KeepsPool :
        (np : NetworkPoolManager) (s : ip.State) → KeepsPool np (create_network ip nf draw (np, s))
    unfolding create_network
    create_network-KeepsPool np s =
        let n = nf.net_ns_name (draw np.draws) in
        let np' : NetworkPoolManager = record np { draws = np.draws + 1 } in
        let r = run_steps ip n "" (tap_steps n) s in
        elim (Bool-cases r.0) [
          | inl o ↦ rw (KeepsPool, o) (create_veth_pair-KeepsPool n np' r.1)
          | inr o ↦ rw (KeepsPool, o) (refl, refl)
        ]

    -- A network that was created is its caller's.
    created-IsOwned :
        (np np' : NetworkPoolManager) (s s' : ip.State) (config : Option NetworkConfig)
        (in_use : List (Option NetworkConfig))
        → create_network ip nf draw (np, s) ≡ some (config, (np', s'))
        → IsOwned ip foreign np s in_use
        → IsOwned ip foreign np' s' (config ∷ in_use)
    unfolding count_of
    created-IsOwned np np' s s' config in_use e o =
        let whole =
          subst (λ r. HasCreated ip l ds s r) e (create_network-IsWhole ip l ds nf draw np s) in
        let kept = subst (λ r. KeepsPool np r) e (create_network-KeepsPool np s) in
        whole-IsOwned foreign np np' s s' config in_use kept.0 whole o

    -- What holds at all times: every namespace has one owner, and the pool is not too large.
    abbrev pub IsSound : List (Option NetworkConfig) → NetworkPoolManager × ip.State → Type 0
    IsSound in_use (np, s) =
        IsOwned ip foreign np s in_use × (length np.pool ≤ np.max_network_pool_size)

    abbrev pub EndsSound :
        List (Option NetworkConfig) → Option (NetworkPoolManager × ip.State) → Type 0
    EndsSound in_use none = Unit
    EndsSound in_use (some p) = IsSound in_use p

    pooled-IsSound :
        (np np' : NetworkPoolManager) (s s' : ip.State) (config : Option NetworkConfig)
        (in_use : List (Option NetworkConfig))
        → create_network ip nf draw (np, s) ≡ some (config, (np', s'))
        → ltb (length np.pool) np.max_network_pool_size ≡ true
        → IsSound in_use (np, s)
        → IsSound in_use (record np' { pool = np'.pool ++ config ∷ [] }, s')
    unfolding count_of
    pooled-IsSound np np' s s' config in_use e low i =
        let kept = subst (λ r. KeepsPool np r) e (create_network-KeepsPool np s) in
        (
          λ n. ground (
            arith,
            created-IsOwned np np' s s' config in_use e i.0 n,
            count_of-append n np'.pool (config ∷ []),
          ),
          ground (arith, kept, low, length-append np'.pool (config ∷ [])),
        )

    pub populate_loop-IsSound :
        (rounds : ℕ) (np : NetworkPoolManager) (s : ip.State) (in_use : List (Option NetworkConfig))
        → IsSound in_use (np, s)
        → EndsSound in_use (populate_loop ip nf draw rounds (np, s))
    unfolding populate_loop
    populate_loop-IsSound zero np s in_use i = i
    populate_loop-IsSound (suc rounds) np s in_use i =
        elim (Bool-cases (ltb (length np.pool) np.max_network_pool_size)) [
          | inr low ↦ rw (EndsSound, low) i
          | inl low ↦
              rw (EndsSound, low)
                (elim (Option-cases (create_network ip nf draw (np, s))) [
                  | inl e ↦ rw (EndsSound, e) tt
                  | inr ((config, (np', s')), e) ↦
                      rw (EndsSound, e)
                        (populate_loop-IsSound rounds
                          (record np' { pool = np'.pool ++ config ∷ [] }) s' in_use
                          (pooled-IsSound np np' s s' config in_use e low i))
                ])
        ]

    created-IsSound :
        (np np' : NetworkPoolManager) (s s' : ip.State) (config : Option NetworkConfig)
        (in_use : List (Option NetworkConfig))
        → create_network ip nf draw (np, s) ≡ some (config, (np', s'))
        → IsSound in_use (np, s)
        → IsSound (config ∷ in_use) (np', s')
    created-IsSound np np' s s' config in_use e i =
        let kept = subst (λ r. KeepsPool np r) e (create_network-KeepsPool np s) in
        (created-IsOwned np np' s s' config in_use e i.0, ground (arith, kept, i.1))

    abbrev pub HasGot :
        List (Option NetworkConfig)
        → Option (Option NetworkConfig × (Bool × (NetworkPoolManager × ip.State)))
        → Type 0
    HasGot in_use none = Unit
    HasGot in_use (some (config, (low, p))) = IsSound (config ∷ in_use) p

    -- What GetOneConfig hands out is its caller's.
    pub get_one_config-IsSound :
        (np : NetworkPoolManager) (s : ip.State) (in_use : List (Option NetworkConfig))
        → IsSound in_use (np, s)
        → HasGot in_use (get_one_config ip nf draw (np, s))
    unfolding get_one_config count_of
    get_one_config-IsSound np s in_use i = elim (List-cases np.pool) [
      | inr (config, (pool, e)) ↦
          rw (HasGot, e) (λ n. ground (arith, e, i.0 n), ground (arith, e, i.1))
      | inl e ↦
          rw (HasGot, e)
            (elim (Option-cases (create_network ip nf draw (np, s))) [
              | inl f ↦ rw (HasGot, f) tt
              | inr ((none, (np', s')), f) ↦
                  rw (HasGot, f) (created-IsSound np np' s s' none in_use f i)
              | inr ((some config, (np', s')), f) ↦
                  rw (HasGot, f) (created-IsSound np np' s s' (some config) in_use f i)
            ])
    ]

    -- A network that is given up goes back to the pool, or away.
    pub give_up-IsSound :
        (c : NetworkConfig) (np : NetworkPoolManager) (s : ip.State)
        (in_use rest : List (Option NetworkConfig))
        → ((n : String) → count_of n in_use ≡ owns n (some c) + count_of n rest)
        → IsSound in_use (np, s)
        → IsSound rest (give_up_network ip nf draw c (np, s))
    unfolding give_up_network delete_device_by_name delete_network_namespace_by_name count_of
    give_up-IsSound c np s in_use rest split i =
        elim (Bool-cases (ltb (length np.pool) np.max_network_pool_size)) [
          | inl low ↦ rw low (
            λ n. ground (arith, i.0 n, split n, count_of-append n np.pool (some c ∷ [])),
            ground (arith, low, length-append np.pool (some c ∷ [])),
          )
          | inr full ↦ rw full (
            λ n. ground (
              arith,
              i.0 n,
              split n,
              delete_netns ip l ds s c.net_ns n,
              l.del_netns (ip.run (netns_delete c.net_ns) s).1 c.veth_host_name n,
            ),
            i.1,
          )
        ]
