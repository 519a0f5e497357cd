-- ===== src/Networks/Filling.antt =====
-- The loop of populate ends with a full pool
-- (internal/worker_node/sandbox/firecracker/networking.go).
use dirigent.Prelude.{
  ℕ, zero, suc, ◌+◌, ◌*◌, ◌%◌, ◌≤◌, ◌<◌, ◌≡◌, refl, inl, inr, String, [], ◌∷◌, ◌++◌, Option, none,
  some, ltb, arith, Bool-cases, Option-cases, length, length-append, subst, max,
}
use dirigent.Prelude.Int.{pos}
use dirigent.Managers.{
  IpManager, new_ip_manager, generate_raw_gateway_ip, single_ip_loop, generate_single_ip,
  generate_ip_mac_pair, get_unique_counter_value,
}
use dirigent.Managers.Addresses.{generate_single_ip-IsFresh}
use dirigent.Networks.{
  IpTool, NameFormats, NetworkConfig, NetworkPoolManager, run_steps, tap_steps, create_veth_pair,
  create_network, populate_loop, populate, pool_size, empty_pool, new_network_pool_manager,
}

single_ip_rounds :
    (rounds : ℕ) (m m' : IpManager) (c d : ℕ)
    → single_ip_loop rounds m ≡ some ((c, d), m')
    → m'.allocation_counter ≤ m.allocation_counter + rounds
unfolding single_ip_loop generate_raw_gateway_ip get_unique_counter_value
single_ip_rounds zero m m' c d e = ground (arith, e)
single_ip_rounds (suc rounds) m m' c d e =
    let m1 : IpManager = record m { allocation_counter = m.allocation_counter + 1 } in
    ground (arith, e, single_ip_rounds rounds m1 m' c d)

ip_mac_pair_returns :
    (m : IpManager)
    → m.allocation_counter < 65_536
    → (network : ℕ × ℕ) × (generate_ip_mac_pair m
        ≡ some (network, record m { allocation_counter = m.allocation_counter + 1 }))
unfolding generate_ip_mac_pair generate_raw_gateway_ip get_unique_counter_value
ip_mac_pair_returns m h = elim (Option-cases (generate_ip_mac_pair m)) [
  | inl e ↦ ground (arith, e, h)
  | inr ((network, m'), e) ↦ (network, ground (arith, e, h))
]

-- Enough addresses for some more networks.
abbrev HasAddresses : ℕ → NetworkPoolManager → Type 0
HasAddresses k np =
    (np.internal_ip_manager.allocation_counter + k ≤ 65_536)
    × (np.exposed_ip_manager.allocation_counter + 3 * k ≤ 65_537)

module _ (ip : IpTool) (nf : NameFormats) (draw : ℕ → ℕ) where
  -- A creation that uses up no more addresses than one network needs.
  abbrev HasReturned :
      ℕ
      → NetworkPoolManager
      → Option (Option NetworkConfig × (NetworkPoolManager × ip.State))
      → Type 0
  HasReturned k np none = ⊥
  HasReturned k np (some (config, (np', s))) =
      HasAddresses k np'
      × ((np'.pool ≡ np.pool) × (np'.max_network_pool_size ≡ np.max_network_pool_size))

  veth_returns :
      (k : ℕ) (n : String) (np : NetworkPoolManager) (s : ip.State)
      → HasAddresses (suc k) np
      → HasReturned k np (create_veth_pair ip nf draw n (np, s))
  unfolding create_veth_pair generate_single_ip
  veth_returns k n np s h =
      let (network, e) = ip_mac_pair_returns np.internal_ip_manager (omega (arith, h)) in
      let (c, (d, (m', (f, fresh)))) =
        generate_single_ip-IsFresh np.exposed_ip_manager (omega (arith, h)) in
      rw (HasReturned, e)
        (rw (HasReturned, f)
          (
            (omega (arith, h), omega (arith, h, single_ip_rounds 3 np.exposed_ip_manager m' c d f)),
            (refl, refl),
          ))

  create_returns :
      (k : ℕ) (np : NetworkPoolManager) (s : ip.State)
      → HasAddresses (suc k) np
      → HasReturned k np (create_network ip nf draw (np, s))
  unfolding create_network
  create_returns k np s h =
      let n = nf.net_ns_name (draw np.draws) in
      let np' : NetworkPoolManager = record np { draws = np.draws + 1 } in
      let r = run_steps ip n "" (tap_steps n) s in
      elim (Bool-cases r.0) [
        | inl o ↦ rw (HasReturned, o) (veth_returns k n np' r.1 h)
        | inr o ↦ rw (HasReturned, o) ((omega (arith, h), omega (arith, h)), (refl, refl))
      ]

  abbrev IsFull : ℕ → Option (NetworkPoolManager × ip.State) → Type 0
  IsFull size none = ⊥
  IsFull size (some (np, s)) = length np.pool ≡ size

  -- With as many rounds as the pool has free places, and addresses for them.
  populate_loop-IsFull :
      (rounds : ℕ) (np : NetworkPoolManager) (s : ip.State)
      → length np.pool ≤ np.max_network_pool_size
      → np.max_network_pool_size ≤ length np.pool + rounds
      → HasAddresses rounds np
      → IsFull np.max_network_pool_size (populate_loop ip nf draw rounds (np, s))
  unfolding populate_loop
  populate_loop-IsFull zero np s below enough h = omega (arith, below, enough)
  populate_loop-IsFull (suc rounds) np s below enough h =
      elim (Bool-cases (ltb (length np.pool) np.max_network_pool_size)) [
        | inr low ↦ rw (IsFull, low) (ground (arith, below, low))
        | inl low ↦
            rw (IsFull, low)
              (elim (Option-cases (create_network ip nf draw (np, s))) [
                | inl e ↦
                    elim (subst (λ r. HasReturned rounds np r) e (create_returns rounds np s h)) [ ]
                | inr ((config, (np', s')), e) ↦
                    let (h', (pool, size)) =
                      subst (λ r. HasReturned rounds np r) e (create_returns rounds np s h) in
                    let grown = length-append np'.pool (config ∷ []) in
                    rw (IsFull, e)
                      (subst
                        (λ m. IsFull m (
                          populate_loop ip nf draw rounds
                            (record np' { pool = np'.pool ++ config ∷ [] }, s')))
                        size
                        (populate_loop-IsFull rounds (record np' { pool = np'.pool ++ config ∷ [] })
                          s' (ground (arith, grown, pool, size, low))
                          (ground (arith, grown, pool, size, enough)) h'))
              ])
      ]

  -- If there are addresses for them, populate returns, with as many entries as the pool may have.
  pub populate-IsFull :
      (np : NetworkPoolManager) (s : ip.State)
      → length np.pool ≤ np.max_network_pool_size
      → np.internal_ip_manager.allocation_counter + np.max_network_pool_size ≤ 65_536
      → np.exposed_ip_manager.allocation_counter + 3 * np.max_network_pool_size ≤ 65_537
      → (np' : NetworkPoolManager) × ((s' : ip.State) × ((populate ip nf draw (np, s)
              ≡ some (np', s'))
            × (length np'.pool ≡ np.max_network_pool_size)))
  unfolding populate
  populate-IsFull np s below a b =
      let size = np.max_network_pool_size in
      let full = populate_loop-IsFull size np s below (omega arith) (a, b) in
      elim (Option-cases (populate_loop ip nf draw size (np, s))) [
        | inl e ↦ elim (subst (λ r. IsFull size r) e full) [ ]
        | inr ((np', s'), e) ↦ (np', (s', (e, subst (λ r. IsFull size r) e full)))
      ]

  -- A new pool of a size up to 21840 is full: it has a multiple of 16 of entries, which is 16 at least
  -- and otherwise the size that was asked for, rounded down.
  pub new_network_pool_manager-IsFull :
      (internal external : String) (size : ℕ) (s : ip.State)
      → size ≤ 21_840
      → (np : NetworkPoolManager) × ((s' : ip.State) × ((new_network_pool_manager ip nf draw
                internal external
                (pos size)
                s
              ≡ some (np, s'))
            × ((length np.pool % 16 ≡ 0)
                × ((16 ≤ length np.pool)
                    × ((length np.pool ≤ max 16 size) × (size < length np.pool + 16))))))
  unfolding new_network_pool_manager empty_pool pool_size new_ip_manager
  new_network_pool_manager-IsFull internal external size s h =
      let np = empty_pool internal external (pos size) in
      let (np', (s', (e, full))) =
        populate-IsFull np s (omega arith) (ground (arith, h)) (ground (arith, h)) in
      (np', (s', (e, ground (arith, full, h))))
