-- ===== src/Balancing/Turns.antt =====
-- The two policies of internal/data_plane/proxy/load_balancing/load_balancing.go that take turns.
use native.Mathlib.Nat.{mod-add-mod, mod-lt, mod-eq_of_lt, mod-eq-sub-mod}
use dirigent.Prelude.{
  ℕ, zero, suc, ◌+◌, ◌-◌, ◌<◌, ◌≤◌, ◌%◌, ◌^◌, ◌≡◌, ◌≢◌, ◌⊎◌, inl, inr, refl, sym, subst, ◌∙◌, true,
  false, List, some, length, get_elem?, ltb, leb, Bool-cases, Option-cases, arith, if◌then◌else◌,
}
use dirigent.Functions.{UpstreamEndpoint, FunctionMetadata}
use dirigent.Balancing.{
  next32, round_robin_load_balancing, is_busy, find_free, kubernetes_round_robin_load_balancing,
  random_endpoint,
}

-- The remainder of a counter after k steps, for at most a whole turn.
turn_mod :
    (n c k : ℕ)
    → 0 < n
    → k ≤ n
    → (c + k) % n ≡ (if ltb (c % n + k) n then c % n + k else c % n + k - n)
turn_mod n c k p h = elim (Bool-cases (ltb (c % n + k) n)) [
  | inl t ↦ rw t (sym (mod-add-mod c n k) ∙ mod-eq_of_lt (ground arith))
  | inr f ↦ rw f (
      sym (mod-add-mod c n k)
      ∙ mod-eq-sub-mod (ground arith)
      ∙ mod-eq_of_lt (omega (arith, mod-lt c p)))
]

-- The step of a turn at which the counter comes to an index.
abbrev step_of : ℕ → ℕ → ℕ → ℕ
step_of n r i = if leb r i then i - r else i + n - r

step_of-index :
    (n c i : ℕ) → i < n → (step_of n (c % n) i < n) × ((c + step_of n (c % n) i) % n ≡ i)
step_of-index n c i h =
    let r : c % n < n = mod-lt c (omega arith) in
    let small : step_of n (c % n) i < n = ground arith in
    (small, turn_mod n c (step_of n (c % n) i) (omega arith) (omega arith) ∙ ground arith)

step_of_unique : (n c i k : ℕ) → i < n → k < n → (c + k) % n ≡ i → k ≡ step_of n (c % n) i
step_of_unique n c i k h l e =
    let r : c % n < n = mod-lt c (omega arith) in
    let t = turn_mod n c k (omega arith) (omega arith) in ground arith

-- A turn is over when the counter is back at its first index, and not before.
whole_turn :
    (n c k : ℕ)
    → 0 < k
    → k ≤ n
    → ((c + k) % n ≡ c % n) × (k ≡ n) ⊎ (((c + k) % n ≢ c % n) × (k < n))
whole_turn n c k p h =
    let r : c % n < n = mod-lt c (omega arith) in
    let t = turn_mod n c k (omega arith) h in ground arith

split_first : (j k : ℕ) → j ≤ k → (k ≡ j) ⊎ (suc j ≤ k)
split_first j k h = omega arith

next32-small : (c : ℕ) → suc c < 2 ^ 32 → next32 c ≡ suc c
next32-small c h = omega arith

-- The metadata after a number of requests that roundRobinLoadBalancing has placed.
unfoldable pub turns : ℕ → FunctionMetadata → FunctionMetadata
turns zero m = m
turns (suc j) m = (round_robin_load_balancing (turns j m)).0

turns_counter :
    (j : ℕ) (m : FunctionMetadata)
    → m.round_robin_counter + j < 2 ^ 32
    → ((turns j m).round_robin_counter ≡ m.round_robin_counter + j)
      × ((turns j m).upstream_endpoints ≡ m.upstream_endpoints)
unfolding turns round_robin_load_balancing
turns_counter zero m h = (omega arith, refl)
turns_counter (suc j) m h = let (c, e) = turns_counter j m (omega arith) in (omega (arith, c), e)

-- Of as many successive requests as a function has endpoints, roundRobinLoadBalancing sends exactly
-- one to each endpoint, as long as the counter does not wrap around.
pub round_robin_load_balancing-fair :
    (m : FunctionMetadata) (i : ℕ)
    → i < length m.upstream_endpoints
    → m.round_robin_counter + length m.upstream_endpoints < 2 ^ 32
    → (let n = length m.upstream_endpoints in
        (j : ℕ) × (j < n)
        × ((round_robin_load_balancing (turns j m)).1 ≡ get_elem? m.upstream_endpoints i)
        × ((k : ℕ) → k < n → (m.round_robin_counter + k) % n ≡ i → k ≡ j))
unfolding round_robin_load_balancing
round_robin_load_balancing-fair m i h b =
    let n = length m.upstream_endpoints in
    let j = step_of n (m.round_robin_counter % n) i in
    let (small, there) = step_of-index n m.round_robin_counter i h in
    let (counter, same) = turns_counter j m (omega arith) in
    (
      j,
      small,
      ground (arith, counter, same, there),
      λ k l e. step_of_unique n m.round_robin_counter i k h l e,
    )

busy_from :
    (es : List UpstreamEndpoint) (c j k : ℕ)
    → is_busy es ((c + j) % length es) ≡ true
    → ((i : ℕ) → suc j ≤ i → i < length es → is_busy es ((c + i) % length es) ≡ true)
    → j ≤ k
    → k < length es
    → is_busy es ((c + k) % length es) ≡ true
busy_from es c j k busy all l u = elim (split_first j k l) [ inl e ↦ rw e busy | inr m ↦ all k m u ]

-- The search of kubernetesRoundRobinLoadBalancing, j steps after its first counter.
find_free_lem :
    (fuel : ℕ) (es : List UpstreamEndpoint) (c j : ℕ)
    → j < length es
    → c + length es < 2 ^ 32
    → length es ≤ fuel + j
    → (d : ℕ) × (find_free fuel es (c % length es) (c + j) ≡ some d)
      × ((is_busy es (d % length es) ≡ false)
          ⊎ ((k : ℕ) → j ≤ k → k < length es → is_busy es ((c + k) % length es) ≡ true))
unfolding find_free
find_free_lem zero es c j h b f = absurd (omega arith)
find_free_lem (suc fuel) es c j h b f = elim (Bool-cases (is_busy es ((c + j) % length es))) [
  | inr free ↦ (c + j, rw (find_free, free) refl, inl free)
  | inl busy ↦
      let step : next32 (c + j) ≡ c + suc j = omega arith in
      elim (whole_turn (length es) c (suc j) (omega arith) (omega arith)) [
        | inl (back, end) ↦ (
          c + suc j,
          ground (arith, step, back, busy),
          inr (λ k l u. (let here : k ≡ j = omega arith in rw here busy)),
        )
        | inr (away, more) ↦
            let (d, found, result) = find_free_lem fuel es c (suc j) more b (omega arith) in
            (
              d,
              ground (arith, step, away, busy, found),
              elim result [
                | inl free ↦ inl free
                | inr all ↦ inr (λ k l u. busy_from es c j k busy all l u)
              ],
            )
      ]
]

free_endpoint :
    (es : List UpstreamEndpoint) (i : ℕ)
    → is_busy es i ≡ false
    → (e : UpstreamEndpoint) × (get_elem? es i ≡ some e) × (0 < e.capacity)
unfolding is_busy
free_endpoint es i f = elim (Option-cases (get_elem? es i)) [
  | inl q ↦ ground arith
  | inr (e, q) ↦ (e, q, ground arith)
]

all_busy :
    (es : List UpstreamEndpoint) (c : ℕ)
    → ((k : ℕ) → 0 ≤ k → k < length es → is_busy es ((c + k) % length es) ≡ true)
    → (i : ℕ) → i < length es
    → is_busy es i ≡ true
all_busy es c all i h =
    let (small, there) = step_of-index (length es) c i h in
    subst (λ k. is_busy es k ≡ true) there
      (all (step_of (length es) (c % length es) i) (omega arith) small)

pub kubernetes_round_robin_load_balancing-free :
    (r : ℕ) (m : FunctionMetadata)
    → 0 < length m.upstream_endpoints
    → m.kubernetes_round_robin_counter + length m.upstream_endpoints < 2 ^ 32
    → (let es = m.upstream_endpoints in
        (m' : FunctionMetadata) × (((e : UpstreamEndpoint) × (i : ℕ)
            × (kubernetes_round_robin_load_balancing (length es) r m ≡ some (m', some e))
            × (get_elem? es i ≡ some e)
            × (0 < e.capacity))
          ⊎ ((kubernetes_round_robin_load_balancing (length es) r m ≡ some (m', get_elem? es r))
              × ((i : ℕ) → i < length es → is_busy es i ≡ true))))
unfolding kubernetes_round_robin_load_balancing random_endpoint
kubernetes_round_robin_load_balancing-free r m h b =
    let es = m.upstream_endpoints in
    let c = m.kubernetes_round_robin_counter in
    let (d, found, result) = find_free_lem (length es) es c 0 h b (omega arith) in
    elim (Bool-cases (is_busy es (d % length es))) [
      | inr free ↦
          let (e, at, has) = free_endpoint es (d % length es) free in
          (
            record m { kubernetes_round_robin_counter = next32 d },
            inl (e, d % length es, ground (arith, found, free, at), at, has),
          )
      | inl busy ↦ (
        record m { kubernetes_round_robin_counter = d },
        inr (
          ground (arith, found, busy),
          elim result [ inl free ↦ absurd (ground arith) | inr all ↦ all_busy es c all ],
        ),
      )
    ]
