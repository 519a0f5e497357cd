-- ===== src/Balancing/Dispatch.antt =====
-- runLoadBalancingAlgorithm and DoLoadBalancing of
-- internal/data_plane/proxy/load_balancing/load_balancing.go.
use native.Mathlib.Nat.{mod-lt}
use dirigent.Prelude.{
  ℕ, zero, suc, ◌+◌, ◌<◌, ◌%◌, ◌^◌, ◌≡◌, ◌⊎◌, inl, inr, refl, Bool, List, [], ◌∷◌, Option, none,
  some, length, get_elem?, get_elem?-some, leb, ltb, ◌==◌, Bool-cases, arith, if◌then◌else◌,
}
use dirigent.Functions.{UpstreamEndpoint, FunctionMetadata, is_nonempty, take_capacity}
use dirigent.Balancing.{
  random_endpoint, round_robin_load_balancing, least_processed_load_balancing, best_of_two_randoms,
  kubernetes_first_available_load_balancing, kubernetes_round_robin_load_balancing, two_indices,
  longer_queue, get_local_queue_length,
}
use dirigent.Balancing.Choices.{
  IsIn, two_indices-distinct, least_processed_load_balancing-IsLeast,
  kubernetes_first_available_load_balancing-available,
}
use dirigent.Balancing.Turns.{kubernetes_round_robin_load_balancing-free}

-- What rand.Intn answers in one run: below the number of endpoints, and below one less.
pub record Draws : Type 0 where
  pub first : ℕ
  pub second : ℕ

abbrev pub unlimited_concurrency : ℕ
unlimited_concurrency = 0

-- The fuel of the search is the number of endpoints; `none` is an index out of range.
pub kubernetes_native_load_balancing :
    Draws → FunctionMetadata → FunctionMetadata × Option UpstreamEndpoint
kubernetes_native_load_balancing d m =
    if m.sandbox_parallelism == unlimited_concurrency
    then (m, best_of_two_randoms d.first d.second m)
    else if leb m.sandbox_parallelism 3
    then (m, kubernetes_first_available_load_balancing d.first m)
    else elim (kubernetes_round_robin_load_balancing (length m.upstream_endpoints) d.first m) [
      | none ↦ (m, none)
      | some chosen ↦ chosen
    ]

-- runLoadBalancingAlgorithm once there are endpoints: the policies are 1 for round robin, 2 for
-- least processed, 3 for Knative, and random otherwise.
pub dispatch : ℕ → Draws → FunctionMetadata → FunctionMetadata × Option UpstreamEndpoint
unfolding kubernetes_native_load_balancing
dispatch policy d m =
    if policy == 1
    then round_robin_load_balancing m
    else if policy == 2
    then (m, least_processed_load_balancing m)
    else if policy == 3
    then kubernetes_native_load_balancing d m
    else (m, random_endpoint d.first m.upstream_endpoints)

pub data Outcome : Type 0 where
  nil_dereference index_out_of_range gave_up : Outcome
  forwarded : UpstreamEndpoint → Outcome

-- The endpoint in its new state, wherever the list holds its pointer.
pub update_endpoint : UpstreamEndpoint → List UpstreamEndpoint → List UpstreamEndpoint
update_endpoint e [] = []
update_endpoint e (f ∷ fs) = (if f.addr == e.addr then e else f) ∷ update_endpoint e fs

-- The end of DoLoadBalancing: the endpoint has given a token, and is sent one request more.
pub forward_request : UpstreamEndpoint → FunctionMetadata → FunctionMetadata
unfolding update_endpoint
forward_request e m = record m {
  upstream_endpoints = update_endpoint e m.upstream_endpoints;
  request_count_per_instance = λ a.
      if a == e.addr then m.request_count_per_instance a + 1 else m.request_count_per_instance a;
}

-- A round of DoLoadBalancing with the endpoint that was chosen: `in_time` says whether the wait for
-- its capacity may succeed.
pub try_endpoint : Bool → UpstreamEndpoint → FunctionMetadata → FunctionMetadata × Option Outcome
unfolding forward_request
try_endpoint in_time e m =
    if in_time
    then (elim (take_capacity e) [
      | none ↦ (m, none)
      | some e' ↦ (forward_request e' m, some (forwarded e'))
    ])
    else (m, none)

-- DoLoadBalancing with the rounds that are left, 60 at first; `draws` and `in_time` are those of the
-- round.
pub do_load_balancing :
    ℕ → ℕ → (ℕ → Draws) → (ℕ → Bool) → FunctionMetadata → FunctionMetadata × Outcome
unfolding dispatch try_endpoint
do_load_balancing zero policy draws in_time m = (m, gave_up)
do_load_balancing (suc rounds) policy draws in_time m =
    if is_nonempty m.upstream_endpoints
    then (let (m', choice) = dispatch policy (draws rounds) m in
        elim choice [
          | none ↦ (m', index_out_of_range)
          | some e ↦
              let (m'', result) = try_endpoint (in_time rounds) e m' in
              elim result [
                | none ↦ do_load_balancing rounds policy draws in_time m''
                | some outcome ↦ (m'', outcome)
              ]
        ])
    else (m, nil_dereference)

-- The draws of a run with n endpoints; with one endpoint there is no second draw.
abbrev pub HasDraws : Draws → ℕ → Type 0
HasDraws d n = (d.first < n) × ((n ≡ 1) ⊎ (suc d.second < n))

abbrev pub IsChosen : List UpstreamEndpoint → Option UpstreamEndpoint → Type 0
IsChosen es r = (e : UpstreamEndpoint) × (r ≡ some e) × IsIn e es

at_index : (es : List UpstreamEndpoint) (i : ℕ) → i < length es → IsChosen es (get_elem? es i)
at_index es i h = let (e, p) = get_elem?-some es i h in (e, p, (i, p))

best_of_two_randoms-IsChosen :
    (d : Draws) (m : FunctionMetadata)
    → HasDraws d (length m.upstream_endpoints)
    → IsChosen m.upstream_endpoints (best_of_two_randoms d.first d.second m)
unfolding best_of_two_randoms longer_queue
best_of_two_randoms-IsChosen d m (f, inl one) =
    let (e, p, i) = at_index m.upstream_endpoints 0 (omega arith) in (e, ground (arith, one, p), i)
best_of_two_randoms-IsChosen d m (f, inr two) =
    let n = length m.upstream_endpoints in
    let (small, large, apart) = two_indices-distinct n d.first d.second f two in
    let (i, j) = two_indices d.first d.second in
    let (a, p, x) = at_index m.upstream_endpoints i small in
    let (b, q, y) = at_index m.upstream_endpoints j large in
    elim (Bool-cases (ltb (get_local_queue_length m b) (get_local_queue_length m a))) [
      | inl t ↦ (a, ground (arith, p, q, t), x)
      | inr t ↦ (b, ground (arith, p, q, t), y)
    ]

kubernetes_native_load_balancing-IsChosen :
    (d : Draws) (m : FunctionMetadata)
    → HasDraws d (length m.upstream_endpoints)
    → m.kubernetes_round_robin_counter + length m.upstream_endpoints < 2 ^ 32
    → IsChosen m.upstream_endpoints (kubernetes_native_load_balancing d m).1
unfolding kubernetes_native_load_balancing
kubernetes_native_load_balancing-IsChosen d m h b =
    let es = m.upstream_endpoints in
    elim (Bool-cases (m.sandbox_parallelism == 0)) [
      | inl t ↦ rw (kubernetes_native_load_balancing, t) (best_of_two_randoms-IsChosen d m h)
      | inr f ↦ elim (Bool-cases (leb m.sandbox_parallelism 3)) [
        | inl t ↦
            rw (kubernetes_native_load_balancing, f, t)
              (elim (kubernetes_first_available_load_balancing-available d.first m) [
                | inl (e, q, i, c) ↦ (e, q, i)
                | inr (all, q) ↦ rw q (at_index es d.first h.0)
              ])
        | inr t ↦
            rw (kubernetes_native_load_balancing, f, t)
              (let (m', found) =
                  kubernetes_round_robin_load_balancing-free d.first m (omega (arith, h.0)) b in
                elim found [
                  | inl (e, i, q, at, c) ↦ rw q (e, refl, (i, at))
                  | inr (q, all) ↦ rw q (at_index es d.first h.0)
                ])
      ]
    ]

-- When a function has endpoints, every policy chooses one of them, with no index out of range, as
-- long as the counter of the Kubernetes policy does not wrap around in the search.
pub dispatch-IsChosen :
    (policy : ℕ) (d : Draws) (m : FunctionMetadata)
    → HasDraws d (length m.upstream_endpoints)
    → m.kubernetes_round_robin_counter + length m.upstream_endpoints < 2 ^ 32
    → IsChosen m.upstream_endpoints (dispatch policy d m).1
unfolding dispatch round_robin_load_balancing random_endpoint
dispatch-IsChosen policy d m h b =
    let es = m.upstream_endpoints in
    elim (Bool-cases (policy == 1)) [
      | inl t ↦
          rw (dispatch, t, round_robin_load_balancing)
            (at_index es (m.round_robin_counter % length es) (mod-lt _ (omega (arith, h.0))))
      | inr f ↦ elim (Bool-cases (policy == 2)) [
        | inl t ↦
            rw (dispatch, f, t)
              (let (e, q, i, least) =
                  least_processed_load_balancing-IsLeast m (omega (arith, h.0)) in
                (e, q, i))
        | inr g ↦ elim (Bool-cases (policy == 3)) [
          | inl t ↦ rw (dispatch, f, g, t) (kubernetes_native_load_balancing-IsChosen d m h b)
          | inr t ↦ rw (dispatch, f, g, t) (at_index es d.first h.0)
        ]
      ]
    ]
