-- ===== src/Balancing.antt =====
-- internal/data_plane/proxy/load_balancing/load_balancing.go: the choice of an endpoint for a
-- request. What rand.Intn answers, and whether a wait for capacity succeeds, are arguments; `none`
-- is a panic of the Go code.
pub mod Choices
pub mod Turns
pub mod Dispatch
mod Tests
use dirigent.Prelude.{
  ℕ, zero, suc, ◌+◌, ◌-◌, ◌<◌, ◌%◌, ◌^◌, ◌==◌, Bool, true, false, List, [], ◌∷◌, Option, none, some,
  length, get_elem?, ltb, leb, if◌then◌else◌,
}
use dirigent.Functions.{UpstreamEndpoint, FunctionMetadata, is_nonempty}

-- A uint32 counter after an increment.
abbrev pub next32 : ℕ → ℕ
next32 c = (c + 1) % 2 ^ 32

unfoldable pub random_endpoint : ℕ → List UpstreamEndpoint → Option UpstreamEndpoint
random_endpoint index es = get_elem? es index

unfoldable pub round_robin_load_balancing :
    FunctionMetadata → FunctionMetadata × Option UpstreamEndpoint
round_robin_load_balancing m = (
  record m { round_robin_counter = next32 m.round_robin_counter },
  get_elem? m.upstream_endpoints (m.round_robin_counter % length m.upstream_endpoints),
)

-- The loop of leastProcessedLoadBalancing, with minEndpoint; minValue is its count.
unfoldable pub least_of : (ℕ → ℕ) → UpstreamEndpoint → List UpstreamEndpoint → UpstreamEndpoint
least_of count best [] = best
least_of count best (e ∷ es) =
    if ltb (count e.addr) (count best.addr) then least_of count e es else least_of count best es

unfoldable pub least_processed_load_balancing : FunctionMetadata → Option UpstreamEndpoint
unfolding least_of
least_processed_load_balancing m = elim m.upstream_endpoints [
  | [] ↦ none
  | e ∷ es ↦ some (least_of m.request_count_per_instance e (e ∷ es))
]

-- generateTwoUniformRandomEndpoints: the two indices, for draws below size and below size - 1.
unfoldable pub two_indices : ℕ → ℕ → ℕ × ℕ
two_indices r1 r2 = if leb r1 r2 then (r1, r2 + 1) else (r1, r2)

-- GetLocalQueueLength
unfoldable pub get_local_queue_length : FunctionMetadata → UpstreamEndpoint → ℕ
get_local_queue_length m e = m.request_count_per_instance e.addr

unfoldable pub longer_queue :
    FunctionMetadata → Option UpstreamEndpoint → Option UpstreamEndpoint → Option UpstreamEndpoint
unfolding get_local_queue_length
longer_queue m none b = none
longer_queue m (some a) none = none
longer_queue m (some a) (some b) =
    if ltb (get_local_queue_length m b) (get_local_queue_length m a) then some a else some b

unfoldable pub best_of_two_randoms : ℕ → ℕ → FunctionMetadata → Option UpstreamEndpoint
unfolding two_indices longer_queue
best_of_two_randoms r1 r2 m =
    if length m.upstream_endpoints == 1
    then get_elem? m.upstream_endpoints 0
    else (let (i, j) = two_indices r1 r2 in
        longer_queue m (get_elem? m.upstream_endpoints i) (get_elem? m.upstream_endpoints j))

-- The loop of kubernetesFirstAvailableLoadBalancing.
unfoldable pub first_available : List UpstreamEndpoint → Option UpstreamEndpoint
first_available [] = none
first_available (e ∷ es) = if ltb 0 e.capacity then some e else first_available es

unfoldable pub kubernetes_first_available_load_balancing :
    ℕ → FunctionMetadata → Option UpstreamEndpoint
unfolding first_available random_endpoint
kubernetes_first_available_load_balancing r m = elim (first_available m.upstream_endpoints) [
  | none ↦ random_endpoint r m.upstream_endpoints
  | some e ↦ some e
]

-- len(endpoints[i].Capacity) == 0, which is asked of indices in the list.
unfoldable pub is_busy : List UpstreamEndpoint → ℕ → Bool
is_busy es i = elim (get_elem? es i) [ none ↦ true | some e ↦ e.capacity == 0 ]

-- The loop of kubernetesRoundRobinLoadBalancing from the counter `c`, on fuel; `none` when it is out.
unfoldable pub find_free : ℕ → List UpstreamEndpoint → ℕ → ℕ → Option ℕ
unfolding is_busy
find_free zero es base c = none
find_free (suc fuel) es base c =
    let rest = find_free fuel es base (next32 c) in
    if is_busy es (c % length es)
    then (if next32 c % length es == base then some (next32 c) else rest)
    else some c

unfoldable pub kubernetes_round_robin_load_balancing :
    ℕ → ℕ → FunctionMetadata → Option (FunctionMetadata × Option UpstreamEndpoint)
unfolding find_free is_busy random_endpoint
kubernetes_round_robin_load_balancing fuel r m =
    let es = m.upstream_endpoints in
    let counter = m.kubernetes_round_robin_counter in
    elim (find_free fuel es (counter % length es) counter) [
      | none ↦ none
      | some c ↦
          if is_busy es (c % length es)
          then some (record m { kubernetes_round_robin_counter = c }, random_endpoint r es)
          else some
              (record m { kubernetes_round_robin_counter = next32 c }, get_elem? es (c % length es))
    ]
