-- ===== src/Functions.antt =====
-- internal/data_plane/function_metadata/function_metadata.go: the endpoints of a function on a data
-- plane, the queue of its cold starts and its scaling metric; and giveBackCCCapacity of
-- internal/data_plane/proxy/utils.go. `addr` is the identity of an endpoint's pointer. A map from
-- pointers is a function, 0 where Go has no entry.
pub mod Queue
pub mod Draining
pub mod Delta
mod Tests
use dirigent.Prelude.{
  ℕ, zero, suc, ◌+◌, ◌-◌, ◌<◌, ◌==◌, Bool, true, false, String, List, [], ◌∷◌, ◌++◌, Option, none,
  some, length, if◌then◌else◌, ite, not_b,
}
use dirigent.Prelude.Int.{ℤ, pos, ◌+ℤ◌, ◌-ℤ◌, ◌==ℤ◌, wrap32}
use dirigent.Prelude.Names.{string_discrete}

-- `capacity` is the number of tokens in the Capacity channel, `draining_callback` that of the
-- messages in the buffer of DrainingCallback, which has room for one; `none` is a nil channel.
pub record UpstreamEndpoint : Type 0 where
  pub addr : ℕ
  pub id : String
  pub url : String
  pub capacity : ℕ
  pub drained : Bool
  pub draining_callback : Option ℕ
  pub in_flight : ℤ

-- proto.EndpointInfo
pub record EndpointInfo : Type 0 where
  pub id : String
  pub url : String

pub data ColdStartOutcome : Type 0 where
  successful_cold_start canceled_cold_start : ColdStartOutcome

-- `queue` are the channels of the waiting requests, `signals` what was sent to them, oldest first,
-- `next_addr` the address of the next endpoint.
pub record FunctionMetadata : Type 0 where
  pub sandbox_parallelism : ℕ
  pub upstream_endpoints : List UpstreamEndpoint
  pub active_endpoint_count : ℤ
  pub queue : List ℕ
  pub signals : List (ℕ × ColdStartOutcome)
  pub round_robin_counter : ℕ
  pub kubernetes_round_robin_counter : ℕ
  pub request_count_per_instance : ℕ → ℕ
  pub inflight_requests : ℤ
  pub autoscaling_triggered : Bool
  pub metrics_loops : ℕ
  pub next_addr : ℕ

-- NewFunctionMetadata
unfoldable pub new_function_metadata : FunctionMetadata
new_function_metadata = record {
  sandbox_parallelism = 1;
  upstream_endpoints = [];
  active_endpoint_count = pos 0;
  queue = [];
  signals = [];
  round_robin_counter = 0;
  kubernetes_round_robin_counter = 0;
  request_count_per_instance = λ a. 0;
  inflight_requests = pos 0;
  autoscaling_triggered = false;
  metrics_loops = 0;
  next_addr = 0;
}

-- atomic.StoreInt32(&m.activeEndpointCount, int32(len(m.upstreamEndpoints)))
unfoldable pub store_active : FunctionMetadata → FunctionMetadata
store_active m = record m { active_endpoint_count = wrap32 (pos (length m.upstream_endpoints)) }

-- The body of addToEndpointList, with createThrottlerChannel: a channel full of tokens.
unfoldable pub add_to_list : EndpointInfo → FunctionMetadata → FunctionMetadata
add_to_list e m = record m {
  upstream_endpoints =
      m.upstream_endpoints
      ++ record {
        addr = m.next_addr;
        id = e.id;
        url = e.url;
        capacity = m.sandbox_parallelism;
        drained = false;
        draining_callback = none;
        in_flight = pos 0;
      }
        ∷ [];
  next_addr = m.next_addr + 1;
}

unfoldable pub add_to_endpoint_list : List EndpointInfo → FunctionMetadata → FunctionMetadata
unfolding add_to_list
add_to_endpoint_list [] m = m
add_to_endpoint_list (e ∷ es) m = add_to_endpoint_list es (add_to_list e m)

-- The loop of AddEndpoints that empties the queue.
unfoldable pub signal_all : List ℕ → List (ℕ × ColdStartOutcome)
signal_all [] = []
signal_all (c ∷ cs) = (c, ColdStartOutcome.successful_cold_start) ∷ signal_all cs

unfoldable pub is_nonempty {ℓ} : {A : Type ℓ} → List A → Bool
is_nonempty [] = false
is_nonempty (x ∷ xs) = true

unfoldable pub add_endpoints : List EndpointInfo → FunctionMetadata → FunctionMetadata
unfolding add_to_endpoint_list store_active signal_all is_nonempty
add_endpoints es m =
    let m' = store_active (add_to_endpoint_list es m) in
    if is_nonempty m'.upstream_endpoints
    then record m' { queue = []; signals = m'.signals ++ signal_all m'.queue }
    else m'

-- The inner loop of removeEndpoints: the first endpoint with the URL goes.
unfoldable pub remove_url : String → List UpstreamEndpoint → List UpstreamEndpoint
remove_url u [] = []
remove_url u (e ∷ es) = ite (string_discrete u e.url) es (e ∷ remove_url u es)

unfoldable pub remove_urls : List EndpointInfo → List UpstreamEndpoint → List UpstreamEndpoint
unfolding remove_url
remove_urls [] es = es
remove_urls (i ∷ is) es = remove_urls is (remove_url i.url es)

unfoldable pub remove_endpoints : List EndpointInfo → FunctionMetadata → FunctionMetadata
unfolding remove_urls store_active
remove_endpoints is m =
    store_active (record m { upstream_endpoints = remove_urls is m.upstream_endpoints })

-- Whether an ID is a key of the map that markEndpointsAsDraining builds.
unfoldable pub has_id : String → List EndpointInfo → Bool
has_id x [] = false
has_id x (i ∷ is) = ite (string_discrete i.id x) true (has_id x is)

-- The loop's body in markEndpointsAsDraining for an endpoint to drain.
unfoldable pub mark : UpstreamEndpoint → UpstreamEndpoint
mark e = if e.drained then e else record e {
  drained = true;
  draining_callback = some (if e.in_flight ==ℤ pos 0 then 1 else 0);
}

unfoldable pub mark_endpoints_as_draining :
    List EndpointInfo → List UpstreamEndpoint → List UpstreamEndpoint
unfolding has_id mark
mark_endpoints_as_draining is [] = []
mark_endpoints_as_draining is (e ∷ es) =
    (if has_id e.id is then mark e else e) ∷ mark_endpoints_as_draining is es

-- The part of DrainEndpoints under the lock, after which it waits for the callbacks.
unfoldable pub drain_endpoints : List EndpointInfo → FunctionMetadata → FunctionMetadata
unfolding mark_endpoints_as_draining remove_endpoints
drain_endpoints is m =
    remove_endpoints is
      (record m { upstream_endpoints = mark_endpoints_as_draining is m.upstream_endpoints })

-- RemoveAllEndpoints
unfoldable pub remove_all_endpoints : FunctionMetadata → FunctionMetadata
remove_all_endpoints m = record m { upstream_endpoints = []; active_endpoint_count = pos 0 }

-- giveBackCCCapacity; `none` while the send waits, on a nil DrainingCallback or a full one.
unfoldable pub give_back_cc_capacity : UpstreamEndpoint → Option UpstreamEndpoint
give_back_cc_capacity e =
    let left = wrap32 (e.in_flight -ℤ pos 1) in
    let back = record e { in_flight = left; capacity = e.capacity + 1 } in
    if e.drained
    then (if left ==ℤ pos 0
        then (elim e.draining_callback [
          | none ↦ none
          | some zero ↦ some (record back { draining_callback = some 1 })
          | some (suc n) ↦ none
        ])
        else some back)
    else some back

-- The receive of waitForDrainingToComplete; `none` while it waits.
unfoldable pub receive : UpstreamEndpoint → Option UpstreamEndpoint
receive e = elim e.draining_callback [
  | none ↦ none
  | some zero ↦ none
  | some (suc n) ↦ some (record e { draining_callback = some n })
]

-- DoLoadBalancing on the endpoint that it has chosen: a token of Capacity, and the request counts.
unfoldable pub take_capacity : UpstreamEndpoint → Option UpstreamEndpoint
take_capacity e = elim e.capacity [
  | zero ↦ none
  | suc n ↦ some (record e { capacity = n; in_flight = wrap32 (e.in_flight +ℤ pos 1) })
]

-- triggerAutoscaling: the first request since the metrics loop ended starts it again.
unfoldable pub trigger_autoscaling : FunctionMetadata → FunctionMetadata
trigger_autoscaling m =
    if m.autoscaling_triggered
    then m
    else record m { autoscaling_triggered = true; metrics_loops = m.metrics_loops + 1 }

-- TryWarmStart up to its test of activeEndpointCount; the result says whether the start is cold.
unfoldable pub admit : FunctionMetadata → FunctionMetadata × Bool
unfolding trigger_autoscaling
admit m =
    let m' =
      trigger_autoscaling
        (record m { inflight_requests = wrap32 (m.inflight_requests +ℤ pos 1) }) in
    (m', m'.active_endpoint_count ==ℤ pos 0)

-- TryWarmStart, the part under the lock: the request's channel goes to the back of the queue.
unfoldable pub enqueue : ℕ → FunctionMetadata → FunctionMetadata
enqueue channel m = record m { queue = m.queue ++ channel ∷ [] }

-- TryWarmStart with nothing in between.
unfoldable pub try_warm_start : ℕ → FunctionMetadata → FunctionMetadata × Option ℕ
unfolding admit enqueue
try_warm_start channel m =
    let (m', cold) = admit m in if cold then (enqueue channel m', some channel) else (m', none)

-- DecreaseInflight
unfoldable pub decrease_inflight : FunctionMetadata → FunctionMetadata
decrease_inflight m = record m { inflight_requests = wrap32 (m.inflight_requests -ℤ pos 1) }

-- A round of sendMetricsToAutoscaler, after it has loaded the number of requests that it reports:
-- at 0 the loop ends.
unfoldable pub metrics_round : ℤ → FunctionMetadata → FunctionMetadata
metrics_round reported m =
    if reported ==ℤ pos 0
    then record m { autoscaling_triggered = false; metrics_loops = m.metrics_loops - 1 }
    else m
