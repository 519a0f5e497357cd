-- ===== src/Functions/Queue.antt =====
-- The queue of the cold starts (internal/data_plane/function_metadata/function_metadata.go).
use dirigent.Prelude.{
  ℕ, ◌+◌, ◌<◌, ◌^◌, ◌≤◌, ◌≡◌, ◌⊎◌, refl, sym, true, false, String, List, [], ◌∷◌, ◌++◌, length,
  length-append, arith,
}
use dirigent.Prelude.Int.{◌+ℤ◌, pos, wrap32, wrap32_of_IsInt32}
use dirigent.Functions.{
  UpstreamEndpoint, FunctionMetadata, EndpointInfo, add_endpoints, add_to_endpoint_list,
  add_to_list, store_active, is_nonempty, signal_all, remove_endpoints, drain_endpoints,
  remove_all_endpoints, try_warm_start, admit, enqueue, trigger_autoscaling, metrics_round,
  remove_url, remove_urls, mark_endpoints_as_draining,
}

length-add_to_endpoint_list :
    (es : List EndpointInfo) (m : FunctionMetadata)
    → length (add_to_endpoint_list es m).upstream_endpoints
      ≡ length m.upstream_endpoints + length es
unfolding add_to_endpoint_list add_to_list
length-add_to_endpoint_list [] m = omega arith
length-add_to_endpoint_list (e ∷ es) m = omega (
  arith,
  length-add_to_endpoint_list es (add_to_list e m),
  length-append m.upstream_endpoints (_ ∷ []),
)

add_to_endpoint_list_keeps :
    (es : List EndpointInfo) (m : FunctionMetadata)
    → ((add_to_endpoint_list es m).queue ≡ m.queue)
      × ((add_to_endpoint_list es m).signals ≡ m.signals)
unfolding add_to_endpoint_list add_to_list
add_to_endpoint_list_keeps [] m = (refl, refl)
add_to_endpoint_list_keeps (e ∷ es) m = add_to_endpoint_list_keeps es _

is_nonempty-length :
    {A : Type 0}
    → (xs : List A)
    → ((is_nonempty xs ≡ true) × (0 < length xs)) ⊎ ((is_nonempty xs ≡ false) × (length xs ≡ 0))
unfolding is_nonempty
is_nonempty-length [] = ground arith
is_nonempty-length (x ∷ xs) = ground arith

-- AddEndpoints keeps the endpoints that are there and adds as many as it is given. When there are
-- any then, every waiting request is told once that its cold start succeeded, in the order in which
-- they came, and none waits any more; otherwise nobody is told anything.
pub add_endpoints-signals :
    (es : List EndpointInfo) (m : FunctionMetadata)
    → (let t = add_endpoints es m in
        (length t.upstream_endpoints ≡ length m.upstream_endpoints + length es)
        × (t.active_endpoint_count ≡ wrap32 (pos (length t.upstream_endpoints)))
        × (0 < length t.upstream_endpoints
            → (t.queue ≡ []) × (t.signals ≡ m.signals ++ signal_all m.queue))
        × (length t.upstream_endpoints ≡ 0 → (t.queue ≡ m.queue) × (t.signals ≡ m.signals)))
unfolding add_endpoints store_active is_nonempty
add_endpoints-signals es m =
    let a = add_to_endpoint_list es m in
    ground (
      arith,
      length-add_to_endpoint_list es m,
      add_to_endpoint_list_keeps es m,
      is_nonempty-length a.upstream_endpoints,
    )

-- The count of active endpoints is that of the list, and requests wait only while it is empty.
pub record IsServed (m : FunctionMetadata) : Type 0 where
  pub counts : m.active_endpoint_count ≡ wrap32 (pos (length m.upstream_endpoints))
  pub bounded : length m.upstream_endpoints < 2 ^ 31
  pub waits : 0 < length m.queue → length m.upstream_endpoints ≡ 0

-- What happens to a function's metadata: endpoints come and go, and requests arrive.
pub data Operation : Type 0 where
  adds drains : List EndpointInfo → Operation
  removes_all : Operation
  arrives : ℕ → Operation

unfoldable pub run : Operation → FunctionMetadata → FunctionMetadata
run (adds es) m = add_endpoints es m
run (drains es) m = drain_endpoints es m
run removes_all m = remove_all_endpoints m
run (arrives channel) m = (try_warm_start channel m).0

pub length-remove_url :
    (u : String) (es : List UpstreamEndpoint) → length (remove_url u es) ≤ length es
unfolding remove_url
length-remove_url u [] = omega arith
length-remove_url u (e ∷ es) = ground (arith, length-remove_url u es)

length-remove_urls :
    (is : List EndpointInfo) (es : List UpstreamEndpoint) → length (remove_urls is es) ≤ length es
unfolding remove_urls
length-remove_urls [] es = omega arith
length-remove_urls (i ∷ is) es =
    omega (arith, length-remove_urls is (remove_url i.url es), length-remove_url i.url es)

length-mark_endpoints_as_draining :
    (is : List EndpointInfo) (es : List UpstreamEndpoint)
    → length (mark_endpoints_as_draining is es) ≡ length es
unfolding mark_endpoints_as_draining
length-mark_endpoints_as_draining is [] = refl
length-mark_endpoints_as_draining is (e ∷ es) =
    omega (arith, length-mark_endpoints_as_draining is es)

wrap32_small : (n : ℕ) → n < 2 ^ 31 → wrap32 (pos n) ≡ pos n
wrap32_small n h = wrap32_of_IsInt32 (pos n) (h, omega arith)

-- Whatever happens to a function, its count of active endpoints stays that of its endpoints, and
-- requests wait only while it has none, provided that TryWarmStart runs as a whole and that there
-- are fewer than 2^31 endpoints.
pub run-IsServed :
    (o : Operation) (m : FunctionMetadata)
    → length (run o m).upstream_endpoints < 2 ^ 31
    → IsServed m
    → IsServed (run o m)
unfolding run drain_endpoints remove_endpoints remove_all_endpoints store_active try_warm_start
    admit enqueue trigger_autoscaling
run-IsServed (adds es) m b s = ground (arith, add_endpoints-signals es m)
run-IsServed (drains is) m b s = ground (
  arith,
  length-remove_urls is (mark_endpoints_as_draining is m.upstream_endpoints),
  length-mark_endpoints_as_draining is m.upstream_endpoints,
)
run-IsServed removes_all m b s = record {
  counts = sym (wrap32_small 0 (omega arith));
  bounded = b;
  waits = λ w. refl;
}
run-IsServed (arrives c) m b s =
    ground
      (arith, wrap32_small (length m.upstream_endpoints) s.bounded, length-append m.queue (c ∷ []))

-- A wake-up is lost when endpoints are added between the two parts of TryWarmStart: the request has
-- seen none, and then waits behind AddEndpoints although there are endpoints.
pub enqueue-add_endpoints :
    (channel : ℕ) (e : EndpointInfo) (m : FunctionMetadata)
    → IsServed m
    → length m.upstream_endpoints ≡ 0
    → (let t = enqueue channel (add_endpoints (e ∷ []) (admit m).0) in
        ((admit m).1 ≡ true)
        × (t.queue ≡ channel ∷ [])
        × (0 < length t.upstream_endpoints)
        × (t.signals ≡ m.signals ++ signal_all m.queue))
unfolding admit enqueue trigger_autoscaling
enqueue-add_endpoints channel e m s h =
    ground (arith, wrap32_small 0 (omega arith), add_endpoints-signals (e ∷ []) (admit m).0)

-- A metric is lost when a request arrives between the load and the end of a metrics round: the
-- request finds the loop triggered, the loop ends, and nothing reports the request.
pub metrics_round-admit :
    (m : FunctionMetadata)
    → m.autoscaling_triggered ≡ true
    → m.inflight_requests ≡ pos 0
    → m.metrics_loops ≡ 1
    → (let t = metrics_round m.inflight_requests (admit m).0 in
        (t.inflight_requests ≡ pos 1) × (t.autoscaling_triggered ≡ false) × (t.metrics_loops ≡ 0))
unfolding metrics_round admit trigger_autoscaling ◌+ℤ◌
metrics_round-admit m t i l = ground (arith, wrap32_small 1 (omega arith))
