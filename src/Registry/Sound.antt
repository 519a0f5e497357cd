-- ===== src/Registry/Sound.antt =====
-- The services of the control plane over its handlers (internal/control_plane/control_plane.go,
-- failure.go, helpers.go): their actual scales and their endpoints.
use dirigent.Prelude.{
  ◌≡◌, inl, inr, Option-cases, refl, Bool, false, String, List, [], ◌∷◌, ◌++◌, none, some, arith,
  if◌then◌else◌,
}
use dirigent.Prelude.Maps.{insert, remove, lookup}
use dirigent.Prelude.Names.{string_discrete}
use dirigent.Prelude.Results.{returns, Result-cases}
use dirigent.Sync.{lock, unlock, set, get, remove_key, present, atomic_remove, atomic_get}
use dirigent.Endpoints.{Service, collect_failed, remove_endpoints}
use dirigent.Endpoints.Pointers.{IsDistinct}
use dirigent.Endpoints.Balance.{IsBalanced, remove_endpoints-IsBalanced}
use dirigent.Endpoints.Nodes.{
  remove_endpoints_associated_with_node, remove_endpoints_associated_with_node-IsBalanced,
}
use dirigent.Autoscaling.Metadata.{set_cached_scaling_metric}
use dirigent.Autoscaling.Controller.{start_swap, start_launch}
use dirigent.Registry.{ControlPlane, ServiceInfoStorage, DataPlane, add_deployment}
use dirigent.Registry.Nodes.{register_node, deregister_node, node_heartbeat, remove_node_endpoints}
use dirigent.Registry.DataPlanes.{
  register_dataplane, deregister_dataplane, announce_services, remove_from_metadata, send_current,
  new_data_plane,
}
use dirigent.Registry.Services.{
  register_service, deregister_service, remove_service_from_dataplane, new_service,
  notify_dataplanes_and_start_scaling_loop, precreate, on_metrics_receive,
}
use dirigent.Registry.Monitoring.{Failure, handle_failure, forget}
use dirigent.Registry.Handlers.{
  HandlerCall, handle, register_node_call, deregister_node_call, node_heartbeat_call,
  register_dataplane_call, deregister_dataplane_call, register_service_call,
  deregister_service_call, on_metrics_receive_call, handle_failure_call,
}

-- The endpoints are distinct, and the actual scale counts them.
abbrev pub IsSound : Service → Type 0
IsSound s = IsDistinct s.endpoints × IsBalanced s

module _ {F : Type 0} where
  abbrev pub AreSound : List (String × ServiceInfoStorage F) → Type 0
  AreSound [] = Unit
  AreSound ((key, ss) ∷ m) = IsSound ss.service × AreSound m

  insert-AreSound :
      (name : String) (ss : ServiceInfoStorage F) (m : List (String × ServiceInfoStorage F))
      → IsSound ss.service
      → AreSound m
      → AreSound (insert string_discrete name ss m)
  unfolding insert
  insert-AreSound name ss [] p a = (p, tt)
  insert-AreSound name ss ((k, v) ∷ m) p a = ground (arith, insert-AreSound name ss m p a.1)

  remove-AreSound :
      (name : String) (m : List (String × ServiceInfoStorage F))
      → AreSound m
      → AreSound (remove string_discrete name m)
  unfolding remove
  remove-AreSound name [] a = tt
  remove-AreSound name ((k, v) ∷ m) a = ground (arith, remove-AreSound name m a.1)

  lookup-AreSound :
      (name : String) (ss : ServiceInfoStorage F) (m : List (String × ServiceInfoStorage F))
      → AreSound m
      → lookup string_discrete name m ≡ some ss
      → IsSound ss.service
  unfolding lookup
  lookup-AreSound name ss [] a e = ground arith
  lookup-AreSound name ss ((k, v) ∷ m) a e = ground (arith, lookup-AreSound name ss m a.1)

  announce_services-AreSound :
      (added : String → Bool) (dp : DataPlane) (m : List (String × ServiceInfoStorage F))
      → AreSound m
      → AreSound (announce_services added dp m).1
  unfolding announce_services send_current
  announce_services-AreSound added dp [] a = tt
  announce_services-AreSound added dp ((k, v) ∷ m) a =
      let told = record dp { notices = dp.notices ++ add_deployment v.info.name ∷ [] } in
      ground (arith, announce_services-AreSound added told m a.1)

  remove_from_metadata-AreSound :
      (ip : String) (m : List (String × ServiceInfoStorage F))
      → AreSound m
      → AreSound (remove_from_metadata ip m)
  unfolding remove_from_metadata
  remove_from_metadata-AreSound ip [] a = tt
  remove_from_metadata-AreSound ip ((k, v) ∷ m) a = (a.0, remove_from_metadata-AreSound ip m a.1)

  remove_node_endpoints-AreSound :
      (name : String) (m m' : List (String × ServiceInfoStorage F))
      → AreSound m
      → remove_node_endpoints name m ≡ returns m'
      → AreSound m'
  unfolding remove_node_endpoints
  remove_node_endpoints-AreSound name [] m' a e = ground arith
  remove_node_endpoints-AreSound name ((k, v) ∷ m) m' a e =
      elim (Option-cases (remove_endpoints_associated_with_node name v.service)) [
        | inl n ↦ ground (arith, n, e)
        | inr (t, n) ↦ elim (Result-cases (remove_node_endpoints name m)) [
          | inl (rest, r) ↦
              let q =
                remove_endpoints_associated_with_node-IsBalanced name v.service t a.0.0 a.0.1 n in
              ground (arith, n, r, e, q, remove_node_endpoints-AreSound name m rest a.1 r)
          | inr r ↦ ground (arith, n, r, e)
        ]
      ]

  handle_failure-AreSound :
      (fs : List Failure) (c c' : ControlPlane F)
      → AreSound c.si_storage.internal_map
      → handle_failure fs c ≡ returns c'
      → AreSound c'.si_storage.internal_map
  unfolding handle_failure get set lock unlock
  handle_failure-AreSound [] c c' a e = ground (arith, a)
  handle_failure-AreSound (f ∷ fs) c c' a e =
      elim (Option-cases (get f.service_name c.si_storage)) [
        | inl n ↦ handle_failure-AreSound fs c c' a (ground (arith, n, e))
        | inr (ss, n) ↦
            let es = collect_failed f.sandbox_ids ss.service.endpoints [] in
            elim (Result-cases (forget es c.ni_storage)) [
              | inl (ni, r) ↦
                  let ss' = record ss { service = remove_endpoints f.sandbox_ids ss.service } in
                  let after : ControlPlane F = record c {
                    ni_storage = ni;
                    data_plane_connections = record c.data_plane_connections { locked = false };
                    si_storage = set f.service_name ss' c.si_storage;
                  } in
                  let p = lookup-AreSound f.service_name ss c.si_storage.internal_map a n in
                  let q = remove_endpoints-IsBalanced f.sandbox_ids ss.service p.0 p.1 in
                  handle_failure-AreSound fs after c'
                    (insert-AreSound f.service_name ss' c.si_storage.internal_map (q.1, q.0) a)
                    (ground (arith, n, r, e))
              | inr r ↦ ground (arith, n, r, e)
            ]
      ]

  -- Whatever a handler does and however it ends, as long as it returns, it leaves the actual scale of
  -- every service equal to the number of its endpoints, which are distinct.
  pub handle-AreSound :
      (o : HandlerCall F) (c c' : ControlPlane F)
      → AreSound c.si_storage.internal_map
      → handle o c ≡ returns c'
      → AreSound c'.si_storage.internal_map
  unfolding handle register_node deregister_node node_heartbeat register_dataplane
      deregister_dataplane register_service deregister_service on_metrics_receive lock unlock set
      get remove_key present atomic_remove precreate notify_dataplanes_and_start_scaling_loop
      remove_service_from_dataplane atomic_get new_service
  handle-AreSound (register_node_call w now info) c c' a e = ground (arith, e, a)
  handle-AreSound (deregister_node_call w name) c c' a e =
      elim (Result-cases (remove_node_endpoints name c.si_storage.internal_map)) [
        | inl (m, r) ↦
            ground
              (arith, e, a, r, remove_node_endpoints-AreSound name c.si_storage.internal_map m a r)
        | inr r ↦ ground (arith, e, a, r)
      ]
  handle-AreSound (node_heartbeat_call now m) c c' a e = ground (arith, e, a)
  handle-AreSound (register_dataplane_call w an now info) c c' a e = ground (
    arith,
    e,
    a,
    announce_services-AreSound an.added (new_data_plane now info) c.si_storage.internal_map a,
  )
  handle-AreSound (deregister_dataplane_call w ip) c c' a e =
      ground (arith, e, a, remove_from_metadata-AreSound ip c.si_storage.internal_map a)
  handle-AreSound (register_service_call w info) c c' a e = ground (
    arith,
    e,
    a,
    insert-AreSound info.name (new_service none info) c.si_storage.internal_map (tt, refl) a,
  )
  handle-AreSound (deregister_service_call w answers name) c c' a e =
      ground (arith, e, a, remove-AreSound name c.si_storage.internal_map a)
  handle-AreSound (on_metrics_receive_call name m) c c' a e =
      elim (Option-cases (get name c.si_storage)) [
        | inl n ↦ ground (arith, e, a, n)
        | inr (ss, n) ↦
            let (swapped, won) = start_swap ss.controller in
            let ss' = record ss {
              metadata = set_cached_scaling_metric m ss.metadata;
              controller = if won then start_launch swapped else swapped;
            } in
            let p = lookup-AreSound name ss c.si_storage.internal_map a n in
            ground (arith, e, n, insert-AreSound name ss' c.si_storage.internal_map p a)
      ]
  handle-AreSound (handle_failure_call fs) c c' a e = handle_failure-AreSound fs c c' a e
