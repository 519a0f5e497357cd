-- ===== src/Registry/Handlers.antt =====
-- The handlers of the control plane as one step (internal/control_plane/control_plane.go).
use dirigent.Prelude.{
  ℕ, ◌≡◌, inl, inr, Option-cases, refl, Bool, true, false, String, List, [], ◌∷◌, arith,
}
use dirigent.Prelude.Results.{Result, returns, ◌>>=◌, Result-cases}
use dirigent.Sync.{
  Structure, lock, unlock, set, get, remove_key, present, atomic_remove, atomic_get,
}
use dirigent.Workers.{WorkerNode, WorkerNodeConfiguration}
use dirigent.Autoscaling.Metadata.{AutoscalingMetric}
use dirigent.Registry.{
  ControlPlane, ServiceInfo, Write, DataplaneInformation, IsFree, DataPlane, Notice,
  delete_deployment,
}
use dirigent.Registry.Nodes.{register_node, deregister_node, node_heartbeat, NodeHeartbeatMessage}
use dirigent.Registry.DataPlanes.{register_dataplane, deregister_dataplane, Answers}
use dirigent.Registry.Services.{
  register_service, deregister_service, remove_service_from_dataplane, notify_until,
  notify_dataplanes_and_start_scaling_loop, precreate, on_metrics_receive,
}
use dirigent.Registry.Monitoring.{Failure, handle_failure, forget, remove_endpoint_from_wn_struct}
use dirigent.Endpoints.{Endpoint, collect_failed, remove_endpoints}

pub data HandlerCall (F : Type 0) : Type 0 where
  register_node_call : Write → ℕ → WorkerNodeConfiguration → HandlerCall F
  deregister_node_call : Write → String → HandlerCall F
  node_heartbeat_call : ℕ → NodeHeartbeatMessage → HandlerCall F
  register_dataplane_call : Write → Answers → ℕ → DataplaneInformation → HandlerCall F
  deregister_dataplane_call : Write → String → HandlerCall F
  register_service_call : Write → ServiceInfo F → HandlerCall F
  deregister_service_call : Write → (String → Bool) → String → HandlerCall F
  on_metrics_receive_call : String → AutoscalingMetric → HandlerCall F
  handle_failure_call : List Failure → HandlerCall F

module _ {F : Type 0} where
  abbrev pub state_of : {A : Type 0} → Result (ControlPlane F × A) → Result (ControlPlane F)
  state_of r = r >>= λ (x : _). returns x.0

  unfoldable pub handle : HandlerCall F → ControlPlane F → Result (ControlPlane F)
  handle (register_node_call w now info) c = state_of (register_node w now info c)
  handle (deregister_node_call w name) c = state_of (deregister_node w name c)
  handle (node_heartbeat_call now m) c = returns (node_heartbeat now m c).0
  handle (register_dataplane_call w a now info) c = do
    (c', status, beat) ← register_dataplane w a now info c
    returns c'
  handle (deregister_dataplane_call w ip) c = state_of (deregister_dataplane w ip c)
  handle (register_service_call w info) c = state_of (register_service w info c)
  handle (deregister_service_call w answers name) c = state_of (deregister_service w answers name c)
  handle (on_metrics_receive_call name m) c = state_of (on_metrics_receive name m c)
  handle (handle_failure_call fs) c = handle_failure fs c

  -- The data planes that a call asks answer it.
  abbrev pub IsAnswered : HandlerCall F → Type 0
  IsAnswered (deregister_service_call w answers name) = (ip : String) → answers ip ≡ true
  IsAnswered _ = Unit

notify_until_answered :
    (answers : String → Bool) (dps : List (String × DataPlane)) (n : Notice)
    → ((ip : String) → answers ip ≡ true)
    → (notify_until answers n dps).1 ≡ true
unfolding notify_until
notify_until_answered answers [] n h = refl
notify_until_answered answers ((ip, dp) ∷ dps) n h =
    ground (arith, h ip, notify_until_answered answers dps n h)

locked-forget :
    (es : List Endpoint) (ni ni' : Structure WorkerNode)
    → forget es ni ≡ returns ni'
    → ni'.locked ≡ ni.locked
unfolding forget remove_endpoint_from_wn_struct set get
locked-forget [] ni ni' e = ground arith
locked-forget (x ∷ es) ni ni' e = elim (Result-cases (remove_endpoint_from_wn_struct x ni)) [
  | inl (m, r) ↦ ground (arith, locked-forget es m ni', r, e)
  | inr r ↦ ground (arith, r, e)
]

module _ {F : Type 0} where
  handle_failure-IsFree :
      (fs : List Failure) (c c' : ControlPlane F)
      → handle_failure fs c ≡ returns c'
      → IsFree c
      → IsFree c'
  unfolding handle_failure get set lock unlock
  handle_failure-IsFree [] c c' e free = ground (arith, e, free)
  handle_failure-IsFree (f ∷ fs) c c' e free =
      elim (Option-cases (get f.service_name c.si_storage)) [
        | inl n ↦ handle_failure-IsFree fs c c' (ground (arith, n, e)) free
        | inr (ss, n) ↦
            let es = collect_failed f.sandbox_ids ss.service.endpoints [] in
            elim (Result-cases (forget es c.ni_storage)) [
              | inl (ni, r) ↦
                  let ss' = record ss { service = remove_endpoints f.sandbox_ids ss.service } in
                  let after : ControlPlane F = record c {
                    ni_storage = ni;
                    data_plane_connections = record c.data_plane_connections { locked = false };
                    si_storage = set f.service_name ss' c.si_storage;
                  } in
                  handle_failure-IsFree fs after c' (ground (arith, n, r, e))
                    (ground (arith, locked-forget es c.ni_storage ni r, free))
              | inr r ↦ ground (arith, n, r, e)
            ]
      ]

  -- A handler that returns has released the locks of the control plane's maps of data planes, nodes
  -- and services, on every path, as long as the data planes that it asks answer.
  pub handle-IsFree :
      (o : HandlerCall F) (c c' : ControlPlane F)
      → IsAnswered o
      → handle o c ≡ returns c'
      → IsFree c
      → IsFree c'
  unfolding handle register_node deregister_node node_heartbeat register_dataplane
      deregister_dataplane register_service deregister_service on_metrics_receive lock unlock set
      get remove_key present atomic_remove precreate notify_dataplanes_and_start_scaling_loop
      remove_service_from_dataplane atomic_get
  handle-IsFree (register_node_call w now info) c c' a e free = ground (arith, e, free)
  handle-IsFree (deregister_node_call w name) c c' a e free = ground (arith, e, free)
  handle-IsFree (node_heartbeat_call now m) c c' a e free = ground (arith, e, free)
  handle-IsFree (register_dataplane_call w an now info) c c' a e free = ground (arith, e, free)
  handle-IsFree (deregister_dataplane_call w ip) c c' a e free = ground (arith, e, free)
  handle-IsFree (register_service_call w info) c c' a e free = ground (arith, e, free)
  handle-IsFree (deregister_service_call w answers name) c c' a e free = ground (
    arith,
    notify_until_answered answers c.data_plane_connections.internal_map (delete_deployment name) a,
    e,
    free,
  )
  handle-IsFree (on_metrics_receive_call name m) c c' a e free = ground (arith, e, free)
  handle-IsFree (handle_failure_call fs) c c' a e free = handle_failure-IsFree fs c c' e free
