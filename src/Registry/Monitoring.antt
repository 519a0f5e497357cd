-- ===== src/Registry/Monitoring.antt =====
-- Fault detection at the control plane (internal/control_plane/control_plane.go, failure.go).
use dirigent.Prelude.{
  ℕ, ◌+◌, Bool, true, false, String, List, [], ◌∷◌, ◌++◌, none, some, if◌then◌else◌, ltb, not_b,
}
use dirigent.Prelude.Results.{Result, returns, waits, panics, ◌>>=◌}
use dirigent.Sync.{Structure, lock, unlock, set, get, atomic_get}
use dirigent.Workers.{WorkerNode, set_schedulability, sandbox_ids, remove_endpoint}
use dirigent.Endpoints.{Endpoint, collect_failed, remove_endpoints}
use dirigent.Autoscaling.Controller.{stop_load, stop_send}
use dirigent.Registry.{ControlPlane, ServiceInfoStorage, confirmed, DataPlane}
use dirigent.Registry.DataPlanes.{deregister_dataplane}

-- proto.Failure for a worker node, and for a sandbox: both are handled in the same way.
pub record Failure : Type 0 where
  pub service_name : String
  pub sandbox_ids : List String

-- TolerateHeartbeatMisses * HeartbeatInterval
abbrev pub tolerated : ℕ
tolerated = 15_000_000_000

abbrev pub is_stale : ℕ → ℕ → Bool
is_stale now last = ltb (last + tolerated) now

abbrev pub is_nonempty_ids : List String → Bool
is_nonempty_ids [] = false
is_nonempty_ids (x ∷ xs) = true

-- removeEndpointFromWNStruct, which reads the node's entry without a check.
unfoldable pub remove_endpoint_from_wn_struct :
    Endpoint → Structure WorkerNode → Result (Structure WorkerNode)
unfolding get set
remove_endpoint_from_wn_struct e ni = elim e.node [
  | none ↦ returns ni
  | some name ↦ elim (get name ni) [
    | none ↦ panics
    | some wn ↦
        returns (set name (record wn { endpoint_map = remove_endpoint e wn.endpoint_map }) ni)
  ]
]

unfoldable pub forget : List Endpoint → Structure WorkerNode → Result (Structure WorkerNode)
unfolding remove_endpoint_from_wn_struct
forget [] ni = returns ni
forget (e ∷ es) ni = do ni' ← remove_endpoint_from_wn_struct e ni; forget es ni'

module _ {F : Type 0} where
  unfoldable pub get_services_on_worker_node : WorkerNode → ControlPlane F → Result (List String)
  unfolding atomic_get
  get_services_on_worker_node wn c = do
    node ← atomic_get wn.name c.ni_storage
    elim node [ none ↦ returns [] | some n ↦ returns (sandbox_ids n.endpoint_map) ]

  -- The loop of createWorkerNodeFailureEvents over the services.
  unfoldable pub failures_of :
      WorkerNode → ControlPlane F → List (String × ServiceInfoStorage F) → Result (List Failure)
  unfolding get_services_on_worker_node
  failures_of wn c [] = returns []
  failures_of wn c ((key, ss) ∷ rest) = do
    ids ← get_services_on_worker_node wn c
    more ← failures_of wn c rest
    returns (
        if is_nonempty_ids ids
        then record { service_name = ss.info.name; sandbox_ids = ids } ∷ more
        else more)

  unfoldable pub create_worker_node_failure_events :
      WorkerNode → ControlPlane F → Result (List Failure)
  unfolding lock failures_of
  create_worker_node_failure_events wn c = do
    si ← lock c.si_storage
    failures_of wn c si.internal_map

  -- The loop of CheckPeriodicallyWorkerNodes over the nodes, whose map is locked in `c`.
  unfoldable pub sweep :
      ℕ
      → ControlPlane F
      → List (String × WorkerNode)
      → Result (List (String × WorkerNode) × List Failure)
  unfolding create_worker_node_failure_events set_schedulability
  sweep now c [] = returns ([], [])
  sweep now c ((key, wn) ∷ rest) = do
    let stale = is_stale now wn.last_heartbeat
    events ← if stale then create_worker_node_failure_events wn c else returns []
    (rest', more) ← sweep now c rest
    returns ((key, set_schedulability (not_b stale) wn) ∷ rest', events ++ more)

  -- HandleFailure; the endpoints that a report names leave their service and their nodes, and the data
  -- planes, whose lock is taken, are sent the list that is left.
  unfoldable pub handle_failure : List Failure → ControlPlane F → Result (ControlPlane F)
  unfolding get set forget lock unlock
  handle_failure [] c = returns c
  handle_failure (f ∷ fs) c = elim (get f.service_name c.si_storage) [
    | none ↦ handle_failure fs c
    | some ss ↦ do
      ni ← forget (collect_failed f.sandbox_ids ss.service.endpoints []) c.ni_storage
      dps ← lock c.data_plane_connections
      let ss' = record ss { service = remove_endpoints f.sandbox_ids ss.service }
      handle_failure fs (record c {
        ni_storage = ni;
        data_plane_connections = unlock dps;
        si_storage = set f.service_name ss' c.si_storage;
      })
  ]

  -- A round of CheckPeriodicallyWorkerNodes.
  unfoldable pub check_worker_nodes : ℕ → ControlPlane F → Result (ControlPlane F)
  unfolding lock unlock sweep handle_failure
  check_worker_nodes now c = do
    ni ← lock c.ni_storage
    (nodes, events) ← sweep now (record c { ni_storage = ni }) ni.internal_map
    handle_failure events (record c { ni_storage = unlock (record ni { internal_map = nodes }) })

  -- The loop of CheckPeriodicallyDataplanes, which deregisters with an empty address.
  unfoldable pub sweep_dataplanes :
      ℕ → List (String × DataPlane) → ControlPlane F → Result (ControlPlane F)
  unfolding deregister_dataplane
  sweep_dataplanes now [] c = returns c
  sweep_dataplanes now ((key, dp) ∷ rest) c =
      if is_stale now dp.last_heartbeat
      then (do (c', status) ← deregister_dataplane confirmed "" c; sweep_dataplanes now rest c')
      else sweep_dataplanes now rest c

  unfoldable pub check_dataplanes : ℕ → ControlPlane F → Result (ControlPlane F)
  unfolding lock unlock sweep_dataplanes
  check_dataplanes now c = do
    dps ← lock c.data_plane_connections
    c' ← sweep_dataplanes now dps.internal_map (record c { data_plane_connections = dps })
    returns (record c' { data_plane_connections = unlock c'.data_plane_connections })

  -- StopAllScalingLoops: a Stop waits while its channel is nil or full.
  unfoldable pub stop_all :
      List (String × ServiceInfoStorage F) → Result (List (String × ServiceInfoStorage F))
  stop_all [] = returns []
  stop_all ((key, ss) ∷ rest) = do
    controller ←
        if ss.controller.autoscaling_running
        then elim (stop_send (stop_load ss.controller)) [
          | none ↦ waits
          | some stopped ↦ returns stopped
        ]
        else returns ss.controller
    rest' ← stop_all rest
    returns ((key, record ss { controller = controller }) ∷ rest')

  unfoldable pub stop_all_scaling_loops : ControlPlane F → Result (ControlPlane F)
  unfolding lock unlock stop_all
  stop_all_scaling_loops c = do
    si ← lock c.si_storage
    services ← stop_all si.internal_map
    returns (record c { si_storage = unlock (record si { internal_map = services }) })
