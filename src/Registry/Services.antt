-- ===== src/Registry/Services.antt =====
-- Services at the control plane (internal/control_plane/control_plane.go, helpers.go).
use dirigent.Prelude.{
  ℕ, Bool, true, false, String, List, [], ◌∷◌, ◌++◌, Option, none, some, if◌then◌else◌,
}
use dirigent.Prelude.Int.{pos}
use dirigent.Prelude.Results.{Result, returns, ◌>>=◌}
use dirigent.Sync.{lock, unlock, set, remove_key, present, atomic_remove, atomic_get, get_keys}
use dirigent.Autoscaling.Metadata.{AutoscalingMetric, set_cached_scaling_metric}
use dirigent.Autoscaling.Controller.{new_controller, start_swap, start_launch}
use dirigent.Registry.{
  ControlPlane, ServiceInfoStorage, ServiceInfo, ActionStatus, success, failure, failed_with_error,
  Write, is_confirmed, store, delete, DataPlane, Notice, add_deployment, delete_deployment,
}

-- The loop of notifyDataplanesAndStartScalingLoop: a failed AddDeployment is only logged.
unfoldable pub notify_all : Notice → List (String × DataPlane) → List (String × DataPlane)
notify_all n [] = []
notify_all n ((ip, dp) ∷ rest) =
    (ip, record dp { notices = dp.notices ++ n ∷ [] }) ∷ notify_all n rest

-- The loop of removeServiceFromDataplane, up to the first data plane that answers with an error.
unfoldable pub notify_until :
    (String → Bool) → Notice → List (String × DataPlane) → List (String × DataPlane) × Bool
notify_until answers n [] = ([], true)
notify_until answers n ((ip, dp) ∷ rest) =
    let told = record dp { notices = dp.notices ++ n ∷ [] } in
    let (rest', done) = notify_until answers n rest in
    if answers ip then ((ip, told) ∷ rest', done) else ((ip, told) ∷ rest, false)

module _ {F : Type 0} where
  -- NewPerFunctionStateController and the fields around it; the metadata starts empty.
  unfoldable pub new_service : Option ℕ → ServiceInfo F → ServiceInfoStorage F
  new_service started info = record {
    info = info;
    service = record { actual_scale = pos 0; endpoints = []; sent = [] };
    metadata = record {
      actual_scale = pos 0;
      config = info.autoscaling_config;
      in_panic_mode = false;
      start_panicking = 0;
      max_panic_pods = pos 0;
      inflight_requests = [];
      cached_scaling_metric = pos 0;
      scaling_metrics = [];
      window_head = 0;
    };
    controller = new_controller;
    channel_closed = false;
    start_time = started;
  }

  -- notifyDataplanesAndStartScalingLoop; its error is always nil. SIStorage is locked by the caller.
  unfoldable pub notify_dataplanes_and_start_scaling_loop :
      Option ℕ → ServiceInfo F → ControlPlane F → Result (ControlPlane F)
  unfolding lock unlock set notify_all new_service
  notify_dataplanes_and_start_scaling_loop started info c = do
    dps ← lock c.data_plane_connections
    returns (record c {
      data_plane_connections =
          unlock
            (record dps { internal_map = notify_all (add_deployment info.name) dps.internal_map });
      si_storage = set info.name (new_service started info) c.si_storage;
    })

  -- precreateSnapshots, which takes the lock of SIStorage; its sandboxes are gone when it ends.
  unfoldable pub precreate : ControlPlane F → Result (ControlPlane F)
  unfolding lock unlock
  precreate c = do si ← lock c.si_storage; returns (record c { si_storage = unlock si })

  -- RegisterService
  unfoldable pub register_service :
      Write → ServiceInfo F → ControlPlane F → Result (ControlPlane F × ActionStatus)
  unfolding lock unlock present store atomic_remove precreate
      notify_dataplanes_and_start_scaling_loop
  register_service w info c = do
    si ← lock c.si_storage
    let stored = record c { si_storage = si; services = store w info.name info c.services }
    if present info.name si
        then returns (record c { si_storage = unlock si }, failed_with_error)
        else if is_confirmed w
        then (do
          c' ← notify_dataplanes_and_start_scaling_loop none info stored
          c'' ← if c.precreate_snapshots then precreate c' else returns c'
          returns (record c'' { si_storage = unlock c''.si_storage }, success))
        else (do
          si' ← atomic_remove info.name si
          returns (record stored { si_storage = unlock si' }, failed_with_error))

  -- removeServiceFromDataplane: after an error the lock of DataPlaneConnections stays held.
  unfoldable pub remove_service_from_dataplane :
      (String → Bool) → String → ControlPlane F → Result (ControlPlane F × Bool)
  unfolding lock unlock notify_until
  remove_service_from_dataplane answers name c = do
    dps ← lock c.data_plane_connections
    let (told, done) = notify_until answers (delete_deployment name) dps.internal_map
    let dps' = record dps { internal_map = told }
    if done
        then returns (record c { data_plane_connections = unlock dps' }, true)
        else returns (record c { data_plane_connections = dps' }, false)

  -- DeregisterService; closing the channel ends the service's scaling loop.
  unfoldable pub deregister_service :
      Write → (String → Bool) → String → ControlPlane F → Result (ControlPlane F × ActionStatus)
  unfolding lock unlock present delete remove_key remove_service_from_dataplane
  deregister_service w answers name c = do
    si ← lock c.si_storage
    let deleted = record c { services = delete w name c.services }
    if present name si
        then (if is_confirmed w
            then (do
              (c', done) ← remove_service_from_dataplane answers name deleted
              if done
                  then returns (record c' { si_storage = unlock (remove_key name si) }, success)
                  else returns (record c' { si_storage = unlock si }, failed_with_error))
            else returns (record deleted { si_storage = unlock si }, failed_with_error))
        else returns (record c { si_storage = unlock si }, failed_with_error)

  -- ListServices
  unfoldable pub list_services : ControlPlane F → Result (List String)
  unfolding lock get_keys
  list_services c = do si ← lock c.si_storage; returns (get_keys si)

  -- OnMetricsReceive, with the start of the service's controller as a whole.
  unfoldable pub on_metrics_receive :
      String → AutoscalingMetric → ControlPlane F → Result (ControlPlane F × ActionStatus)
  unfolding atomic_get set
  on_metrics_receive name metric c = do
    storage ← atomic_get name c.si_storage
    elim storage [
      | none ↦ returns (c, failure)
      | some ss ↦
          let (swapped, won) = start_swap ss.controller in
          let ss' = record ss {
            metadata = set_cached_scaling_metric metric ss.metadata;
            controller = if won then start_launch swapped else swapped;
          } in
          returns (record c { si_storage = set name ss' c.si_storage }, success)
    ]
