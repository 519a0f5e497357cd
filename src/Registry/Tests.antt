-- ===== src/Registry/Tests.antt =====
-- A control plane with a worker node and a service of two endpoints on it.
use dirigent.Prelude.{ℕ, ◌≡◌, refl, Bool, true, false, String, [], ◌∷◌, none, some, arith}
use dirigent.Prelude.Int.{pos}
use dirigent.Prelude.Maps.{lookup, insert}
use dirigent.Prelude.Names.{string_discrete}
use dirigent.Prelude.Results.{Result, returns, waits}
use dirigent.Sync.{new_structure, set, get, present, lock, unlock}
use dirigent.Workers.{
  WorkerNodeConfiguration, new_worker_node, set_schedulability, get_worker_node_configuration,
}
use dirigent.Endpoints.{has, add_to, collect_failed, search_endpoint_by_container_name}
use dirigent.Autoscaling.Metadata.{AutoscalingConfiguration}
use dirigent.Registry.{
  ControlPlane, ServiceInfo, ServiceInfoStorage, DataplaneInformation, ActionStatus, success,
  confirmed, unconfirmed, new_control_plane, IsFree, store, delete,
}
use dirigent.Registry.Nodes.{register_node}
use dirigent.Registry.DataPlanes.{register_dataplane, new_data_plane, Answers}
use dirigent.Registry.Services.{
  deregister_service, new_service, remove_service_from_dataplane, notify_until,
}
use dirigent.Registry.Monitoring.{
  Failure, handle_failure, forget, remove_endpoint_from_wn_struct, check_worker_nodes,
}
use dirigent.Registry.Handlers.{HandlerCall, handle, handle_failure_call, handle-IsFree}
use dirigent.Registry.Synced.{IsSynced, NodeCall, joins, call, known, call-IsSynced}
use dirigent.Registry.Reconstruction.{reconstruct_workers_state}
use dirigent.Registry.Restart.{known-reconstruct_workers_state}
use dirigent.Registry.Locks.{
  is_waiting, register_node_waiting, register_dataplane-deregister_service,
}
use dirigent.Registry.Sweeps.{check_worker_nodes_waiting}
use dirigent.Registry.Sound.{AreSound, handle-AreSound}

abbrev worker : WorkerNodeConfiguration
worker = record { name = "w1"; ip = "10.0.0.1"; port = pos 9000; cpu_cores = 8; memory = 64 }

abbrev config : AutoscalingConfiguration ℕ
config = record {
  scaling_upper_bound = pos 10;
  scaling_lower_bound = pos 0;
  panic_threshold_percentage = 200;
  max_scale_up_rate = 1000;
  max_scale_down_rate = 2;
  container_concurrency = pos 1;
  container_concurrency_target_percentage = pos 70;
  stable_window_width_seconds = pos 60;
  panic_window_width_seconds = pos 6;
  scaling_period_seconds = pos 2;
  scaling_method = pos 0;
}

abbrev function : ServiceInfo ℕ
function = record {
  name = "f";
  image = "f:1";
  autoscaling_config = config;
  requested_cpu = 1;
  requested_memory = 2;
}

abbrev plane : DataplaneInformation
plane = record { address = "10.0.1.1"; api_port = pos 8081; proxy_port = pos 8080 }

abbrev scaled : ServiceInfoStorage ℕ
scaled = record (new_service none function) {
  service = record {
    actual_scale = pos 2;
    endpoints =
        record { addr = 1; sandbox_id = "a"; url = "10.0.0.1:1"; node = some "w1"; host_port = 1 }
        ∷ record { addr = 2; sandbox_id = "b"; url = "10.0.0.1:2"; node = some "w1"; host_port = 2 }
        ∷ [];
    sent = [];
  };
}

abbrev empty : ControlPlane ℕ
empty = new_control_plane false

abbrev running : ControlPlane ℕ
running = record empty {
  data_plane_connections = record {
    internal_map = ("10.0.1.1", new_data_plane 5 plane) ∷ [];
    locked = false;
  };
  ni_storage = record {
    internal_map = ("w1", set_schedulability true (new_worker_node 5 worker)) ∷ [];
    locked = false;
  };
  si_storage = record { internal_map = ("f", scaled) ∷ []; locked = false };
  workers = ("w1", worker) ∷ [];
}

-- 16 seconds later.
abbrev late : ℕ
late = 16_000_000_000

abbrev sandbox_gone : Failure
sandbox_gone = record { service_name = "f"; sandbox_ids = "b" ∷ "b" ∷ "c" ∷ [] }

running-IsFree : IsFree running
unfolding new_control_plane new_structure
running-IsFree = (refl, refl, refl)

empty-IsFree : IsFree empty
unfolding new_control_plane new_structure
empty-IsFree = (refl, refl, refl)

register_node_waiting_example : is_waiting (register_node unconfirmed 7 worker empty) ≡ true
unfolding present get lookup new_control_plane new_structure
register_node_waiting_example = register_node_waiting unconfirmed 7 worker empty empty-IsFree

check_worker_nodes_waiting_example : is_waiting (check_worker_nodes late running) ≡ true
unfolding new_worker_node set_schedulability
check_worker_nodes_waiting_example = check_worker_nodes_waiting late running running-IsFree

-- The data plane answers the removal of the service with an error.
abbrev unanswered : String → Bool
unanswered ip = false

abbrev all_ready : Answers
all_ready = record { initialized = true; added = λ name. true }

after : Result (ControlPlane ℕ × ActionStatus) → ControlPlane ℕ
after (returns r) = r.0
after _ = empty

register_dataplane-deregister_service_example :
    (let c = after (deregister_service confirmed unanswered "f" running) in
      register_dataplane confirmed all_ready 9 plane c ≡ waits)
unfolding after deregister_service remove_service_from_dataplane notify_until lock unlock present
    get lookup delete new_control_plane new_structure string_discrete
register_dataplane-deregister_service_example =
    register_dataplane-deregister_service confirmed confirmed unanswered "f" running
      (after (deregister_service confirmed unanswered "f" running)) all_ready 9 plane running-IsFree
      refl refl refl

running-AreSound : AreSound running.si_storage.internal_map
unfolding has
running-AreSound = (((refl, (refl, tt)), refl), tt)

rest : Result (ControlPlane ℕ) → ControlPlane ℕ
rest (returns c) = c
rest _ = empty

abbrev failing : HandlerCall ℕ
failing = handle_failure_call (sandbox_gone ∷ [])

-- A report of an endpoint twice, and of an unknown one.
handle-failing : handle failing running ≡ returns (rest (handle failing running))
unfolding rest handle handle_failure forget remove_endpoint_from_wn_struct get set lookup insert
    string_discrete collect_failed search_endpoint_by_container_name add_to has
handle-failing = refl

handle-AreSound_example : AreSound (rest (handle failing running)).si_storage.internal_map
handle-AreSound_example =
    handle-AreSound failing running (rest (handle failing running)) running-AreSound handle-failing

handle-IsFree_example : IsFree (rest (handle failing running))
handle-IsFree_example =
    handle-IsFree failing running (rest (handle failing running)) tt handle-failing running-IsFree

empty-IsSynced : IsSynced empty
unfolding lookup new_control_plane new_structure
empty-IsSynced = record {
  agrees = λ name. refl;
  is_map = tt;
  named = λ name info h. ground (arith, h);
}

abbrev join : NodeCall
join = joins confirmed 5 worker

joined : ControlPlane ℕ
joined = after (call join empty)

call-join : call join empty ≡ returns (joined, success)
unfolding joined after call register_node lock unlock present get lookup set store new_control_plane
    new_structure
call-join = refl

call-IsSynced_example : IsSynced joined
call-IsSynced_example =
    call-IsSynced join empty joined success (λ h. ground (arith, h)) call-join empty-IsSynced

known-reconstruct_workers_state_example :
    known "w1"
      (reconstruct_workers_state 90 (λ key. true) (record joined { ni_storage = new_structure }))
    ≡ some worker
unfolding joined after call register_node lock unlock present get lookup set store insert
    new_control_plane new_structure new_worker_node set_schedulability get_worker_node_configuration
    string_discrete
known-reconstruct_workers_state_example =
    known-reconstruct_workers_state 90 (λ key. true) joined "w1" call-IsSynced_example (λ key. refl)
