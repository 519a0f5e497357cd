-- ===== src/Workers.antt =====
-- internal/control_plane/workers/worker_node.go: what the control plane knows of a worker node. Its
-- RPCs are in `Registry`, as the answers that they give. A port is a number; the code keeps its
-- decimal. Times are nanoseconds.
use dirigent.Prelude.{ℕ, ◌==◌, Bool, false, String, List, [], ◌∷◌, if◌then◌else◌}
use dirigent.Prelude.Int.{ℤ}
use dirigent.Endpoints.{Endpoint}

pub record WorkerNodeConfiguration : Type 0 where
  pub name : String
  pub ip : String
  pub port : ℤ
  pub cpu_cores : ℕ
  pub memory : ℕ

-- `endpoint_map` holds the endpoints on the node with the names of their services.
pub record WorkerNode : Type 0 where
  pub name : String
  pub ip : String
  pub port : ℤ
  pub cpu_usage : ℕ
  pub memory_usage : ℕ
  pub cpu_cores : ℕ
  pub memory : ℕ
  pub last_heartbeat : ℕ
  pub endpoint_map : List (Endpoint × String)
  pub schedulable : Bool

unfoldable pub new_worker_node : ℕ → WorkerNodeConfiguration → WorkerNode
new_worker_node now c = record {
  name = c.name;
  ip = c.ip;
  port = c.port;
  cpu_usage = 0;
  memory_usage = 0;
  cpu_cores = c.cpu_cores;
  memory = c.memory;
  last_heartbeat = now;
  endpoint_map = [];
  schedulable = false;
}

unfoldable pub get_worker_node_configuration : WorkerNode → WorkerNodeConfiguration
get_worker_node_configuration w = record {
  name = w.name;
  ip = w.ip;
  port = w.port;
  cpu_cores = w.cpu_cores;
  memory = w.memory;
}

unfoldable pub set_schedulability : Bool → WorkerNode → WorkerNode
set_schedulability val w = record w { schedulable = val }

unfoldable pub update_last_heartbeat : ℕ → WorkerNode → WorkerNode
update_last_heartbeat now w = record w { last_heartbeat = now }

unfoldable pub set_cpu_usage : ℕ → WorkerNode → WorkerNode
set_cpu_usage usage w = record w { cpu_usage = usage }

unfoldable pub set_memory_usage : ℕ → WorkerNode → WorkerNode
set_memory_usage usage w = record w { memory_usage = usage }

-- GetEndpointMap().Remove(e): the entry of the endpoint's pointer goes.
unfoldable pub remove_endpoint : Endpoint → List (Endpoint × String) → List (Endpoint × String)
remove_endpoint e [] = []
remove_endpoint e ((f, service) ∷ fs) =
    if f.addr == e.addr then remove_endpoint e fs else (f, service) ∷ remove_endpoint e fs

-- The IDs of the sandboxes on the node.
unfoldable pub sandbox_ids : List (Endpoint × String) → List String
sandbox_ids [] = []
sandbox_ids ((e, service) ∷ es) = e.sandbox_id ∷ sandbox_ids es
