-- ===== src/Registry.antt =====
-- internal/control_plane/control_plane.go: the state of the control plane, its handlers' answers and
-- what they keep in the persistence layer. A handler is a function on the state; its remote calls
-- and the time are arguments.
pub mod Nodes
pub mod DataPlanes
pub mod Services
pub mod Monitoring
pub mod Synced
pub mod Reconstruction
pub mod Restart
pub mod Handlers
pub mod Locks
pub mod Sweeps
pub mod Sound
mod Tests
use dirigent.Prelude.{
  ℕ, ◌≡◌, Bool, true, false, String, List, [], ◌∷◌, Option, none, some, if◌then◌else◌,
}
use dirigent.Prelude.Int.{ℤ}
use dirigent.Prelude.Maps.{insert, remove}
use dirigent.Prelude.Names.{string_discrete}
use dirigent.Sync.{Structure, new_structure}
use dirigent.Workers.{WorkerNode, WorkerNodeConfiguration}
use dirigent.Endpoints.{Service, EndpointInfo}
use dirigent.Autoscaling.Metadata.{AutoscalingConfiguration, AutoscalingMetadata}
use dirigent.Autoscaling.Controller.{PfStateController}

pub data ActionStatus : Type 0 where
  success failure : ActionStatus
  failed_with_error : ActionStatus

-- The outcome of a write to the persistence layer: it is done; it is refused; or it is done on the
-- local instance, and then the wait for the replicas fails, which is an error to the caller too.
pub data Write : Type 0 where
  confirmed refused unconfirmed : Write

abbrev pub is_confirmed : Write → Bool
is_confirmed confirmed = true
is_confirmed refused = false
is_confirmed unconfirmed = false

abbrev pub changes : Write → Bool
changes confirmed = true
changes refused = false
changes unconfirmed = true

-- What a data plane is told about services, oldest first.
pub data Notice : Type 0 where
  add_deployment delete_deployment : String → Notice

pub record DataPlane : Type 0 where
  pub ip : String
  pub api_port : ℤ
  pub proxy_port : ℤ
  pub last_heartbeat : ℕ
  pub notices : List Notice

-- proto.DataplaneInformation
pub record DataplaneInformation : Type 0 where
  pub address : String
  pub api_port : ℤ
  pub proxy_port : ℤ

pub record ServiceInfo (F : Type 0) : Type 0 where
  pub name : String
  pub image : String
  pub autoscaling_config : AutoscalingConfiguration F
  pub requested_cpu : ℕ
  pub requested_memory : ℕ

-- ServiceInfoStorage with its controller. The actual scale is that of `service`;
-- `channel_closed` is the state of DesiredStateChannel.
pub record ServiceInfoStorage (F : Type 0) : Type 0 where
  pub info : ServiceInfo F
  pub service : Service
  pub metadata : AutoscalingMetadata F
  pub controller : PfStateController
  pub channel_closed : Bool
  pub start_time : Option ℕ

-- `workers`, `data_planes` and `services` are what the persistence layer holds.
pub record ControlPlane (F : Type 0) : Type 0 where
  pub data_plane_connections : Structure DataPlane
  pub ni_storage : Structure WorkerNode
  pub si_storage : Structure (ServiceInfoStorage F)
  pub workers : List (String × WorkerNodeConfiguration)
  pub data_planes : List (String × DataplaneInformation)
  pub services : List (String × ServiceInfo F)
  pub precreate_snapshots : Bool

module _ {V : Type 0} where
  -- A store and a delete in the persistence layer.
  unfoldable pub store : Write → String → V → List (String × V) → List (String × V)
  store w key v m = if changes w then insert string_discrete key v m else m

  unfoldable pub delete : Write → String → List (String × V) → List (String × V)
  delete w key m = if changes w then remove string_discrete key m else m

module _ {F : Type 0} where
  -- NewControlPlane, with an empty persistence layer.
  unfoldable pub new_control_plane : Bool → ControlPlane F
  new_control_plane precreate = record {
    data_plane_connections = new_structure;
    ni_storage = new_structure;
    si_storage = new_structure;
    workers = [];
    data_planes = [];
    services = [];
    precreate_snapshots = precreate;
  }

  -- No lock is held, as between two handlers of one goroutine.
  abbrev pub IsFree : ControlPlane F → Type 0
  IsFree c =
      (c.data_plane_connections.locked ≡ false)
      × (c.ni_storage.locked ≡ false)
      × (c.si_storage.locked ≡ false)
