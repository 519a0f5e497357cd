-- ===== src/Registry/Reconstruction.antt =====
-- internal/control_plane/reconstruction.go: a new leader rebuilds its state from the persistence
-- layer and from the worker nodes. The goroutines that it starts have ended. `url` is the address of
-- a host and a port, as fmt.Sprintf writes it.
use dirigent.Prelude.{ℕ, Bool, true, false, String, List, [], ◌∷◌, ◌++◌, none, some, if◌then◌else◌}
use dirigent.Prelude.Int.{pos, ◌+ℤ◌}
use dirigent.Prelude.Results.{Result, returns, ◌>>=◌}
use dirigent.Sync.{Structure, lock, unlock, set, get}
use dirigent.Workers.{WorkerNode, WorkerNodeConfiguration, new_worker_node}
use dirigent.Endpoints.{Endpoint, update_endpoint_list, prepare_endpoint_info}
use dirigent.Autoscaling.Controller.{start_swap, start_launch}
use dirigent.Registry.{ControlPlane, ServiceInfo, DataPlane, DataplaneInformation}
use dirigent.Registry.DataPlanes.{new_data_plane}
use dirigent.Registry.Services.{notify_dataplanes_and_start_scaling_loop}

-- proto.Endpoint, with the address of the endpoint that is made for it.
pub record ListedEndpoint : Type 0 where
  pub addr : ℕ
  pub sandbox_id : String
  pub node_name : String
  pub service_name : String
  pub host_port : ℕ

-- Which requests to the persistence layer succeed.
pub record Fetches : Type 0 where
  pub data_planes : Bool
  pub workers : Bool
  pub services : Bool
  pub leader : Bool

unfoldable pub reconnect_data_planes :
    ℕ → List (String × DataplaneInformation) → Structure DataPlane → Structure DataPlane
unfolding set new_data_plane
reconnect_data_planes now [] dps = dps
reconnect_data_planes now ((key, info) ∷ rest) dps =
    reconnect_data_planes now rest (set info.address (new_data_plane now info) dps)

-- The workers that can be connected to.
unfoldable pub reconnect_workers :
    ℕ
    → (String → Bool)
    → List (String × WorkerNodeConfiguration)
    → Structure WorkerNode
    → Structure WorkerNode
unfolding set new_worker_node
reconnect_workers now connects [] ni = ni
reconnect_workers now connects ((key, info) ∷ rest) ni =
    reconnect_workers now connects rest
      (if connects info.name then set info.name (new_worker_node now info) ni else ni)

module _ {F : Type 0} where
  unfoldable pub reconstruct_dataplane_state : ℕ → ControlPlane F → ControlPlane F
  unfolding reconnect_data_planes
  reconstruct_dataplane_state now c = record c {
    data_plane_connections = reconnect_data_planes now c.data_planes c.data_plane_connections;
  }

  unfoldable pub reconstruct_workers_state : ℕ → (String → Bool) → ControlPlane F → ControlPlane F
  unfolding reconnect_workers
  reconstruct_workers_state now connects c = record c {
    ni_storage = reconnect_workers now connects c.workers c.ni_storage;
  }

  unfoldable pub restore_services :
      ℕ → List (String × ServiceInfo F) → ControlPlane F → Result (ControlPlane F)
  unfolding lock unlock notify_dataplanes_and_start_scaling_loop
  restore_services now [] c = returns c
  restore_services now ((key, info) ∷ rest) c = do
    si ← lock c.si_storage
    c' ← notify_dataplanes_and_start_scaling_loop (some now) info (record c { si_storage = si })
    restore_services now rest (record c' { si_storage = unlock c'.si_storage })

  unfoldable pub reconstruct_service_state : ℕ → ControlPlane F → Result (ControlPlane F)
  unfolding restore_services
  reconstruct_service_state now c = restore_services now c.services c

  -- The goroutine of reconstructEndpointsState for one endpoint.
  unfoldable pub restore_endpoint :
      (String → ℕ → String) → ℕ → ListedEndpoint → ControlPlane F → ControlPlane F
  unfolding get set
  restore_endpoint url now l c = elim (get l.node_name c.ni_storage) [
    | none ↦ c
    | some node ↦ elim (get l.service_name c.si_storage) [
      | none ↦ c
      | some ss ↦
          let e : Endpoint = record {
            addr = l.addr;
            sandbox_id = l.sandbox_id;
            url = url node.ip l.host_port;
            node = some node.name;
            host_port = l.host_port;
          } in
          let endpoints = ss.service.endpoints ++ e ∷ [] in
          let (swapped, won) = start_swap ss.controller in
          record c {
            ni_storage =
                set l.node_name
                  (record node { endpoint_map = node.endpoint_map ++ (e, ss.info.name) ∷ [] })
                  c.ni_storage;
            si_storage =
                set l.service_name
                  (record ss {
                    service = record {
                      actual_scale = ss.service.actual_scale +ℤ pos 1;
                      endpoints = endpoints;
                      sent =
                          ss.service.sent
                          ++ update_endpoint_list (prepare_endpoint_info endpoints) ∷ [];
                    };
                    metadata = record ss.metadata { in_panic_mode = true; start_panicking = now };
                    controller = if won then start_launch swapped else swapped;
                  })
                  c.si_storage;
          }
    ]
  ]

  unfoldable pub reconstruct_endpoints_state :
      (String → ℕ → String) → ℕ → List ListedEndpoint → ControlPlane F → ControlPlane F
  unfolding restore_endpoint
  reconstruct_endpoints_state url now [] c = c
  reconstruct_endpoints_state url now (l ∷ ls) c =
      reconstruct_endpoints_state url now ls (restore_endpoint url now l c)

  -- ReconstructState, less the calls of HAProxy; the result says whether it succeeded.
  unfoldable pub reconstruct_state :
      Bool
      → Fetches
      → (String → Bool)
      → (String → ℕ → String)
      → ℕ
      → List ListedEndpoint
      → ControlPlane F
      → Result (ControlPlane F × Bool)
  reconstruct_state reconstruct fetched connects url now listed c =
      if reconstruct
      then (if fetched.data_planes
          then (let planes = reconstruct_dataplane_state now c in
              if fetched.workers
              then (let workers = reconstruct_workers_state now connects planes in
                  if fetched.services
                  then (do
                    services ← reconstruct_service_state now workers
                    returns (reconstruct_endpoints_state url now listed services, fetched.leader))
                  else returns (workers, false))
              else returns (planes, false))
          else returns (c, false))
      else returns (c, true)
