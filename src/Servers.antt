-- ===== src/Servers.antt =====
-- api/control_plane_api_server.go, with GetLeader of internal/control_plane/leader_election/server.go
-- and the dissemination of internal/data_plane/haproxy/manager.go: the replicas of the control plane,
-- of which each passes a call on to the one that it takes for the leader.
pub mod Forwarding
pub mod Cycles
pub mod Followers
mod Tests
use dirigent.Prelude.{
  ℕ, zero, suc, Bool, true, false, String, List, [], ◌∷◌, ◌++◌, Option, none, some, not_b,
  if◌then◌else◌,
}
use dirigent.Prelude.Int.{ℤ, ◌==ℤ◌}
use dirigent.Prelude.Results.{Result, returns, waits, ◌>>=◌}
use dirigent.Sync.{lock, unlock}
use dirigent.Autoscaling.Metadata.{AutoscalingMetric}
use dirigent.Workers.{WorkerNodeConfiguration}
use dirigent.Election.{ConsensusModule, is_leader}
use dirigent.Registry.{
  ControlPlane, ServiceInfo, ActionStatus, success, failure, failed_with_error, Write, DataPlane,
  DataplaneInformation,
}
use dirigent.Registry.Nodes.{register_node, deregister_node, node_heartbeat, NodeHeartbeatMessage}
use dirigent.Registry.DataPlanes.{register_dataplane, deregister_dataplane, Answers}
use dirigent.Registry.Services.{register_service, deregister_service, on_metrics_receive}
use dirigent.Registry.Monitoring.{Failure, handle_failure}

-- The calls that are passed on, with the answers that their handlers get.
pub data ApiCall (F : Type 0) : Type 0 where
  on_metrics_receive_api : String → AutoscalingMetric → ApiCall F
  register_node_api : Write → ℕ → WorkerNodeConfiguration → ApiCall F
  deregister_node_api : Write → String → ApiCall F
  node_heartbeat_api : ℕ → NodeHeartbeatMessage → ApiCall F
  register_service_api : Write → ServiceInfo F → ApiCall F
  deregister_service_api : Write → (String → Bool) → String → ApiCall F
  register_dataplane_api : Write → Answers → ℕ → DataplaneInformation → ApiCall F
  deregister_dataplane_api : Write → String → ℤ → ApiCall F
  report_failure_api : Failure → ApiCall F

-- proto.HAProxyConfig; the addresses of data planes are pairs.
pub record HaProxyConfig : Type 0 where
  pub dataplanes : List (String × ℤ)
  pub registration_servers : List String

-- What a replica does to its HAProxy.
pub data LoadBalancerCall : Type 0 where
  add_dataplane remove_dataplane : String → ℤ → LoadBalancerCall
  revise_configuration : HaProxyConfig → LoadBalancerCall

-- CpApiServer; `peers` are the ids of the connections of its LeaderElectionServer, and
-- `load_balancer` what was done to HAProxy, oldest first.
pub record CpApiServer (F : Type 0) : Type 0 where
  pub election : ConsensusModule
  pub peers : List ℤ
  pub control_plane : ControlPlane F
  pub registration_servers : List String
  pub load_balancer : List LoadBalancerCall

unfoldable pub is_peer : ℤ → List ℤ → Bool
is_peer id [] = false
is_peer id (p ∷ ps) = if p ==ℤ id then true else is_peer id ps

unfoldable pub addresses_of : List (String × DataPlane) → List (String × ℤ)
addresses_of [] = []
addresses_of ((key, dp) ∷ dps) = (dp.ip, dp.proxy_port) ∷ addresses_of dps

module _ {F : Type 0} where
  -- GetLeader, of a server that does not lead.
  unfoldable pub get_leader : CpApiServer F → Option ℤ
  unfolding is_peer
  get_leader s =
      let id = s.election.current_leader_id in if is_peer id s.peers then some id else none

  unfoldable pub get_haproxy_config : CpApiServer F → Result (HaProxyConfig × CpApiServer F)
  unfolding lock unlock addresses_of
  get_haproxy_config s = do
    dps ← lock s.control_plane.data_plane_connections
    let config : HaProxyConfig = record {
      dataplanes = addresses_of dps.internal_map;
      registration_servers = s.registration_servers;
    }
    let c : ControlPlane F = record s.control_plane { data_plane_connections = unlock dps }
    returns (config, record s { control_plane = c })

  -- The answer of a handler of the control plane.
  unfoldable pub answered :
      CpApiServer F
      → Result (ControlPlane F × ActionStatus)
      → Result ((CpApiServer F × ActionStatus) × Option HaProxyConfig)
  answered s r = do (c, status) ← r; returns ((record s { control_plane = c }, status), none)

  -- The change to HAProxy, and then the new configuration for the peers.
  unfoldable pub change_load_balancer :
      LoadBalancerCall → CpApiServer F → Result (CpApiServer F × Option HaProxyConfig)
  unfolding get_haproxy_config
  change_load_balancer call s = do
    (config, s') ← get_haproxy_config (record s { load_balancer = s.load_balancer ++ call ∷ [] })
    returns (s', some config)

  -- The end of RegisterDataplane and of DeregisterDataplane: a new data plane is a server of HAProxy,
  -- and one that has left is none.
  unfoldable pub finish_registration :
      DataplaneInformation
      → CpApiServer F
      → ControlPlane F × ActionStatus × Bool
      → Result ((CpApiServer F × ActionStatus) × Option HaProxyConfig)
  unfolding change_load_balancer
  finish_registration info s (c, success, false) = do
    (s', config) ←
        change_load_balancer (add_dataplane info.address info.proxy_port)
          (record s { control_plane = c })
    returns ((s', success), config)
  finish_registration info s (c, status, beat) =
      returns ((record s { control_plane = c }, status), none)

  unfoldable pub finish_deregistration :
      String
      → ℤ
      → CpApiServer F
      → ControlPlane F × ActionStatus
      → Result ((CpApiServer F × ActionStatus) × Option HaProxyConfig)
  unfolding change_load_balancer
  finish_deregistration ip port s (c, success) = do
    (s', config) ← change_load_balancer (remove_dataplane ip port) (record s { control_plane = c })
    returns ((s', success), config)
  finish_deregistration ip port s (c, status) =
      returns ((record s { control_plane = c }, status), none)

  -- A call at the leader: the state, the answer, and a configuration to disseminate.
  unfoldable pub serve :
      ApiCall F → CpApiServer F → Result ((CpApiServer F × ActionStatus) × Option HaProxyConfig)
  unfolding answered finish_registration finish_deregistration
  serve (on_metrics_receive_api name m) s = answered s (on_metrics_receive name m s.control_plane)
  serve (register_node_api w now info) s = answered s (register_node w now info s.control_plane)
  serve (deregister_node_api w name) s = answered s (deregister_node w name s.control_plane)
  serve (node_heartbeat_api now m) s = answered s (returns (node_heartbeat now m s.control_plane))
  serve (register_service_api w info) s = answered s (register_service w info s.control_plane)
  serve (deregister_service_api w answers name) s =
      answered s (deregister_service w answers name s.control_plane)
  serve (register_dataplane_api w a now info) s =
      register_dataplane w a now info s.control_plane >>= finish_registration info s
  serve (deregister_dataplane_api w ip port) s =
      deregister_dataplane w ip s.control_plane >>= finish_deregistration ip port s
  serve (report_failure_api f) s = do
    c ← handle_failure (f ∷ []) s.control_plane
    returns ((record s { control_plane = c }, success), none)

  unfoldable pub find_server : ℤ → List (CpApiServer F) → Option (CpApiServer F)
  find_server id [] = none
  find_server id (s ∷ ss) = if s.election.id ==ℤ id then some s else find_server id ss

  -- The servers with one of them replaced, by its id.
  unfoldable pub put_server : ℤ → CpApiServer F → List (CpApiServer F) → List (CpApiServer F)
  put_server id s' [] = []
  put_server id s' (s ∷ ss) = if s.election.id ==ℤ id then s' ∷ ss else s ∷ put_server id s' ss

  -- DisseminateHAProxyConfig, to the peers that can be reached; they revise their own HAProxy.
  unfoldable pub disseminate_haproxy_config :
      (ℤ → Bool) → List ℤ → HaProxyConfig → List (CpApiServer F) → List (CpApiServer F)
  unfolding is_peer
  disseminate_haproxy_config reaches peers config [] = []
  disseminate_haproxy_config reaches peers config (s ∷ ss) =
      let revised : CpApiServer F = record s {
        load_balancer = s.load_balancer ++ revise_configuration config ∷ [];
      } in
      let rest = disseminate_haproxy_config reaches peers config ss in
      if is_peer s.election.id peers
      then (if reaches s.election.id then revised ∷ rest else s ∷ rest)
      else s ∷ rest

  abbrev pub disseminate_if :
      (ℤ → Bool) → List ℤ → Option HaProxyConfig → List (CpApiServer F) → List (CpApiServer F)
  disseminate_if reaches peers none ss = ss
  disseminate_if reaches peers (some config) ss = disseminate_haproxy_config reaches peers config ss

  -- A call at a server, and at those that it is passed on to, so many of them at most: `waits` is a
  -- call that is still being passed on. A server that cannot be reached gives an error.
  unfoldable pub forward :
      ℕ
      → (ℤ → Bool)
      → ℤ
      → ApiCall F
      → List (CpApiServer F)
      → Result (List (CpApiServer F) × ActionStatus)
  unfolding find_server serve get_leader put_server
  forward zero reaches id call ss = waits
  forward (suc hops) reaches id call ss = elim (find_server id ss) [
    | none ↦ returns (ss, failed_with_error)
    | some s ↦ elim (is_leader s.election.state) [
      | true ↦ do
        ((s', status), config) ← serve call s
        returns (disseminate_if reaches s.peers config (put_server id s' ss), status)
      | false ↦ elim (get_leader s) [
        | none ↦ returns (ss, failure)
        | some leader ↦ elim (reaches leader) [
          | false ↦ returns (ss, failed_with_error)
          | true ↦ forward hops reaches leader call ss
        ]
      ]
    ]
  ]
