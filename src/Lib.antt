-- ===== src/Lib.antt =====
-- A verification library for dirigent, a cluster manager for serverless functions: a control plane
-- that elects a leader, scales functions and places their sandboxes on worker nodes, and data
-- planes that route requests to the sandboxes.
--
-- The parts, and the code that each models:
--   * Election: internal/control_plane/leader_election/consensus_module.go. A node is a record with
--     the fields of ConsensusModule, and every handler a function on it: request_vote for
--     RequestVote, append_entries for AppendEntries, start_election and vote_reply for the two parts
--     of startElection, heartbeat_reply for the end of leaderSendHeartbeats, election_timer_tick for
--     a round of runElectionTimer. Each runs under the module's lock, so that a node's life is a
--     sequence of such events, which Election.Votes steps through in any order.
--   * Autoscaling: internal/control_plane/autoscaling. Autoscaling.Metadata is the cached metric of
--     autoscaling.go, Autoscaling.Window its windowAverage, Autoscaling.Scale its
--     internalScaleAlgorithm and KnativeScaling. Autoscaling.Controller is controller.go, with the
--     atomic parts of Start, Stop and ScalingLoop as steps that interleave.
--   * Endpoints: internal/control_plane/scaling_loop.go, eviction_policy/eviction_policy.go,
--     failure.go and helpers.go. scaling_round is a round of ScalingControllerLoop, do_downscaling
--     and do_upscaling are doDownscaling and doUpscaling, remove_endpoints is removeEndpoints.
--   * Registry: internal/control_plane/control_plane.go, reconstruction.go and the loops of
--     failure.go and helpers.go around one service. A handler (register_node, deregister_node,
--     node_heartbeat, register_dataplane, deregister_dataplane, register_service,
--     deregister_service, on_metrics_receive, handle_failure) is a function on the control plane's
--     state, which holds what is in memory and what is persisted; a write to the persistence layer
--     is confirmed, refused, or done without being confirmed. check_worker_nodes and
--     check_dataplanes are a round of CheckPeriodicallyWorkerNodes and CheckPeriodicallyDataplanes.
--   * Servers: api/control_plane_api_server.go and internal/control_plane/leader_election/server.go: the
--     replicas of the control plane as a list, on top of Election and Registry. forward is the first
--     part of every call of the API, serve the rest.
--   * Requests, Registration: internal/control_plane/registration_server, the form that registers
--     a service and what is done with it on top of Servers.
--   * Daemon: internal/worker_node/worker_node.go. Daemon.Cleaning.IsRuntime is what it relies on of a
--     runtime, which Firecracker and Containerd fill; what it does with a library that fails to
--     delete a container is the runtime's.
--   * Networks: internal/worker_node/sandbox/firecracker/networking.go. The command `ip` is a parameter;
--     Networks.Hosts.IsIpTool is its documented behaviour, Networks.Hosts.Deletes the case in which none
--     of its deletions fails, Networks.Creation and Networks.Frames a single network,
--     Networks.Owners every order of the operations, Networks.Simple a host that satisfies IsIpTool.
--   * Firecracker: runtime.go, vm.go and snapshot_manager.go of the same directory, on top of Networks,
--     Managers, Ports and Rules; Firecracker.Exclusive is the invariant of a worker node's sandboxes.
--   * Containerd: internal/worker_node/sandbox/containerd, whose config_builder.go is Ports.
--   * Rules: internal/worker_node/managers/iptables_manager.go.
--   * Persistence: internal/control_plane/persistence/redis_persistence.go, with Redis and protobuf as
--     parameters. The functions for data planes, worker nodes and services differ in their codec only.
--   * Sync: pkg/synchronization/control_plane_sync.go, a map with a lock. What a handler returns is a
--     Result: a value, or that it waits for a lock that it holds itself, or that it panics.
--   * Workers: internal/control_plane/workers/worker_node.go.
--   * Placement: internal/control_plane/placement_policy, a function for each policy's Place.
--   * Functions: internal/data_plane/function_metadata/function_metadata.go and the hand-back of
--     internal/data_plane/proxy/utils.go. add_endpoints, drain_endpoints and remove_all_endpoints are
--     the operations that the control plane calls; admit and enqueue are the two parts of
--     TryWarmStart, try_warm_start the whole; take_capacity, give_back_cc_capacity and mark are what
--     happens to one endpoint. Functions.Delta is endpointDelta, with pkg/map/maps.go.
--   * Balancing: internal/data_plane/proxy/load_balancing/load_balancing.go, a definition for each
--     policy.
--   * DataPlane: internal/data_plane/data_plane.go and function_metadata/deployment.go. deliver hands
--     the messages that a service's scaling has sent to a function of a data plane.
--   * HaProxy: internal/data_plane/haproxy/manager.go. generic_revise is genericRevise, and
--     HaProxy.Revisions.IsClient the behaviour of HAProxy's client library, CarriesOut the case in which
--     it refuses nothing that it is asked for.
--   * AsyncProxy: internal/data_plane/proxy/async_proxy_handler.go. handle_request is the goroutine of
--     asyncRequestHandler, serve a number of its rounds, fire_request is fireRequest for each way in
--     which a try ends.
--   * Managers: internal/worker_node/managers: the addresses and names that a worker node gives its
--     sandboxes, the back-off of its probes, its process monitor and its sandboxes.
--   * Leadership: cmd/master_node/state_management/election_management.go. update_leadership is
--     UpdateLeadership; Leadership.Follows runs it on what the election module announces.
--   * Prelude: the lists, integers, Go maps and names that the parts share.
--
-- How the parts interact: the autoscaler of a function sends the desired scale to the function's
-- scaling loop, which compares it with the actual scale and creates or evicts endpoints. Reports of
-- failed sandboxes take endpoints away. What the scaling loop creates and evicts is what the data
-- plane's add_endpoints and drain_endpoints are given; the data plane in turn reports the number of
-- its requests to the autoscaler.
--
-- Integers: an int32 that the code adds to wraps (`wrap32`): the terms of an election, the
-- cached metric, the requests in flight and the widths of the windows; the two round-robin
-- counters are a uint32, and the resources of nodes a uint64. Lengths and the scale of a
-- service, an int64, are not bounded. The float64 operations of the autoscaler and
-- mathutil.Clamp are parameters.
--
-- Loops recurse on the list or on the number of rounds that is left: 60 at first in
-- do_load_balancing, as in DoLoadBalancing. Loops without such a bound run on a number of
-- rounds: as many as there are endpoints are enough for the search of
-- kubernetesRoundRobinLoadBalancing, three for GenerateSingleIP, and as many as tries are left
-- for the asynchronous requests; populate has as many as the pool has places, which is enough
-- if there are addresses for them; AssignRandomPort, the forwarding of a call and
-- place_round_robin have them as an argument, and so has revise, whose loop ends with the
-- first try that succeeds. The draws of math/rand, the time and the answers of remote calls
-- are arguments. A panic of the code, by an index out of range, a division by zero or the
-- close of a nil channel, is `none` or an outcome of its own.
--
-- Not modelled: the connections of gRPC, HTTP and Redis, configuration and start-up code, and
-- generated code; the options of virtual machines and the synchronous proxy. In the runtimes,
-- a creation or a deletion of a sandbox runs as a whole; the invariants hold between them. In
-- the controller, a sender that waits on a channel while it is closed is not modelled. In the
-- scaling loop, a round runs as a whole, and the goroutines of doUpscaling end one after the
-- other, though the code appends to Controller.Endpoints without a lock; and
-- DataPlane.Messages.deliver takes every message of a round as received, in the order of
-- sending, where the code logs a call that fails and goes on. The locks of a service's
-- endpoints and of a worker node's endpoint map are not modelled, nor those of the load
-- balancer: a policy runs without another request moving the counter that it reads. The
-- goroutine of an asynchronous request runs as a whole. In the draining of an endpoint, the
-- swap of Drained and the making of its channel are one step.
pub mod Prelude
pub mod Sync
pub mod Servers
pub mod Registration
pub mod Requests
pub mod Workers
pub mod Registry
pub mod Rules
pub mod Election
pub mod Autoscaling
pub mod Endpoints
pub mod Firecracker
pub mod Functions
pub mod Balancing
pub mod Leadership
pub mod Placement
pub mod Ports
pub mod Managers
pub mod AsyncProxy
pub mod Containerd
pub mod Daemon
pub mod DataPlane
pub mod HaProxy
pub mod Networks
pub mod Persistence
