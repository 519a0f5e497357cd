-- ===== src/Firecracker.antt =====
-- internal/worker_node/sandbox/firecracker/runtime.go, vm.go and snapshot_manager.go: the sandboxes of
-- a worker node that are virtual machines. The library of Firecracker, the machine's files, the
-- readiness probes and iptables are a parameter. `panics` ends the process.
pub mod Counts
pub mod Exclusive
pub mod Creation
mod Tests
use dirigent.Prelude.{
  ℕ, ◌+◌, ◌≡◌, Bool, true, false, String, List, [], ◌∷◌, ◌&&◌, Option, none, some, not_b,
  if◌then◌else◌,
}
use dirigent.Prelude.Int.{ℤ}
use dirigent.Prelude.Maps.{lookup, insert}
use dirigent.Prelude.Names.{string_discrete}
use dirigent.Prelude.Results.{Result, returns, waits, panics}
use dirigent.Managers
use dirigent.Managers.{
  SandboxManager, SandboxMetadata, SandboxEndpoint, ProcessMonitor, add_sandbox, add_channel,
  list_endpoints,
}
use dirigent.Networks.{
  IpTool, NameFormats, Address, NetworkConfig, NetworkPoolManager, get_one_config, give_up_network,
  new_network_pool_manager, delete_unused_network_devices,
}
use dirigent.Ports.{assign_random_port, unassign_port}
use dirigent.Rules.{Rule, RuleCommand, Iptables, add_rules, delete_rules}

pub record SnapshotMetadata : Type 0 where
  pub memory_path : String
  pub snapshot_path : String

-- What a worker node asks of a machine, of the files and of the sandbox's port.
pub data VmCall : Type 0 where
  new_machine : String → NetworkConfig → Option SnapshotMetadata → VmCall
  start resume pause remove_log : String → VmCall
  create_snapshot : String → SnapshotMetadata → VmCall
  make_snapshot_directory remove_snapshots : VmCall
  kill readiness_probe : ℕ → VmCall

pub record Hypervisor : Type 1 where
  pub State : Type 0
  pub call : VmCall → State → Bool × State
  pub pid : String → State → Option ℕ
  pub run_rule : RuleCommand → State → Bool × State
  pub rules_of : State → Rule → ℕ
  pub paths_of : String → SnapshotMetadata
  pub address_name : Address → String

-- VMControlStructure; the machine is known by the sandbox's name.
pub record VmControlStructure : Type 0 where
  pub sandbox_id : String
  pub network_configuration : NetworkConfig

-- What the runtime reads of a proto.ServiceInfo.
pub record SandboxRequest : Type 0 where
  pub name : String
  pub image : String
  pub guest_port : ℕ

-- proto.SandboxCreationStatus, less the times, with the host's port of the mappings; `err` tells
-- whether an error is returned with it.
pub record SandboxCreationStatus : Type 0 where
  pub success : Bool
  pub id : String
  pub host_port : ℕ
  pub err : Bool

abbrev pub failed : String → Bool → SandboxCreationStatus
failed id err = record { success = false; id = id; host_port = 0; err = err }

-- LoadOrStore, in AddSnapshot.
unfoldable pub add_snapshot :
    String → SnapshotMetadata → List (String × SnapshotMetadata) → List (String × SnapshotMetadata)
add_snapshot image paths snapshots = elim (lookup string_discrete image snapshots) [
  | none ↦ insert string_discrete image paths snapshots
  | some p ↦ snapshots
]

unfoldable pub snapshot_exists : String → List (String × SnapshotMetadata) → Bool
snapshot_exists image snapshots = elim (lookup string_discrete image snapshots) [
  | none ↦ false
  | some p ↦ true
]

module _ (hv : Hypervisor) (ip : IpTool) where
  -- `ids` and `channels` count what idGenerator drew and the channels that were made; the ports in
  -- use are a variable of the package containerd.
  pub record FirecrackerRuntime : Type 0 where
    pub use_snapshots : Bool
    pub network_manager : NetworkPoolManager × ip.State
    pub sandbox_manager : SandboxManager VmControlStructure
    pub process_monitor : ProcessMonitor
    pub snapshot_manager : List (String × SnapshotMetadata)
    pub ports_in_use : List ℕ
    pub ids : ℕ
    pub channels : ℕ
    pub host : hv.State

  abbrev pub iptables_of : Iptables
  iptables_of = record { State = hv.State; run = hv.run_rule; rules_of = hv.rules_of }

  -- The machine in StartFirecrackerVM: made, started, and resumed if it comes from a snapshot.
  unfoldable pub start_machine :
      String → NetworkConfig → Option SnapshotMetadata → hv.State → Bool × hv.State
  start_machine id config snapshot s =
      let (made, s1) = hv.call (new_machine id config snapshot) s in
      let (started, s2) = hv.call (start id) s1 in
      let resumed : Bool × hv.State = elim snapshot [
        | none ↦ (true, s2)
        | some paths ↦ hv.call (resume id) s2
      ] in
      if made then (if started then resumed else (false, s2)) else (false, s1)

  unfoldable pub create_vm_snapshot : String → hv.State → Bool × hv.State
  create_vm_snapshot id s =
      let (paused, s1) = hv.call (pause id) s in
      let (made, s2) = hv.call make_snapshot_directory s1 in
      let written = hv.call (create_snapshot id (hv.paths_of id)) s2 in
      if paused then (if made then written else (false, s2)) else (false, s1)

  unfoldable pub stop_firecracker_vm : String → hv.State → Bool × hv.State
  stop_firecracker_vm id s = elim (hv.pid id s) [
    | none ↦ (false, s)
    | some pid ↦ hv.call (kill pid) s
  ]

  unfoldable pub create_metadata :
      SandboxRequest → VmControlStructure → ℕ → ℕ → SandboxMetadata VmControlStructure
  create_metadata request vmcs host_port channel = record {
    service_name = request.name;
    runtime_metadata = vmcs;
    host_port = host_port;
    ip = hv.address_name vmcs.network_configuration.exposed_ip;
    guest_port = request.guest_port;
    net_ns = "";
    exit_status_channel = channel;
  }

  module _ (nf : NameFormats) (draw draw_id : ℕ → ℕ) where
    -- StartFirecrackerVM: the network, or nil for an error.
    unfoldable pub start_firecracker_vm :
        String
        → Option SnapshotMetadata
        → FirecrackerRuntime
        → Result (Option NetworkConfig × FirecrackerRuntime)
    unfolding start_machine
    start_firecracker_vm id snapshot r = elim (get_one_config ip nf draw r.network_manager) [
      | none ↦ panics
      | some (none, (low, p)) ↦ returns (none, record r { network_manager = p })
      | some (some config, (low, p)) ↦
          let (ok, s) = start_machine id config snapshot r.host in
          let started : FirecrackerRuntime = record r { network_manager = p; host = s } in
          let stopped : FirecrackerRuntime = record started {
            network_manager = give_up_network ip nf draw config p;
          } in
          returns (if ok then (some config, started) else (none, stopped))
    ]

    -- DeleteSandbox, with what the sandbox manager's answers.
    unfoldable pub delete_found :
        Option (SandboxMetadata VmControlStructure) × SandboxManager VmControlStructure
        → FirecrackerRuntime
        → Bool × FirecrackerRuntime
    unfolding stop_firecracker_vm
    delete_found (none, manager) r = (false, r)
    delete_found (some m, manager) r =
        let vmcs = m.runtime_metadata in
        let s = delete_rules iptables_of m.host_port m.ip m.guest_port r.host in
        let s1 = (stop_firecracker_vm vmcs.sandbox_id s).1 in
        let s2 = (hv.call (remove_log vmcs.sandbox_id) s1).1 in
        let r' : FirecrackerRuntime = record r {
          sandbox_manager = manager;
          ports_in_use = unassign_port m.host_port r.ports_in_use;
          network_manager = give_up_network ip nf draw vmcs.network_configuration r.network_manager;
          host = s2;
        } in
        (true, r')

    unfoldable pub delete_sandbox : String → FirecrackerRuntime → Bool × FirecrackerRuntime
    unfolding delete_found
    delete_sandbox id r = delete_found (Managers.delete_sandbox id r.sandbox_manager) r

    -- The snapshot of CreateSandbox, of a machine whose probe has passed or not; and whether the
    -- sandbox is still to be kept.
    unfoldable pub take_snapshot :
        String → String → Bool → FirecrackerRuntime → Bool × FirecrackerRuntime
    unfolding create_vm_snapshot add_snapshot snapshot_exists
    take_snapshot id image passed r =
        let (ok, s) = create_vm_snapshot id r.host in
        let (resumed, s') = hv.call (resume id) s in
        let kept : FirecrackerRuntime = record r { host = s' } in
        let added : FirecrackerRuntime = record kept {
          snapshot_manager = add_snapshot image (hv.paths_of id) r.snapshot_manager;
        } in
        if passed && r.use_snapshots && not_b (snapshot_exists image r.snapshot_manager)
        then (resumed, if ok then added else kept)
        else (passed, r)

    -- CreateSandbox from the registration of the sandbox on.
    unfoldable pub complete_sandbox :
        String
        → SandboxRequest
        → SandboxMetadata VmControlStructure
        → ℕ
        → FirecrackerRuntime
        → SandboxCreationStatus × FirecrackerRuntime
    unfolding delete_sandbox take_snapshot
    complete_sandbox id request m pid r =
        let r1 : FirecrackerRuntime = record r {
          sandbox_manager = add_sandbox id m r.sandbox_manager;
          process_monitor = add_channel pid m.exit_status_channel r.process_monitor;
          host = add_rules iptables_of m.host_port m.ip m.guest_port r.host;
        } in
        let (passed, s) = hv.call (readiness_probe m.host_port) r1.host in
        let (kept, r2) = take_snapshot id request.image passed (record r1 { host = s }) in
        let created : SandboxCreationStatus = record {
          success = true;
          id = id;
          host_port = m.host_port;
          err = false;
        } in
        if kept then (created, r2) else (failed id false, (delete_sandbox id r2).1)

    -- CreateSandbox; the port is drawn in so many rounds.
    unfoldable pub create_sandbox :
        ℕ
        → (ℕ → ℕ)
        → SandboxRequest
        → FirecrackerRuntime
        → Result (SandboxCreationStatus × FirecrackerRuntime)
    unfolding start_firecracker_vm create_metadata complete_sandbox
    create_sandbox rounds ports request r =
        let id = nf.net_ns_name (draw_id r.ids) in
        let snapshot = lookup string_discrete request.image r.snapshot_manager in
        elim (start_firecracker_vm id snapshot (record r { ids = r.ids + 1 })) [
          | waits ↦ waits
          | panics ↦ panics
          | returns (none, r1) ↦ returns (failed "" true, r1)
          | returns (some config, r1) ↦ elim (assign_random_port rounds ports r1.ports_in_use) [
            | none ↦ waits
            | some (port, in_use) ↦
                let vmcs : VmControlStructure = record {
                  sandbox_id = id;
                  network_configuration = config;
                } in
                let m = create_metadata request vmcs port r1.channels in
                let r2 : FirecrackerRuntime = record r1 {
                  ports_in_use = in_use;
                  channels = r1.channels + 1;
                } in
                let stopped : FirecrackerRuntime = record r2 {
                  network_manager = give_up_network ip nf draw config r2.network_manager;
                  ports_in_use = unassign_port port in_use;
                } in
                elim (hv.pid id r2.host) [
                  | none ↦ returns (failed "" true, stopped)
                  | some pid ↦ returns (complete_sandbox id request m pid r2)
                ]
          ]
        ]

    unfoldable pub list_endpoints_of : FirecrackerRuntime → List SandboxEndpoint
    list_endpoints_of r = list_endpoints r.sandbox_manager

    -- NewFirecrackerRuntime: with the kernel's address prefixes, the size of the pool, and whether
    -- iptables is there.
    unfoldable pub new_firecracker_runtime :
        SandboxManager VmControlStructure
        → String
        → String
        → Bool
        → ℤ
        → List ℕ
        → Bool
        → hv.State
        → ip.State
        → Result FirecrackerRuntime
    new_firecracker_runtime manager internal external use_snapshots size ports ipt s n =
        let s' = (hv.call remove_snapshots s).1 in
        let n' = (delete_unused_network_devices ip nf n).1 in
        if ipt
        then (elim (new_network_pool_manager ip nf draw internal external size n') [
          | none ↦ panics
          | some pool ↦ returns (record {
            use_snapshots = use_snapshots;
            network_manager = pool;
            sandbox_manager = manager;
            process_monitor = record { notify_channels = []; sent = [] };
            snapshot_manager = [];
            ports_in_use = ports;
            ids = 0;
            channels = 0;
            host = s';
          })
        ])
        else panics
