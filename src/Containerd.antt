-- ===== src/Containerd.antt =====
-- internal/worker_node/sandbox/containerd/runtime.go, iface.go and image_manager.go: the sandboxes of a
-- worker node that are containers. The libraries of containerd and CNI, and iptables, are a parameter.
pub mod Roundtrip
pub mod Exits
mod Tests
use dirigent.Prelude.{
  ℕ, ◌+◌, ◌==◌, Bool, true, false, String, List, [], ◌∷◌, Option, none, some, if◌then◌else◌,
}
use dirigent.Prelude.Maps.{lookup, insert}
use dirigent.Prelude.Names.{string_discrete}
use dirigent.Prelude.Results.{Result, returns, waits}
use dirigent.Managers
use dirigent.Managers.{
  SandboxManager, SandboxMetadata, SandboxEndpoint, ProcessMonitor, add_sandbox, add_channel,
  list_endpoints,
}
use dirigent.Ports.{assign_random_port, unassign_port}
use dirigent.Rules.{Rule, RuleCommand, Iptables, add_rules, delete_rules}

-- What a worker node asks of containerd and of CNI; a container and its task are known by the
-- container's name.
pub data ContainerCall : Type 0 where
  pull : String → ContainerCall
  new_container : String → String → ContainerCall
  new_task task_wait cni_setup task_start task_kill task_delete container_delete :
      String → ContainerCall
  cni_remove : String → String → ContainerCall

pub record ContainerLibrary : Type 1 where
  pub State : Type 0
  pub call : ContainerCall → State → Bool × State
  pub pid : String → State → ℕ
  pub ip : String → State → String
  pub net_ns : ℕ → String
  pub run_rule : RuleCommand → State → Bool × State
  pub rules_of : State → Rule → ℕ

-- What the runtime reads of a proto.ServiceInfo.
pub record ContainerRequest : Type 0 where
  pub name : String
  pub image : String
  pub guest_port : ℕ

-- proto.SandboxCreationStatus, less the times; `err` tells whether an error is returned with it.
pub record CreationStatus : Type 0 where
  pub success : Bool
  pub id : String
  pub host_port : ℕ
  pub err : Bool

abbrev pub failure : CreationStatus
failure = record { success = false; id = ""; host_port = 0; err = true }

-- A report of ReportFailure: the service and the sandbox.
abbrev pub Report : Type 0
Report = String × String

-- WatchExitChannel, after it has received an exit code; 137 is the code of a SIGKILL.
unfoldable pub watch_exit_channel : ℕ → String → String → Option Report
watch_exit_channel exit_code service_name container_id =
    if exit_code == 137 then none else some (service_name, container_id)

module _ (lib : ContainerLibrary) where
  -- An image is known by its url; `drawn` counts the numbers drawn for names.
  pub record ContainerdRuntime : Type 0 where
    pub images : List (String × String)
    pub sandbox_manager : SandboxManager String
    pub process_monitor : ProcessMonitor
    pub ports_in_use : List ℕ
    pub drawn : ℕ
    pub channels : ℕ
    pub host : lib.State

  abbrev pub iptables_of : Iptables
  iptables_of = record { State = lib.State; run = lib.run_rule; rules_of = lib.rules_of }

  -- GetImage, with FetchImage.
  unfoldable pub get_image : String → ContainerdRuntime → Bool × ContainerdRuntime
  get_image url r = elim (lookup string_discrete url r.images) [
    | some image ↦ (true, r)
    | none ↦
        let (ok, s) = lib.call (pull url) r.host in
        let failed : ContainerdRuntime = record r { host = s } in
        let fetched : ContainerdRuntime = record failed {
          images = insert string_discrete url url r.images;
        } in
        if ok then (true, fetched) else (false, failed)
  ]

  -- The calls one after the other, up to the first that fails.
  unfoldable pub call_each : List ContainerCall → lib.State → Bool × lib.State
  call_each [] s = (true, s)
  call_each (c ∷ cs) s =
      let (ok, s') = lib.call c s in let rest = call_each cs s' in if ok then rest else (false, s')

  unfoldable pub start_container : String → lib.State → Bool × lib.State
  unfolding call_each
  start_container name =
      call_each (new_task name ∷ task_wait name ∷ cni_setup name ∷ task_start name ∷ [])

  unfoldable pub delete_container : String → String → lib.State → Bool × lib.State
  unfolding call_each
  delete_container name net_ns =
      call_each
        (cni_remove name net_ns ∷ task_kill name ∷ task_delete name ∷ container_delete name ∷ [])

  module _ (name_of : ℕ → String) where
    -- CreateSandbox once the container runs.
    unfoldable pub register_container :
        String
        → ContainerRequest
        → ℕ
        → List ℕ
        → ContainerdRuntime
        → CreationStatus × ContainerdRuntime
    register_container name request port in_use r =
        let pid = lib.pid name r.host in
        let m : SandboxMetadata String = record {
          service_name = request.name;
          runtime_metadata = name;
          host_port = port;
          ip = lib.ip name r.host;
          guest_port = request.guest_port;
          net_ns = lib.net_ns pid;
          exit_status_channel = r.channels;
        } in
        let r' : ContainerdRuntime = record r {
          sandbox_manager = add_sandbox name m r.sandbox_manager;
          process_monitor = add_channel pid r.channels r.process_monitor;
          ports_in_use = in_use;
          channels = r.channels + 1;
          host = add_rules iptables_of port m.ip m.guest_port r.host;
        } in
        (record { success = true; id = name; host_port = port; err = false }, r')

    -- CreateSandbox; the port is drawn in so many rounds.
    unfoldable pub create_sandbox :
        ℕ
        → (ℕ → ℕ)
        → ContainerRequest
        → ContainerdRuntime
        → Result (CreationStatus × ContainerdRuntime)
    unfolding get_image start_container register_container
    create_sandbox rounds ports request r =
        let (fetched, r1) = get_image request.image r in
        let name = name_of r1.drawn in
        let (made, s2) = lib.call (new_container name request.image) r1.host in
        let r2 : ContainerdRuntime = record r1 { drawn = r1.drawn + 1; host = s2 } in
        let (started, s3) = start_container name s2 in
        let r3 : ContainerdRuntime = record r2 { host = s3 } in
        elim fetched [
          | false ↦ returns (failure, r1)
          | true ↦ elim made [
            | false ↦ returns (failure, r2)
            | true ↦ elim started [
              | false ↦ returns (failure, r3)
              | true ↦ elim (assign_random_port rounds ports r3.ports_in_use) [
                | none ↦ waits
                | some (port, in_use) ↦ returns (register_container name request port in_use r3)
              ]
            ]
          ]
        ]

  -- DeleteSandbox, with what the sandbox manager's answers: its success, and whether there is an
  -- error.
  unfoldable pub delete_found :
      Option (SandboxMetadata String) × SandboxManager String
      → ContainerdRuntime
      → (Bool × Bool) × ContainerdRuntime
  unfolding delete_container
  delete_found (none, manager) r = ((false, false), r)
  delete_found (some m, manager) r =
      let s = delete_rules iptables_of m.host_port m.ip m.guest_port r.host in
      let (ok, s') = delete_container m.runtime_metadata m.net_ns s in
      let r' : ContainerdRuntime = record r {
        sandbox_manager = manager;
        ports_in_use = unassign_port m.host_port r.ports_in_use;
        host = s';
      } in
      (if ok then (true, false) else (false, true), r')

  unfoldable pub delete_sandbox : String → ContainerdRuntime → (Bool × Bool) × ContainerdRuntime
  unfolding delete_found
  delete_sandbox id r = delete_found (Managers.delete_sandbox id r.sandbox_manager) r

  unfoldable pub list_endpoints_of : ContainerdRuntime → List SandboxEndpoint
  list_endpoints_of r = list_endpoints r.sandbox_manager
