-- ===== src/Containerd/Tests.antt =====
-- Runs of the runtime for containers.
use dirigent.Prelude.{
  ℕ, ◌≡◌, ◌≢◌, ◌↔◌, refl, List, [], ◌∷◌, ◌++◌, true, none, some, arith, ℕ_discrete,
}
use dirigent.Prelude.Maps.{lookup}
use dirigent.Managers.{ProcessMonitor, exit, handle_events}
use dirigent.Containerd.{
  ContainerCall, ContainerLibrary, ContainerRequest, ContainerdRuntime, watch_exit_channel,
  create_sandbox,
}
use dirigent.Containerd.Exits.{watch_exit_channel-handle_events}
use dirigent.Containerd.Roundtrip.{IsReversible, create_sandbox-IsReversible}

-- Libraries that do all they are asked for, with the calls they were given.
abbrev obliging : ContainerLibrary
obliging = record {
  State = List ContainerCall;
  call = λ c s. (true, s ++ c ∷ []);
  pid = λ name s. 7;
  ip = λ name s. "10.0.0.2";
  net_ns = λ pid. "/proc/7/ns/net";
  run_rule = λ c s. (true, s);
  rules_of = λ s r. 0;
}

abbrev runtime : ContainerdRuntime obliging
runtime = record {
  images = [];
  sandbox_manager = record { metadata = []; node_name = "w1" };
  process_monitor = record { notify_channels = []; sent = [] };
  ports_in_use = [];
  drawn = 0;
  channels = 0;
  host = [];
}

abbrev request : ContainerRequest
request = record { name = "f"; image = "i"; guest_port = 80 }

create_sandbox-IsReversible_example :
    IsReversible obliging
      (λ n. "workload-1")
      runtime
      (create_sandbox obliging (λ n. "workload-1") 1 (λ n. 5) request runtime)
unfolding lookup ℕ_discrete
create_sandbox-IsReversible_example =
    create_sandbox-IsReversible obliging (λ n. "workload-1") 1 (λ n. 5) request runtime
      (λ n. omega arith) refl

abbrev code : ℕ
code = 256

abbrev monitor : ProcessMonitor
monitor = record { notify_channels = (7, 0) ∷ []; sent = [] }

watch_exit_channel-handle_events_example :
    (sent : ℕ) × (((handle_events (exit 7 code ∷ []) monitor).sent ≡ (0, sent) ∷ [])
      × ((watch_exit_channel sent "f" "workload-1" ≡ none ↔ code ≡ 9)
          × (watch_exit_channel sent "f" "workload-1" ≡ some ("f", "workload-1") ↔ code ≢ 9)))
unfolding lookup ℕ_discrete
watch_exit_channel-handle_events_example =
    watch_exit_channel-handle_events 7 code 0 "f" "workload-1" monitor (omega arith) refl
