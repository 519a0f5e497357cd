-- ===== src/Firecracker/Tests.antt =====
-- Runs of the runtime for virtual machines.
use dirigent.Prelude.{refl, List, [], ◌∷◌, ◌++◌, true, false, some, arith}
use dirigent.Prelude.Int.{pos}
use dirigent.Prelude.Maps.{lookup}
use dirigent.Networks.{NameFormats, NetworkPoolManager}
use dirigent.Networks.Pools.{count_of}
use dirigent.Networks.Simple.{Tables, simple, simple-IsIpTool, simple-Deletes}
use dirigent.Firecracker.{Hypervisor, VmCall, FirecrackerRuntime, SandboxRequest, create_sandbox}
use dirigent.Firecracker.Counts.{networks_of, holders_of}
use dirigent.Firecracker.Exclusive.{IsConsistent}
use dirigent.Firecracker.Creation.{EndsWell, create_sandbox-EndsWell}

-- A library that does all it is asked for, with the calls it was given.
abbrev obliging : Hypervisor
obliging = record {
  State = List VmCall;
  call = λ c s. (true, s ++ c ∷ []);
  pid = λ id s. some 7;
  run_rule = λ c s. (true, s);
  rules_of = λ s r. 0;
  paths_of = λ id. record { memory_path = "memory"; snapshot_path = "snapshot" };
  address_name = λ a. "192.168.0.1";
}

abbrev names : NameFormats
names = record {
  net_ns_name = λ n. "firecracker-0";
  device_name = λ id. "fc-0-veth";
  is_veth_name = λ d. true;
}

abbrev bare : Tables
bare = record { netns = λ n. false; device = λ d. false; peer = λ n d. false; pair = λ n d. false }

abbrev pool : NetworkPoolManager
pool = record {
  internal_ip_manager = record { network_prefix = "10"; allocation_counter = 0 };
  exposed_ip_manager = record { network_prefix = "192.168"; allocation_counter = 0 };
  interface_name_generator = pos 0;
  draws = 0;
  max_network_pool_size = 16;
  pool = [];
}

abbrev runtime : FirecrackerRuntime obliging (simple true)
runtime = record {
  use_snapshots = true;
  network_manager = (pool, bare);
  sandbox_manager = record { metadata = []; node_name = "w1" };
  process_monitor = record { notify_channels = []; sent = [] };
  snapshot_manager = [];
  ports_in_use = [];
  ids = 0;
  channels = 0;
  host = [];
}

abbrev request : SandboxRequest
request = record { name = "f"; image = "i"; guest_port = 80 }

runtime-IsConsistent :
    IsConsistent obliging
      (simple true)
      (simple-IsIpTool true)
      (simple-Deletes true)
      names
      (λ n. n)
      (λ n. n)
      (λ n. 0)
      runtime
unfolding count_of networks_of holders_of
runtime-IsConsistent = record {
  is_map = tt;
  networks = (λ n. ground arith, omega arith);
  ports = λ port. ground arith;
}

create_sandbox-EndsWell_example :
    EndsWell obliging
      (simple true)
      (simple-IsIpTool true)
      (simple-Deletes true)
      names
      (λ n. n)
      (λ n. n)
      (λ n. 0)
      runtime
      (create_sandbox obliging (simple true) names (λ n. n) (λ n. n) 1 (λ n. 5) request runtime)
unfolding lookup
create_sandbox-EndsWell_example =
    create_sandbox-EndsWell obliging (simple true) (simple-IsIpTool true) (simple-Deletes true)
      names (λ n. n) (λ n. n) (λ n. 0) 1 (λ n. 5) request runtime (λ n. omega arith) refl
      runtime-IsConsistent
