-- ===== src/Firecracker/Counts.antt =====
-- The networks and the ports of a worker node's sandboxes, counted
-- (internal/worker_node/sandbox/firecracker/runtime.go).
use dirigent.Prelude.{
  ℕ, ◌+◌, ◌≡◌, ◌==◌, String, List, [], ◌∷◌, Option, none, some, arith, if◌then◌else◌,
}
use dirigent.Prelude.Maps.{lookup, insert, remove, IsMap, remove_of_none}
use dirigent.Prelude.Names.{string_discrete}
use dirigent.Managers.{SandboxMetadata}
use dirigent.Networks.{NetworkConfig}
use dirigent.Networks.Pools.{count_of, owns}
use dirigent.Firecracker.{VmControlStructure}

abbrev pub Sandboxes : Type 0
Sandboxes = List (String × SandboxMetadata VmControlStructure)

-- The networks that the sandboxes have.
unfoldable pub networks_of : Sandboxes → List (Option NetworkConfig)
networks_of [] = []
networks_of ((id, m) ∷ ms) = some m.runtime_metadata.network_configuration ∷ networks_of ms

-- How many sandboxes have a port.
unfoldable pub holders_of : ℕ → Sandboxes → ℕ
holders_of port [] = 0
holders_of port ((id, m) ∷ ms) = (if m.host_port == port then 1 else 0) + holders_of port ms

pub networks_of-insert :
    (id : String) (m : SandboxMetadata VmControlStructure) (ms : Sandboxes) (n : String)
    → lookup string_discrete id ms ≡ none
    → count_of n (networks_of (insert string_discrete id m ms))
      ≡ owns n (some m.runtime_metadata.network_configuration) + count_of n (networks_of ms)
unfolding networks_of count_of lookup insert
networks_of-insert id m [] n f = ground arith
networks_of-insert id m ((k, v) ∷ ms) n f = ground (arith, f, networks_of-insert id m ms n)

pub networks_of-remove :
    (id : String) (m : SandboxMetadata VmControlStructure) (ms : Sandboxes) (n : String)
    → IsMap string_discrete ms
    → lookup string_discrete id ms ≡ some m
    → count_of n (networks_of ms)
      ≡ owns n (some m.runtime_metadata.network_configuration)
        + count_of n (networks_of (remove string_discrete id ms))
unfolding networks_of count_of lookup remove
networks_of-remove id m [] n i f = ground (arith, f)
networks_of-remove id m ((k, v) ∷ ms) n i f =
    ground (arith, i, f, networks_of-remove id m ms n i.1, remove_of_none string_discrete id ms)

pub holders_of-insert :
    (id : String) (m : SandboxMetadata VmControlStructure) (ms : Sandboxes) (port : ℕ)
    → lookup string_discrete id ms ≡ none
    → holders_of port (insert string_discrete id m ms)
      ≡ (if m.host_port == port then 1 else 0) + holders_of port ms
unfolding holders_of lookup insert
holders_of-insert id m [] port f = ground arith
holders_of-insert id m ((k, v) ∷ ms) port f = ground (arith, f, holders_of-insert id m ms port)

pub holders_of-remove :
    (id : String) (m : SandboxMetadata VmControlStructure) (ms : Sandboxes) (port : ℕ)
    → IsMap string_discrete ms
    → lookup string_discrete id ms ≡ some m
    → holders_of port ms
      ≡ (if m.host_port == port then 1 else 0) + holders_of port (remove string_discrete id ms)
unfolding holders_of lookup remove
holders_of-remove id m [] port i f = ground (arith, f)
holders_of-remove id m ((k, v) ∷ ms) port i f =
    ground (arith, i, f, holders_of-remove id m ms port i.1, remove_of_none string_discrete id ms)
