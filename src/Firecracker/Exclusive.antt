-- ===== src/Firecracker/Exclusive.antt =====
-- Every sandbox has a network and a port of its own, whatever is created and deleted, and a creation
-- that fails leaves none behind (internal/worker_node/sandbox/firecracker/runtime.go and vm.go).
use dirigent.Prelude.{
  ℕ, ◌≤◌, ◌≡◌, ◌⊎◌, refl, inl, inr, String, List, ◌∷◌, Bool, true, false, none, some, arith,
  Bool-cases, Option-cases, if◌then◌else◌,
}
use dirigent.Prelude.Maps.{lookup, insert, remove, lookup-insert, IsMap, remove-IsMap, insert-IsMap}
use dirigent.Prelude.Names.{string_discrete}
use dirigent.Managers.{SandboxMetadata, add_sandbox, add_channel}
use dirigent.Rules.{add_rules}
use dirigent.Managers.Sandboxes.{remove-insert, delete_sandbox-some, delete_sandbox-none}
use dirigent.Firecracker.Counts.{
  Sandboxes, networks_of, holders_of, networks_of-insert, networks_of-remove, holders_of-insert,
  holders_of-remove,
}
use dirigent.Networks.{IpTool, NameFormats, NetworkPoolManager}
use dirigent.Networks.Hosts.{IsIpTool, Deletes}
use dirigent.Networks.Pools.{count_of, IsSound, give_up-IsSound}
use dirigent.Ports.{is_in_use, unassign_port}
use dirigent.Ports.Fresh.{unassigned, unassign_of_free}
use dirigent.Firecracker.{
  Hypervisor, VmControlStructure, FirecrackerRuntime, SandboxRequest, SandboxCreationStatus,
  delete_sandbox, take_snapshot, complete_sandbox, readiness_probe, iptables_of,
}

unassigned_head :
    (port : ℕ) (used : List ℕ)
    → is_in_use port used ≡ false
    → unassign_port port (port ∷ used) ≡ used
unfolding unassign_port
unassigned_head port used free = ground (arith, unassign_of_free port used free)

module _ (hv : Hypervisor) (ip : IpTool) (l : IsIpTool ip) (ds : Deletes ip) where
  module _ (nf : NameFormats) (draw draw_id : ℕ → ℕ) (foreign : String → ℕ) where
    -- The pool and the sandboxes share no network and lose none, no two sandboxes have the same
    -- network or the same port, and the ports of the sandboxes are in use.
    pub record IsShared (ms : Sandboxes) (p : NetworkPoolManager × ip.State) (used : List ℕ)
        : Type 0 where
      pub is_map : IsMap string_discrete ms
      pub networks : IsSound ip l ds nf draw foreign (networks_of ms) p
      pub ports : (port : ℕ) → holders_of port ms ≤ (if is_in_use port used then 1 else 0)

    abbrev pub IsConsistent : FirecrackerRuntime hv ip → Type 0
    IsConsistent r = IsShared r.sandbox_manager.metadata r.network_manager r.ports_in_use

    -- DeleteSandbox frees the network and the port of the sandbox, and no others.
    pub delete_sandbox-IsConsistent :
        (id : String) (r : FirecrackerRuntime hv ip)
        → IsConsistent r
        → IsConsistent (delete_sandbox hv ip nf draw draw_id id r).1
    unfolding delete_sandbox
    delete_sandbox-IsConsistent id r c =
        let ms = r.sandbox_manager.metadata in
        elim (Option-cases (lookup string_discrete id ms)) [
          | inl e ↦ rw (delete_sandbox, delete_sandbox-none id r.sandbox_manager e) c
          | inr (m, e) ↦
              rw (delete_sandbox, delete_sandbox-some id m r.sandbox_manager e)
                (record {
                  is_map = remove-IsMap string_discrete id ms c.is_map;
                  networks =
                      give_up-IsSound ip l ds nf draw foreign
                        m.runtime_metadata.network_configuration r.network_manager.0
                        r.network_manager.1 (networks_of ms)
                        (networks_of (remove string_discrete id ms))
                        (λ n. networks_of-remove id m ms n c.is_map e) c.networks;
                  ports = λ port. ground (
                    arith,
                    c.ports port,
                    holders_of-remove id m ms port c.is_map e,
                    unassigned m.host_port port r.ports_in_use,
                  );
                })
        ]

    -- How a creation ends: with one sandbox more, on a port that was free, or with the sandboxes and
    -- the ports as they were.
    abbrev pub EndsConsistent :
        FirecrackerRuntime hv ip → SandboxCreationStatus × FirecrackerRuntime hv ip → Type 0
    EndsConsistent r (st, r') =
        IsConsistent r'
        × (((st.success ≡ true)
              × ((is_in_use st.host_port r.ports_in_use ≡ false)
                  × ((m : SandboxMetadata VmControlStructure) × ((m.host_port ≡ st.host_port)
                        × (r'.sandbox_manager.metadata
                            ≡ insert string_discrete st.id m r.sandbox_manager.metadata)))))
            ⊎ ((st.success ≡ false)
                × ((r'.sandbox_manager.metadata ≡ r.sandbox_manager.metadata)
                    × (r'.ports_in_use ≡ r.ports_in_use))))

    registered :
        (id : String) (m : SandboxMetadata VmControlStructure) (ms : Sandboxes)
        (p : NetworkPoolManager × ip.State) (used : List ℕ)
        → lookup string_discrete id ms ≡ none
        → is_in_use m.host_port used ≡ false
        → IsMap string_discrete ms
        → IsSound ip l ds nf draw foreign
            (some m.runtime_metadata.network_configuration ∷ networks_of ms)
            p
        → ((port : ℕ) → holders_of port ms ≤ (if is_in_use port used then 1 else 0))
        → IsShared (insert string_discrete id m ms) p (m.host_port ∷ used)
    unfolding count_of is_in_use
    registered id m ms p used fresh free is_map networks ports = record {
      is_map = insert-IsMap string_discrete id m ms is_map;
      networks =
          (λ n. ground (arith, networks.0 n, networks_of-insert id m ms n fresh), networks.1);
      ports = λ port. ground (arith, ports port, free, holders_of-insert id m ms port fresh);
    }

    take_snapshot_keeps :
        (id image : String) (passed : Bool) (r : FirecrackerRuntime hv ip)
        → let r' = (take_snapshot hv ip nf draw draw_id id image passed r).1 in
          (r'.sandbox_manager ≡ r.sandbox_manager)
          × ((r'.network_manager ≡ r.network_manager) × (r'.ports_in_use ≡ r.ports_in_use))
    unfolding take_snapshot
    take_snapshot_keeps id image passed r = ground arith

    deleted :
        (id : String) (m : SandboxMetadata VmControlStructure) (r : FirecrackerRuntime hv ip)
        → lookup string_discrete id r.sandbox_manager.metadata ≡ some m
        → let r' = (delete_sandbox hv ip nf draw draw_id id r).1 in
          (r'.sandbox_manager.metadata ≡ remove string_discrete id r.sandbox_manager.metadata)
          × (r'.ports_in_use ≡ unassign_port m.host_port r.ports_in_use)
    unfolding delete_sandbox
    deleted id m r e =
        rw (delete_sandbox, delete_sandbox-some id m r.sandbox_manager e) (refl, refl)

    pub complete_sandbox-EndsConsistent :
        (id : String) (request : SandboxRequest) (m : SandboxMetadata VmControlStructure) (pid : ℕ)
        (r0 r : FirecrackerRuntime hv ip)
        → lookup string_discrete id r0.sandbox_manager.metadata ≡ none
        → is_in_use m.host_port r0.ports_in_use ≡ false
        → IsConsistent r0
        → r.sandbox_manager ≡ r0.sandbox_manager
        → r.ports_in_use ≡ m.host_port ∷ r0.ports_in_use
        → IsSound ip l ds nf draw foreign
            (some m.runtime_metadata.network_configuration
              ∷ networks_of r0.sandbox_manager.metadata)
            r.network_manager
        → EndsConsistent r0 (complete_sandbox hv ip nf draw draw_id id request m pid r)
    unfolding complete_sandbox add_sandbox
    complete_sandbox-EndsConsistent id request m pid r0 r fresh free c same used sound =
        let ms = r0.sandbox_manager.metadata in
        let r1 : FirecrackerRuntime hv ip = record r {
          sandbox_manager = add_sandbox id m r.sandbox_manager;
          process_monitor = add_channel pid m.exit_status_channel r.process_monitor;
          host = add_rules (iptables_of hv ip) m.host_port m.ip m.guest_port r.host;
        } in
        let (passed, s) = hv.call (readiness_probe m.host_port) r1.host in
        let r2 : FirecrackerRuntime hv ip = record r1 { host = s } in
        let kept = take_snapshot hv ip nf draw draw_id id request.image passed r2 in
        let keeps = take_snapshot_keeps id request.image passed r2 in
        let base =
          registered id m ms r.network_manager r0.ports_in_use fresh free c.is_map sound c.ports in
        let md : kept.1.sandbox_manager.metadata ≡ insert string_discrete id m ms =
          ground (arith, keeps, same) in
        let ports : kept.1.ports_in_use ≡ m.host_port ∷ r0.ports_in_use =
          ground (arith, keeps, used) in
        let c' : IsConsistent kept.1 = rw (md, ports, keeps.1.0) base in
        let found : lookup string_discrete id kept.1.sandbox_manager.metadata ≡ some m =
          ground (arith, md, lookup-insert string_discrete id id m ms) in
        let gone = deleted id m kept.1 found in
        elim (Bool-cases kept.0) [
          | inl k ↦ rw (EndsConsistent, k) (c', inl (refl, (free, (m, (refl, md)))))
          | inr k ↦
              rw (EndsConsistent, k)
                (
                  delete_sandbox-IsConsistent id kept.1 c',
                  inr (
                    refl,
                    (
                      ground (arith, gone, md, remove-insert id m ms fresh),
                      ground (arith, gone, ports, unassigned_head m.host_port r0.ports_in_use free),
                    ),
                  ),
                )
        ]
