-- ===== src/Firecracker/Creation.antt =====
-- CreateSandbox of internal/worker_node/sandbox/firecracker/runtime.go, with StartFirecrackerVM of
-- vm.go: what each outcome leaves.
use dirigent.Prelude.{
  ℕ, ◌+◌, ◌<◌, ◌≡◌, refl, inl, inr, String, List, ◌∷◌, true, false, Option, none, some, arith,
  Bool-cases, Option-cases, subst,
}
use dirigent.Prelude.Maps.{lookup}
use dirigent.Prelude.Names.{string_discrete}
use dirigent.Prelude.Results.{Result, returns, waits, panics, Result-cases}
use dirigent.Networks.{IpTool, NameFormats, NetworkConfig, get_one_config, give_up_network}
use dirigent.Networks.Hosts.{IsIpTool, Deletes}
use dirigent.Networks.Pools.{count_of, IsSound, HasGot, get_one_config-IsSound, give_up-IsSound}
use dirigent.Ports.{assign_random_port, unassign_port}
use dirigent.Ports.Fresh.{assign_random_port-unassign_port, assigned_head}
use dirigent.Firecracker.{
  Hypervisor, VmControlStructure, SnapshotMetadata, FirecrackerRuntime, SandboxRequest,
  SandboxCreationStatus, start_machine, start_firecracker_vm, create_metadata, create_sandbox,
  failed,
}
use dirigent.Firecracker.Counts.{networks_of}
use dirigent.Firecracker.Exclusive.{IsConsistent, EndsConsistent, complete_sandbox-EndsConsistent}

module _ (hv : Hypervisor) (ip : IpTool) (l : IsIpTool ip) (ds : Deletes ip) where
  module _ (nf : NameFormats) (draw draw_id : ℕ → ℕ) (foreign : String → ℕ) where
    -- A machine that starts has a network of its own, and one that fails to has given it back; the
    -- sandboxes and the ports are the same.
    abbrev StartsSound :
        List (Option NetworkConfig)
        → FirecrackerRuntime hv ip
        → Result (Option NetworkConfig × FirecrackerRuntime hv ip)
        → Type 0
    StartsSound in_use r waits = Unit
    StartsSound in_use r panics = Unit
    StartsSound in_use r (returns (none, r')) =
        IsSound ip l ds nf draw foreign in_use r'.network_manager
        × ((r'.sandbox_manager ≡ r.sandbox_manager) × (r'.ports_in_use ≡ r.ports_in_use))
    StartsSound in_use r (returns (some config, r')) =
        IsSound ip l ds nf draw foreign (some config ∷ in_use) r'.network_manager
        × ((r'.sandbox_manager ≡ r.sandbox_manager) × (r'.ports_in_use ≡ r.ports_in_use))

    start_firecracker_vm-StartsSound :
        (id : String) (snapshot : Option SnapshotMetadata) (in_use : List (Option NetworkConfig))
        (r : FirecrackerRuntime hv ip)
        → IsSound ip l ds nf draw foreign in_use r.network_manager
        → StartsSound in_use r (start_firecracker_vm hv ip nf draw draw_id id snapshot r)
    unfolding start_firecracker_vm count_of
    start_firecracker_vm-StartsSound id snapshot in_use r i =
        let (np, s) = r.network_manager in
        let got = get_one_config-IsSound ip l ds nf draw foreign np s in_use i in
        elim (Option-cases (get_one_config ip nf draw r.network_manager)) [
          | inl e ↦ rw (StartsSound, e) tt
          | inr ((none, (low, p)), e) ↦
              let sound = subst (λ x. HasGot ip l ds nf draw foreign in_use x) e got in
              rw (StartsSound, e) ((λ n. ground (arith, sound.0 n), sound.1), (refl, refl))
          | inr ((some config, (low, p)), e) ↦
              let sound = subst (λ x. HasGot ip l ds nf draw foreign in_use x) e got in
              rw (StartsSound, e)
                (elim (Bool-cases (start_machine hv ip id config snapshot r.host).0) [
                  | inl o ↦ rw (StartsSound, o) (sound, (refl, refl))
                  | inr o ↦
                      rw (StartsSound, o)
                        (
                          give_up-IsSound ip l ds nf draw foreign config p.0 p.1
                              (some config ∷ in_use) in_use (λ n. refl) sound,
                          (refl, refl),
                        )
                ])
        ]

    -- A failure that leaves the sandboxes and the ports, and a sound pool.
    failure-EndsConsistent :
        (st : SandboxCreationStatus) (r r1 : FirecrackerRuntime hv ip)
        → st.success ≡ false
        → IsConsistent hv ip l ds nf draw draw_id foreign r
        → r1.sandbox_manager ≡ r.sandbox_manager
        → r1.ports_in_use ≡ r.ports_in_use
        → IsSound ip l ds nf draw foreign
            (networks_of r.sandbox_manager.metadata)
            r1.network_manager
        → EndsConsistent hv ip l ds nf draw draw_id foreign r (st, r1)
    failure-EndsConsistent st r r1 e c same used sound =
        let shared : IsConsistent hv ip l ds nf draw draw_id foreign r1 =
          rw (same, used) (record { is_map = c.is_map; networks = sound; ports = c.ports }) in
        (shared, inr (e, (ground (arith, same), used)))

    abbrev pub EndsWell :
        FirecrackerRuntime hv ip
        → Result (SandboxCreationStatus × FirecrackerRuntime hv ip)
        → Type 0
    EndsWell r waits = Unit
    EndsWell r panics = Unit
    EndsWell r (returns x) = EndsConsistent hv ip l ds nf draw draw_id foreign r x

    -- Where CreateSandbox returns, the sandbox's random name is new, and `ip` carries out every
    -- deletion of what is there: the sandboxes have networks and ports of their own as before. If
    -- it succeeds there is one sandbox more, under the name and on the port that it returns, which
    -- was free; if it fails, the sandboxes and the ports in use are what they were, and the network
    -- has been given back.
    pub create_sandbox-EndsWell :
        (rounds : ℕ) (ports : ℕ → ℕ) (request : SandboxRequest) (r : FirecrackerRuntime hv ip)
        → ((n : ℕ) → ports n < 64_000)
        → lookup string_discrete (nf.net_ns_name (draw_id r.ids)) r.sandbox_manager.metadata ≡ none
        → IsConsistent hv ip l ds nf draw draw_id foreign r
        → EndsWell r (create_sandbox hv ip nf draw draw_id rounds ports request r)
    unfolding create_sandbox count_of
    create_sandbox-EndsWell rounds ports request r range fresh c =
        let id = nf.net_ns_name (draw_id r.ids) in
        let snapshot = lookup string_discrete request.image r.snapshot_manager in
        let r' : FirecrackerRuntime hv ip = record r { ids = r.ids + 1 } in
        let in_use = networks_of r.sandbox_manager.metadata in
        let start = start_firecracker_vm hv ip nf draw draw_id id snapshot r' in
        let started = start_firecracker_vm-StartsSound id snapshot in_use r' c.networks in
        elim (Result-cases start) [
          | inl ((none, r1), e) ↦
              let started' = subst (λ x. StartsSound in_use r' x) e started in
              rw (EndsWell, e)
                (failure-EndsConsistent (failed "" true) r r1 refl c started'.1.0 started'.1.1
                  started'.0)
          | inl ((some config, r1), e) ↦
              let (sound, (same, used)) = subst (λ x. StartsSound in_use r' x) e started in
              rw (EndsWell, e)
                (elim (Option-cases (assign_random_port rounds ports r1.ports_in_use)) [
                  | inl f ↦ rw (EndsWell, f) tt
                  | inr ((port, taken), f) ↦
                      let assigned =
                        assign_random_port-unassign_port rounds ports r1.ports_in_use taken port
                          range f in
                      let head = assigned_head rounds ports r1.ports_in_use taken port f in
                      let vmcs : VmControlStructure = record {
                        sandbox_id = id;
                        network_configuration = config;
                      } in
                      let m = create_metadata hv ip request vmcs port r1.channels in
                      let r2 : FirecrackerRuntime hv ip = record r1 {
                        ports_in_use = taken;
                        channels = r1.channels + 1;
                      } in
                      let stopped : FirecrackerRuntime hv ip = record r2 {
                        network_manager = give_up_network ip nf draw config r1.network_manager;
                        ports_in_use = unassign_port port taken;
                      } in
                      rw (EndsWell, f)
                        (elim (Option-cases (hv.pid id r1.host)) [
                          | inl g ↦
                              rw (EndsWell, g)
                                (failure-EndsConsistent (failed "" true) r stopped refl c same
                                  (ground (arith, assigned, used))
                                  (give_up-IsSound ip l ds nf draw foreign config
                                    r1.network_manager.0 r1.network_manager.1 (some config ∷ in_use)
                                    in_use (λ n. refl) sound))
                          | inr (pid, g) ↦
                              rw (EndsWell, g)
                                (complete_sandbox-EndsConsistent hv ip l ds nf draw draw_id foreign
                                  id request m pid r r2 fresh (ground (arith, assigned, used)) c
                                  same (ground (arith, head, used)) sound)
                        ])
                ])
          | inr (inl e) ↦ rw (EndsWell, e) tt
          | inr (inr e) ↦ rw (EndsWell, e) tt
        ]
