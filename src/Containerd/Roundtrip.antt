-- ===== src/Containerd/Roundtrip.antt =====
-- Creating and deleting a container (internal/worker_node/sandbox/containerd/runtime.go).
use dirigent.Prelude.{
  ℕ, ◌<◌, ◌≡◌, ◌≢◌, ◌+◌, ap, refl, inl, inr, true, false, String, List, none, some, arith,
  Bool-cases, Option-cases, ◌⊎◌,
}
use dirigent.Prelude.Maps.{lookup, lookup-insert}
use dirigent.Prelude.Names.{string_discrete}
use dirigent.Prelude.Results.{Result, returns, waits, panics}
use dirigent.Managers
use dirigent.Managers.{SandboxManager, SandboxMetadata, add_sandbox}
use dirigent.Managers.Sandboxes.{delete_sandbox-add_sandbox}
use dirigent.Ports.{is_in_use, assign_random_port, unassign_port}
use dirigent.Ports.Fresh.{assign_random_port-unassign_port}
use dirigent.Containerd.{
  ContainerLibrary, ContainerRequest, CreationStatus, ContainerdRuntime, get_image, start_container,
  register_container, create_sandbox, delete_found, delete_sandbox, new_container,
}

module _ (lib : ContainerLibrary) (name_of : ℕ → String) where
  -- The sandboxes and the ports of two states are the same.
  abbrev pub IsAlike : ContainerdRuntime lib → ContainerdRuntime lib → Type 0
  IsAlike r r' = (r'.sandbox_manager ≡ r.sandbox_manager) × (r'.ports_in_use ≡ r.ports_in_use)

  -- What a creation leads to: the sandbox can be deleted again, whatever the deletion answers, or
  -- nothing of it is left here.
  abbrev pub IsReversible :
      ContainerdRuntime lib → Result (CreationStatus × ContainerdRuntime lib) → Type 0
  IsReversible r waits = Unit
  IsReversible r panics = Unit
  IsReversible r (returns (st, r')) =
      ((st.success ≡ true)
        × ((is_in_use st.host_port r.ports_in_use ≡ false)
            × ((lookup string_discrete st.id r'.sandbox_manager.metadata ≢ none)
                × IsAlike r (delete_sandbox lib st.id r').1)))
      ⊎ ((st.success ≡ false) × IsAlike r r')

  get_image_keeps :
      (url : String) (r : ContainerdRuntime lib)
      → let r' = (get_image lib url r).1 in
        (r'.sandbox_manager ≡ r.sandbox_manager)
        × ((r'.ports_in_use ≡ r.ports_in_use) × (r'.drawn ≡ r.drawn))
  unfolding get_image
  get_image_keeps url r = ground arith

  deleted-IsAlike :
      (id : String) (m : SandboxMetadata String) (r r' : ContainerdRuntime lib)
      → lookup string_discrete id r.sandbox_manager.metadata ≡ none
      → r'.sandbox_manager ≡ add_sandbox id m r.sandbox_manager
      → unassign_port m.host_port r'.ports_in_use ≡ r.ports_in_use
      → IsAlike r (delete_sandbox lib id r').1
  unfolding delete_sandbox delete_found add_sandbox
  deleted-IsAlike id m r r' fresh same ports =
      let eq : Managers.delete_sandbox id r'.sandbox_manager ≡ (some m, r.sandbox_manager) =
        rw same (delete_sandbox-add_sandbox id m r.sandbox_manager fresh).0 in
      rw (delete_sandbox, eq) (refl, ports)

  registered :
      (name : String) (request : ContainerRequest) (port : ℕ) (in_use : List ℕ)
      (r r3 : ContainerdRuntime lib)
      → lookup string_discrete name r.sandbox_manager.metadata ≡ none
      → r3.sandbox_manager ≡ r.sandbox_manager
      → unassign_port port in_use ≡ r.ports_in_use
      → let r' = (register_container lib name_of name request port in_use r3).1 in
        (lookup string_discrete name r'.sandbox_manager.metadata ≢ none)
        × IsAlike r (delete_sandbox lib name r').1
  unfolding register_container add_sandbox
  registered name request port in_use r r3 fresh same ports =
      let r' = (register_container lib name_of name request port in_use r3).1 in
      let pid = lib.pid name r3.host in
      let m : SandboxMetadata String = record {
        service_name = request.name;
        runtime_metadata = name;
        host_port = port;
        ip = lib.ip name r3.host;
        guest_port = request.guest_port;
        net_ns = lib.net_ns pid;
        exit_status_channel = r3.channels;
      } in
      (
        λ n.
            ground
              (arith, n, lookup-insert string_discrete name name m r3.sandbox_manager.metadata),
        deleted-IsAlike name m r r' fresh (ap (add_sandbox name m) same) ports,
      )

  -- Where CreateSandbox returns and the container's random name is new: if it succeeds, its port
  -- was free, and DeleteSandbox leaves the sandboxes and the ports in use as they were before the
  -- creation, however the deletion of the container goes on; if it fails, it has changed neither.
  -- The channel of the process monitor is not compared: nothing removes it.
  pub create_sandbox-IsReversible :
      (rounds : ℕ) (ports : ℕ → ℕ) (request : ContainerRequest) (r : ContainerdRuntime lib)
      → ((n : ℕ) → ports n < 64_000)
      → lookup string_discrete (name_of r.drawn) r.sandbox_manager.metadata ≡ none
      → IsReversible r (create_sandbox lib name_of rounds ports request r)
  unfolding create_sandbox register_container
  create_sandbox-IsReversible rounds ports request r range fresh =
      let got = get_image lib request.image r in
      let alike = get_image_keeps request.image r in
      let name = name_of got.1.drawn in
      let made = lib.call (new_container name request.image) got.1.host in
      let started = start_container lib name made.1 in
      let failed : IsAlike r got.1 = (alike.0, alike.1.0) in
      elim (Bool-cases got.0) [
        | inr e ↦ rw (IsReversible, e) (inr (refl, failed))
        | inl e ↦
            rw (IsReversible, e)
              (elim (Bool-cases made.0) [
                | inr f ↦ rw (IsReversible, f) (inr (refl, failed))
                | inl f ↦
                    rw (IsReversible, f)
                      (elim (Bool-cases started.0) [
                        | inr g ↦ rw (IsReversible, g) (inr (refl, failed))
                        | inl g ↦
                            rw (IsReversible, g)
                              (elim (Option-cases
                                (assign_random_port rounds ports got.1.ports_in_use)) [
                                  | inl h ↦ rw (IsReversible, h) tt
                                  | inr ((port, in_use), h) ↦
                                      let assigned =
                                        assign_random_port-unassign_port rounds ports
                                          got.1.ports_in_use in_use port range h in
                                      let r3 : ContainerdRuntime lib = record got.1 {
                                        drawn = got.1.drawn + 1;
                                        host = started.1;
                                      } in
                                      let back =
                                        registered name request port in_use r r3
                                          (rw alike.1.1 fresh) alike.0
                                          (ground (arith, assigned, alike)) in
                                      rw (IsReversible, h)
                                        (inl (refl, (ground (arith, assigned, alike), back)))
                                ])
                      ])
              ])
      ]
