-- ===== src/Registry/Restart.antt =====
-- The worker nodes survive a restart (internal/control_plane/reconstruction.go).
use dirigent.Prelude.{
  ℕ, ◌≡◌, inl, inr, Option-cases, refl, Bool, true, String, List, [], ◌∷◌, none, some, arith,
}
use dirigent.Prelude.Maps.{lookup, IsMap, lookup-insert}
use dirigent.Prelude.Names.{string_discrete}
use dirigent.Sync.{Structure, new_structure, set}
use dirigent.Workers.{
  WorkerNode, WorkerNodeConfiguration, new_worker_node, get_worker_node_configuration,
}
use dirigent.Registry.{ControlPlane}
use dirigent.Registry.Synced.{IsSynced, known}
use dirigent.Registry.Reconstruction.{reconnect_workers, reconstruct_workers_state}

-- Every persisted node stands under its own name.
abbrev IsNamed : List (String × WorkerNodeConfiguration) → Type 0
IsNamed m =
    (name : String) (info : WorkerNodeConfiguration)
    → lookup string_discrete name m ≡ some info
    → info.name ≡ name

lookup-reconnect_workers :
    (now : ℕ) (connects : String → Bool) (db : List (String × WorkerNodeConfiguration))
    (ni : Structure WorkerNode) (name : String)
    → IsMap string_discrete db
    → IsNamed db
    → ((key : String) → connects key ≡ true)
    → lookup string_discrete name (reconnect_workers now connects db ni).internal_map
      ≡ (elim (lookup string_discrete name db) [
        | none ↦ lookup string_discrete name ni.internal_map
        | some info ↦ some (new_worker_node now info)
      ])
unfolding reconnect_workers set lookup
lookup-reconnect_workers now connects [] ni name m n a = refl
lookup-reconnect_workers now connects ((key, info) ∷ rest) ni name m n a =
    let named : info.name ≡ key = n key info (ground arith) in
    let node = new_worker_node now info in
    let tail =
      lookup-reconnect_workers now connects rest (set info.name node ni) name m.1
        (λ k i l. n k i (ground (arith, l, m.0))) a in
    ground (
      arith,
      tail,
      named,
      a info.name,
      lookup-insert string_discrete info.name name node ni.internal_map,
      m.0,
    )

module _ {F : Type 0} where
  -- The nodes that a control plane has persisted are the ones that a new leader knows once it has
  -- read them back, when all of them can be connected to: each under its name, with its
  -- configuration, and no other.
  pub known-reconstruct_workers_state :
      (now : ℕ) (connects : String → Bool) (c : ControlPlane F) (name : String)
      → IsSynced c
      → ((key : String) → connects key ≡ true)
      → known name
          (reconstruct_workers_state now connects (record c { ni_storage = new_structure }))
        ≡ known name c
  unfolding reconstruct_workers_state new_worker_node get_worker_node_configuration new_structure
      lookup
  known-reconstruct_workers_state now connects c name s a =
      let restored =
        lookup-reconnect_workers now connects c.workers new_structure name s.is_map s.named a in
      elim (Option-cases (lookup string_discrete name c.workers)) [
        | inl n ↦ rw (restored, n, s.agrees name, n) refl
        | inr (info, n) ↦ rw (restored, n, s.agrees name, n) refl
      ]
