-- ===== src/Daemon/Cleaning.antt =====
-- A worker node that stops lists no sandbox any more (internal/worker_node/worker_node.go), whichever
-- of its runtimes it has (internal/worker_node/sandbox).
use dirigent.Prelude.{
  ℕ, ◌≡◌, refl, sym, ap, ◌∙◌, inl, inr, Bool, true, false, String, List, [], ◌∷◌, none, ite, arith,
  Option-cases,
}
use dirigent.Prelude.Maps.{lookup, remove, keys, remove_of_none}
use dirigent.Prelude.Names.{string_discrete}
use dirigent.Managers.{SandboxMetadata}
use dirigent.Managers.Sandboxes.{delete_sandbox-some, delete_sandbox-none}
use dirigent.Networks.{IpTool, NameFormats}
use dirigent.Firecracker
use dirigent.Firecracker.{Hypervisor}
use dirigent.Containerd
use dirigent.Containerd.{ContainerLibrary}
use dirigent.Daemon.{RuntimeInterface, delete_each, clean_resources}

abbrev pub drop_key : String → List String → List String
drop_key k [] = []
drop_key k (j ∷ js) = ite (string_discrete j k) (drop_key k js) (j ∷ drop_key k js)

-- What a worker node relies on: a deletion takes the sandbox off the list, also when it fails.
pub record IsRuntime (rt : RuntimeInterface) : Type 0 where
  pub deleted :
      (k : String) (s : rt.State) → rt.keys (rt.delete_sandbox k s).1 ≡ drop_key k (rt.keys s)

abbrev drop_each : List String → List String → List String
drop_each [] js = js
drop_each (k ∷ ks) js = drop_each ks (drop_key k js)

abbrev is_listed : String → List String → Bool
is_listed k [] = false
is_listed k (j ∷ js) = ite (string_discrete j k) true (is_listed k js)

-- Every key of the first list is in the second.
abbrev AreListed : List String → List String → Type 0
AreListed [] ks = Unit
AreListed (j ∷ js) ks = (is_listed j ks ≡ true) × AreListed js ks

AreListed-cons : (k : String) (js ks : List String) → AreListed js ks → AreListed js (k ∷ ks)
AreListed-cons k [] ks a = tt
AreListed-cons k (j ∷ js) ks a = (ground (arith, a.0), AreListed-cons k js ks a.1)

AreListed-refl : (ks : List String) → AreListed ks ks
AreListed-refl [] = tt
AreListed-refl (k ∷ ks) = (ground arith, AreListed-cons k ks ks (AreListed-refl ks))

AreListed-drop_key :
    (k : String) (js ks : List String) → AreListed js (k ∷ ks) → AreListed (drop_key k js) ks
AreListed-drop_key k [] ks a = tt
AreListed-drop_key k (j ∷ js) ks a = ground (arith, a.0, AreListed-drop_key k js ks a.1)

drop_each_listed : (ks js : List String) → AreListed js ks → drop_each ks js ≡ []
drop_each_listed [] [] a = refl
drop_each_listed [] (j ∷ js) a = ground (arith, a.0)
drop_each_listed (k ∷ ks) js a = drop_each_listed ks (drop_key k js) (AreListed-drop_key k js ks a)

module _ (rt : RuntimeInterface) (laws : IsRuntime rt) where
  keys-delete_each :
      (ks : List String) (s : rt.State) → rt.keys (delete_each rt ks s) ≡ drop_each ks (rt.keys s)
  unfolding delete_each
  keys-delete_each [] s = refl
  keys-delete_each (k ∷ ks) s =
      keys-delete_each ks (rt.delete_sandbox k s).1 ∙ ap (drop_each ks) (laws.deleted k s)

  -- After CleanResources the runtime's manager lists no sandbox, also if deletions return an error.
  pub keys-clean_resources : (s : rt.State) → rt.keys (clean_resources rt s) ≡ []
  unfolding clean_resources
  keys-clean_resources s =
      keys-delete_each (rt.keys s) s
      ∙ drop_each_listed (rt.keys s) (rt.keys s) (AreListed-refl (rt.keys s))

keys-remove :
    {R : Type 0} (id : String) (ms : List (String × SandboxMetadata R))
    → keys (remove string_discrete id ms) ≡ drop_key id (keys ms)
unfolding remove
keys-remove id [] = refl
keys-remove id ((k, m) ∷ ms) = ground (arith, keys-remove id ms)

keys_without :
    {R : Type 0} (id : String) (ms : List (String × SandboxMetadata R))
    → lookup string_discrete id ms ≡ none
    → keys ms ≡ drop_key id (keys ms)
keys_without id ms e =
    ap (λ (m : List (String × SandboxMetadata _)). keys m)
      (sym (remove_of_none string_discrete id ms e))
    ∙ keys-remove id ms

module _ (hv : Hypervisor) (ip : IpTool) (nf : NameFormats) (draw draw_id : ℕ → ℕ) where
  -- The runtime for virtual machines, whose deletions never return an error.
  abbrev pub firecracker_runtime : RuntimeInterface
  firecracker_runtime = record {
    State = Firecracker.FirecrackerRuntime hv ip;
    keys = λ r. keys r.sandbox_manager.metadata;
    delete_sandbox = λ k r. (false, (Firecracker.delete_sandbox hv ip nf draw draw_id k r).1);
  }

  pub firecracker_runtime-IsRuntime : IsRuntime firecracker_runtime
  unfolding Firecracker.delete_sandbox
  firecracker_runtime-IsRuntime = record {
    deleted = λ k r.
        let ms = r.sandbox_manager.metadata in
        elim (Option-cases (lookup string_discrete k ms)) [
          | inl e ↦
              rw (Firecracker.delete_sandbox, delete_sandbox-none k r.sandbox_manager e)
                (keys_without k ms e)
          | inr (m, e) ↦
              rw (Firecracker.delete_sandbox, delete_sandbox-some k m r.sandbox_manager e)
                (keys-remove k ms)
        ];
  }

module _ (lib : ContainerLibrary) where
  -- The runtime for containers.
  abbrev pub containerd_runtime : RuntimeInterface
  containerd_runtime = record {
    State = Containerd.ContainerdRuntime lib;
    keys = λ r. keys r.sandbox_manager.metadata;
    delete_sandbox = λ k r. let ((ok, err), r') = Containerd.delete_sandbox lib k r in (err, r');
  }

  pub containerd_runtime-IsRuntime : IsRuntime containerd_runtime
  unfolding Containerd.delete_sandbox
  containerd_runtime-IsRuntime = record {
    deleted = λ k r.
        let ms = r.sandbox_manager.metadata in
        elim (Option-cases (lookup string_discrete k ms)) [
          | inl e ↦
              rw (Containerd.delete_sandbox, delete_sandbox-none k r.sandbox_manager e)
                (keys_without k ms e)
          | inr (m, e) ↦
              rw (Containerd.delete_sandbox, delete_sandbox-some k m r.sandbox_manager e)
                (keys-remove k ms)
        ];
  }
