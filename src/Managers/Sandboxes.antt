-- ===== src/Managers/Sandboxes.antt =====
-- The sandboxes of a worker node (internal/worker_node/managers/sandbox_manager.go).
use dirigent.Prelude.{◌≡◌, String, List, [], ◌∷◌, none, some, arith}
use dirigent.Prelude.Maps.{lookup, insert, remove, lookup-insert, remove_of_none}
use dirigent.Prelude.Names.{string_discrete}
use dirigent.Managers.{SandboxManager, SandboxMetadata, add_sandbox, delete_sandbox}

pub remove-insert :
    {R : Type 0} (key : String) (m : SandboxMetadata R) (ms : List (String × SandboxMetadata R))
    → lookup string_discrete key ms ≡ none
    → remove string_discrete key (insert string_discrete key m ms) ≡ ms
unfolding lookup insert remove
remove-insert {R} key m [] n = ground arith
remove-insert {R} key m ((k, v) ∷ ms) n =
    ground (arith, remove-insert key m ms, remove_of_none string_discrete key ms)

-- A sandbox that was added is handed back by its deletion, which leaves the manager as it was before,
-- if its key was not taken; and a second deletion hands back nothing.
pub delete_sandbox-add_sandbox :
    {R : Type 0} (key : String) (m : SandboxMetadata R) (sm : SandboxManager R)
    → lookup string_discrete key sm.metadata ≡ none
    → (delete_sandbox key (add_sandbox key m sm) ≡ (some m, sm))
      × (delete_sandbox key sm ≡ (none, sm))
unfolding delete_sandbox add_sandbox
delete_sandbox-add_sandbox key m sm n = ground (
  arith,
  n,
  remove-insert key m sm.metadata n,
  lookup-insert string_discrete key key m sm.metadata,
)

pub delete_sandbox-some :
    {R : Type 0} (key : String) (m : SandboxMetadata R) (sm : SandboxManager R)
    → lookup string_discrete key sm.metadata ≡ some m
    → delete_sandbox key sm
      ≡ (some m, record sm { metadata = remove string_discrete key sm.metadata })
unfolding delete_sandbox
delete_sandbox-some key m sm e = ground (arith, e)

pub delete_sandbox-none :
    {R : Type 0} (key : String) (sm : SandboxManager R)
    → lookup string_discrete key sm.metadata ≡ none
    → delete_sandbox key sm ≡ (none, sm)
unfolding delete_sandbox
delete_sandbox-none key sm e = ground (arith, e)
