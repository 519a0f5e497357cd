-- ===== src/Placement.antt =====
-- internal/control_plane/placement_policy: resource_map.go, placement_policy.go, random.go and
-- round_robin.go. A storage is the list of its entries in the order in which the map is visited, and
-- `draw` is rand.Intn. Resources are uint64.
pub mod Kubernetes
pub mod Turns
pub mod Scores
pub mod Selection
mod Tests
use dirigent.Prelude.{
  ℕ, zero, suc, ◌+◌, ◌-◌, ◌*◌, ◌%◌, ◌==◌, Bool, true, false, String, List, [], ◌∷◌, Option, none,
  some, length, get_elem?, map, if◌then◌else◌,
}
use dirigent.Prelude.Results.{Result, returns, waits, panics, ◌>>=◌, or_panic}
use dirigent.Workers.{WorkerNode}

abbrev pub wrap64 : ℕ → ℕ
wrap64 n = n % 18_446_744_073_709_551_616

-- The map always has the two keys that CreateResourceMap sets.
pub record ResourceMap : Type 0 where
  pub cpu : ℕ
  pub memory : ℕ

unfoldable pub extend_cpu : ResourceMap → ResourceMap
extend_cpu r = record r { cpu = wrap64 (r.cpu * 1000) }

unfoldable pub sum_resources : ResourceMap → ResourceMap → ResourceMap
sum_resources a b = record { cpu = wrap64 (a.cpu + b.cpu); memory = wrap64 (a.memory + b.memory) }

-- A difference wraps.
abbrev pub sub64 : ℕ → ℕ → ℕ
sub64 a b = wrap64 (a + 18_446_744_073_709_551_616 - b)

unfoldable pub subtract_resources : ResourceMap → ResourceMap → ResourceMap
subtract_resources a b = record { cpu = sub64 a.cpu b.cpu; memory = sub64 a.memory b.memory }

unfoldable pub sum_all_resource_types : ResourceMap → ℕ
sum_all_resource_types r = wrap64 (wrap64 (0 + r.cpu) + r.memory)

-- getSchedulableNodes
unfoldable pub get_schedulable_nodes : List (String × WorkerNode) → List WorkerNode
get_schedulable_nodes [] = []
get_schedulable_nodes ((key, node) ∷ nodes) =
    if node.schedulable then node ∷ get_schedulable_nodes nodes else get_schedulable_nodes nodes

-- Place of random.go
unfoldable pub place_random : (ℕ → ℕ) → List (String × WorkerNode) → Result (Option WorkerNode)
unfolding get_schedulable_nodes
place_random draw storage = elim (get_schedulable_nodes storage) [
  | [] ↦ returns none
  | (node ∷ nodes) ↦ do
    chosen ← or_panic (get_elem? (node ∷ nodes) (draw (length (node ∷ nodes))))
    returns (some chosen)
]

-- The loop of Place in round_robin.go, with the rounds left, for a counter that no other goroutine
-- touches meanwhile. A loop that does not end waits for ever.
unfoldable pub swap_loop : ℕ → ℕ → ℕ → Result (ℕ × ℕ)
swap_loop zero n counter = waits
swap_loop (suc rounds) n counter =
    let index = counter % n in
    let more = swap_loop rounds n counter in
    if counter == index then returns (index, (index + 1) % n) else more

-- Place of round_robin.go, with the counter after it.
unfoldable pub place_round_robin :
    ℕ → List (String × WorkerNode) → ℕ → Result (Option WorkerNode × ℕ)
unfolding get_schedulable_nodes swap_loop
place_round_robin rounds storage counter = elim (get_schedulable_nodes storage) [
  | [] ↦ returns (none, counter)
  | (node ∷ nodes) ↦ do
    (index, counter') ← swap_loop rounds (length (node ∷ nodes)) counter
    chosen ← or_panic (get_elem? (node ∷ nodes) index)
    returns (some chosen, counter')
]
