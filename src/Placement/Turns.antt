-- ===== src/Placement/Turns.antt =====
-- The choices of random and round-robin placement (internal/control_plane/placement_policy).
use dirigent.Prelude.{
  ℕ, zero, suc, ◌+◌, ◌%◌, ◌<◌, ◌≤◌, ◌≡◌, ◌==◌, ◌⊎◌, inl, inr, refl, true, String, List, [], ◌∷◌,
  none, some, All, length, get_elem?, get_elem?-some, arith, dec_lt, if◌then◌else◌,
}
use dirigent.Prelude.Results.{returns, waits}
use dirigent.Workers.{WorkerNode}
use dirigent.Endpoints.Evict.{IsDraw}
use dirigent.Placement.{get_schedulable_nodes, place_random, swap_loop, place_round_robin}

swap_loop_lem :
    (rounds n counter : ℕ)
    → swap_loop (suc rounds) n counter
      ≡ (if counter == counter % n then returns (counter % n, (counter % n + 1) % n) else waits)
unfolding swap_loop
swap_loop_lem zero n counter = ground arith
swap_loop_lem (suc rounds) n counter = ground (arith, swap_loop_lem rounds n counter)

small_mod : (k n : ℕ) → k < n → k % n ≡ k
small_mod k n h = grind arith

large_mod : (k n : ℕ) → 0 < n → n ≤ k → k % n < n
large_mod k n p h = grind arith

get_elem?-none {ℓ} : {A : Type ℓ} (xs : List A) (i : ℕ) → length xs ≤ i → get_elem? xs i ≡ none
get_elem?-none [] i h = refl
get_elem?-none (x ∷ xs) zero h = absurd (omega (arith, h))
get_elem?-none (x ∷ xs) (suc i) h = get_elem?-none xs i (omega (arith, h))

-- Round-robin placement on schedulable nodes takes the node at its counter, which then moves on to
-- the next one and from the last to the first, as long as the counter is below the number of
-- schedulable nodes. When nodes have gone away and it is not, the loop never ends, after any number
-- of rounds.
pub place_round_robin_turn :
    (rounds counter : ℕ) (storage : List (String × WorkerNode)) (node : WorkerNode)
    (nodes : List WorkerNode)
    → get_schedulable_nodes storage ≡ node ∷ nodes
    → place_round_robin (suc rounds) storage counter ≡ (elim (get_elem? (node ∷ nodes) counter) [
      | none ↦ waits
      | some chosen ↦ returns (some chosen, (counter + 1) % length (node ∷ nodes))
    ])
unfolding place_round_robin
place_round_robin_turn rounds counter storage node nodes e =
    let s = node ∷ nodes in
    elim (dec_lt counter (length s)) [
      | yes h ↦
          let (a, g) = get_elem?-some s counter h in
          ground
            (arith, e, g, swap_loop_lem rounds (length s) counter, small_mod counter (length s) h)
      | no h ↦ ground (
        arith,
        e,
        get_elem?-none s counter (omega (arith, h)),
        swap_loop_lem rounds (length s) counter,
        large_mod counter (length s) (omega arith) (omega (arith, h)),
      )
    ]

abbrev pub IsSchedulable : WorkerNode → Type 0
IsSchedulable node = node.schedulable ≡ true

get_schedulable_nodes-All :
    (storage : List (String × WorkerNode)) → All IsSchedulable (get_schedulable_nodes storage)
unfolding get_schedulable_nodes
get_schedulable_nodes-All [] = tt
get_schedulable_nodes-All ((key, m) ∷ ms) = ground (arith, get_schedulable_nodes-All ms)

All-get_elem? :
    (ns : List WorkerNode) (i : ℕ) (w : WorkerNode)
    → All IsSchedulable ns
    → get_elem? ns i ≡ some w
    → IsSchedulable w
All-get_elem? [] i w a e = absurd (ground (arith, e))
All-get_elem? (n ∷ ns) zero w a e = ground (arith, e, a.0)
All-get_elem? (n ∷ ns) (suc i) w a e = All-get_elem? ns i w a.1 e

-- What random placement chooses from the schedulable nodes.
place_random_among :
    (draw : ℕ → ℕ) (storage : List (String × WorkerNode)) (ns : List WorkerNode)
    → IsDraw draw
    → get_schedulable_nodes storage ≡ ns
    → All IsSchedulable ns
    → ((place_random draw storage ≡ returns none) × (ns ≡ []))
      ⊎ ((w : WorkerNode) × ((place_random draw storage ≡ returns (some w)) × IsSchedulable w))
unfolding place_random
place_random_among draw storage [] r e a = inl (ground (arith, e), refl)
place_random_among draw storage (n ∷ ns) r e a =
    let i = draw (length (n ∷ ns)) in
    let (w, g) = get_elem?-some (n ∷ ns) i (r (length (n ∷ ns)) (omega arith)) in
    inr (w, (ground (arith, e, g), All-get_elem? (n ∷ ns) i w a g))

-- Random placement never panics: it chooses a schedulable node, or none exactly when there is none.
pub place_random-IsSchedulable :
    (draw : ℕ → ℕ) (storage : List (String × WorkerNode))
    → IsDraw draw
    → ((place_random draw storage ≡ returns none) × (get_schedulable_nodes storage ≡ []))
      ⊎ ((w : WorkerNode) × ((place_random draw storage ≡ returns (some w)) × IsSchedulable w))
unfolding place_random
place_random-IsSchedulable draw storage r =
    place_random_among draw storage (get_schedulable_nodes storage) r refl
      (get_schedulable_nodes-All storage)
