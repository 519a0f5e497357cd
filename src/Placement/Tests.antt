-- ===== src/Placement/Tests.antt =====
-- A cluster of three nodes, one of which is not schedulable.
use dirigent.Prelude.{
  ℕ, ◌-◌, ◌≡◌, ◌⊎◌, refl, Bool, true, false, String, List, [], ◌∷◌, none, some, arith,
}
use dirigent.Prelude.Int.{pos}
use dirigent.Prelude.Names.{string_discrete}
use dirigent.Prelude.Maps.{lookup}
use dirigent.Prelude.Results.{returns, waits, panics}
use dirigent.Workers.{WorkerNode}
use dirigent.Endpoints.Evict.{IsDraw}
use dirigent.Placement.{get_schedulable_nodes, place_random, place_round_robin, ResourceMap}
use dirigent.Placement.Turns.{IsSchedulable, place_round_robin_turn, place_random-IsSchedulable}
use dirigent.Placement.Kubernetes.{
  ScoreFloats, select_one_machine, select_loop, score_of, place_kubernetes,
}
use dirigent.Placement.Selection.{
  IsEntry, AtMost, select_one_machine_best, select_one_machine_unlucky, place_kubernetes-panics,
}

abbrev worker : String → Bool → WorkerNode
worker name schedulable = record {
  name = name;
  ip = "10.0.0.1";
  port = pos 9000;
  cpu_usage = 0;
  memory_usage = 0;
  cpu_cores = 8;
  memory = 64;
  last_heartbeat = 0;
  endpoint_map = [];
  schedulable = schedulable;
}

abbrev cluster : List (String × WorkerNode)
cluster = ("a", worker "a" true) ∷ ("b", worker "b" false) ∷ ("c", worker "c" true) ∷ []

abbrev last : ℕ → ℕ
last n = n - 1

last-IsDraw : IsDraw last
last-IsDraw n h = omega arith

schedulable : get_schedulable_nodes cluster ≡ worker "a" true ∷ worker "c" true ∷ []
unfolding get_schedulable_nodes
schedulable = refl

-- The counter was left at 3 by a larger cluster.
place_round_robin_turn_example : place_round_robin 6 cluster 3 ≡ waits
place_round_robin_turn_example =
    place_round_robin_turn 5 3 cluster (worker "a" true) (worker "c" true ∷ []) schedulable

place_random-IsSchedulable_example :
    ((place_random last cluster ≡ returns none) × (get_schedulable_nodes cluster ≡ []))
    ⊎ ((w : WorkerNode) × ((place_random last cluster ≡ returns (some w)) × IsSchedulable w))
place_random-IsSchedulable_example = place_random-IsSchedulable last cluster last-IsDraw

abbrev resources : ℕ → ℕ → ResourceMap
resources cpu memory = record { cpu = cpu; memory = memory }

abbrev draw_last : String → ℕ → ℕ
draw_last key n = n - 1

abbrev draw_one : String → ℕ → ℕ
draw_one key n = 1

abbrev scores : List (String × ℕ)
scores = ("a", 70) ∷ ("b", 20) ∷ ("c", 90) ∷ []

selected : select_one_machine draw_last scores cluster ≡ returns (some (worker "c" true))
unfolding select_one_machine select_loop lookup string_discrete
selected = refl

select_one_machine_best_example :
    (key : String) × (IsEntry key (worker "c" true) cluster
      × AtMost scores (score_of key scores) cluster)
select_one_machine_best_example =
    select_one_machine_best draw_last scores cluster (worker "c" true) selected

-- Floats that are numbers, without a fraction.
abbrev whole : ScoreFloats
whole = record {
  F = ℕ;
  of_uint64 = λ n. n;
  to_uint64 = λ n. n;
  one = 1;
  sub = λ a b. a - b;
  mul = λ a b. a;
  div = λ a b. a;
  abs = λ a. a;
  gt = λ a b. false;
}

place_kubernetes-panics_example : place_kubernetes whole draw_last cluster (resources 1 1) ≡ panics
place_kubernetes-panics_example = place_kubernetes-panics whole draw_last cluster (resources 1 1)

passed_over : AtMost [] 0 cluster
unfolding lookup
passed_over = (omega arith, (omega arith, (omega arith, tt)))

select_one_machine_unlucky_example : select_one_machine draw_one [] cluster ≡ returns none
select_one_machine_unlucky_example =
    select_one_machine_unlucky draw_one [] "a" (worker "a" true)
      (("b", worker "b" false) ∷ ("c", worker "c" true) ∷ []) passed_over
      (λ k n h. omega (arith, h))
