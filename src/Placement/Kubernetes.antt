-- ===== src/Placement/Kubernetes.antt =====
-- internal/control_plane/placement_policy/k8s_placement.go. `none` is a nil interface, whose methods
-- panic. The score of balanced allocation is over float64, which is a parameter.
use dirigent.Prelude.{
  ℕ, ◌+◌, ◌-◌, ◌*◌, ◌/◌, ◌==◌, Bool, String, List, [], ◌∷◌, ◌&&◌, Option, none, some, ltb, leb,
  if◌then◌else◌,
}
use dirigent.Prelude.Maps.{lookup, insert}
use dirigent.Prelude.Names.{string_discrete}
use dirigent.Prelude.Results.{Result, returns, panics, ◌>>=◌}
use dirigent.Sync.{Structure, set}
use dirigent.Workers.{WorkerNode}
use dirigent.Placement.{ResourceMap, wrap64, sum_resources}

-- The float64 operations of ScoreBalancedAllocation.
pub record ScoreFloats : Type 1 where
  pub F : Type 0
  pub of_uint64 : ℕ → F
  pub to_uint64 : F → ℕ
  pub one : F
  pub sub : F → F → F
  pub mul : F → F → F
  pub div : F → F → F
  pub abs : F → F
  pub gt : F → F → Bool

-- leastRequestedScore
unfoldable pub least_requested_score : ℕ → ℕ → ℕ
least_requested_score requested capacity =
    if capacity == 0
    then 0
    else if ltb capacity requested
    then 0
    else wrap64 ((capacity - requested) * 100) / capacity

-- ScoreFitLeastAllocated: both weights are 1.
unfoldable pub score_fit_least_allocated : ResourceMap → ResourceMap → ℕ
unfolding least_requested_score
score_fit_least_allocated installed requested =
    (least_requested_score requested.cpu installed.cpu
      + least_requested_score requested.memory installed.memory)
    / 2

module _ (f : ScoreFloats) where
  abbrev pub fraction : ℕ → ℕ → f.F
  fraction requested installed =
      let q = f.div (f.of_uint64 requested) (f.of_uint64 installed) in
      if f.gt q f.one then f.one else q

  -- ScoreBalancedAllocation, where there are always two resources.
  unfoldable pub score_balanced_allocation : ResourceMap → ResourceMap → ℕ
  score_balanced_allocation installed requested =
      let std = f.abs (
        f.div
          (f.sub (fraction requested.cpu installed.cpu)
            (fraction requested.memory installed.memory))
          (f.of_uint64 2)) in
      f.to_uint64 (f.mul (f.sub f.one std) (f.of_uint64 100))

  -- CreateScoringPipeline
  unfoldable pub create_scoring_pipeline : List (ResourceMap → ResourceMap → ℕ)
  create_scoring_pipeline = score_fit_least_allocated ∷ score_balanced_allocation ∷ []

-- The test of filterMachines.
unfoldable pub fits : ResourceMap → WorkerNode → Bool
fits r node = leb r.memory node.memory && (leb r.cpu node.cpu_cores && node.schedulable)

-- The loop of filterMachines.
unfoldable pub filter_loop :
    ResourceMap
    → List (String × WorkerNode)
    → Option (Structure WorkerNode)
    → Result (Option (Structure WorkerNode))
unfolding fits set
filter_loop r [] resulting = returns resulting
filter_loop r ((key, node) ∷ nodes) resulting = do
  resulting' ←
      if fits r node
      then elim resulting [ none ↦ panics | some s ↦ returns (some (set key node s)) ]
      else returns resulting
  filter_loop r nodes resulting'

-- filterMachines: resultingNodes is declared and never made.
unfoldable pub filter_machines :
    ResourceMap → List (String × WorkerNode) → Result (Option (Structure WorkerNode))
unfolding filter_loop
filter_machines r storage = filter_loop r storage none

unfoldable pub get_installed_resources : WorkerNode → ResourceMap
get_installed_resources m = record { cpu = m.cpu_cores; memory = m.memory }

unfoldable pub get_requested_resources : WorkerNode → ResourceMap → ResourceMap
unfolding sum_resources
get_requested_resources m request =
    sum_resources
      (record {
        cpu = wrap64 (m.cpu_usage * m.cpu_cores);
        memory = wrap64 (m.memory_usage * m.memory);
      })
      request

-- A score that is missing is 0.
abbrev pub score_of : String → List (String × ℕ) → ℕ
score_of key scores = elim (lookup string_discrete key scores) [ none ↦ 0 | some n ↦ n ]

-- The loops of prioritizeNodes, over the machines and over the algorithms.
unfoldable pub add_scores :
    (ResourceMap → ResourceMap → ℕ)
    → ResourceMap
    → List (String × WorkerNode)
    → List (String × ℕ)
    → List (String × ℕ)
unfolding get_installed_resources get_requested_resources
add_scores alg request [] scores = scores
add_scores alg request ((key, m) ∷ ms) scores =
    let sc = alg (get_installed_resources m) (get_requested_resources m request) in
    add_scores alg request ms
      (insert string_discrete key (wrap64 (score_of key scores + sc)) scores)

unfoldable pub run_pipeline :
    List (ResourceMap → ResourceMap → ℕ)
    → ResourceMap
    → List (String × WorkerNode)
    → List (String × ℕ)
    → List (String × ℕ)
unfolding add_scores
run_pipeline [] request nodes scores = scores
run_pipeline (alg ∷ algs) request nodes scores =
    run_pipeline algs request nodes (add_scores alg request nodes scores)

-- prioritizeNodes
unfoldable pub prioritize_nodes :
    List (ResourceMap → ResourceMap → ℕ)
    → Option (Structure WorkerNode)
    → ResourceMap
    → Result (List (String × ℕ))
unfolding run_pipeline
prioritize_nodes pipeline none request = panics
prioritize_nodes pipeline (some s) request =
    returns (run_pipeline pipeline request s.internal_map [])

pub record Candidate : Type 0 where
  pub selected : Option WorkerNode
  pub max_score : ℕ
  pub count_of_max_score : ℕ

-- The loop of selectOneMachine; `draw` is the draw for an entry.
unfoldable pub select_loop :
    (String → ℕ → ℕ) → List (String × ℕ) → List (String × WorkerNode) → Candidate → Candidate
select_loop draw scores [] c = c
select_loop draw scores ((key, m) ∷ ms) c =
    let sc = score_of key scores in
    let count = c.count_of_max_score + 1 in
    let better : Candidate = record { selected = some m; max_score = sc; count_of_max_score = 1 } in
    let next : Candidate =
      if ltb c.max_score sc
      then better
      else if sc == c.max_score
      then record c {
        count_of_max_score = count;
        selected = if draw key count == 0 then some m else c.selected;
      }
      else c in
    select_loop draw scores ms next

-- selectOneMachine, which ends the process when there is no candidate.
unfoldable pub select_one_machine :
    (String → ℕ → ℕ) → List (String × ℕ) → List (String × WorkerNode) → Result (Option WorkerNode)
unfolding select_loop
select_one_machine draw scores [] = panics
select_one_machine draw scores (m ∷ ms) =
    returns
      (select_loop draw scores (m ∷ ms)
        (record { selected = none; max_score = 0; count_of_max_score = 1 })).selected

-- Place of k8s_placement.go
unfoldable pub place_kubernetes :
    ScoreFloats
    → (String → ℕ → ℕ)
    → List (String × WorkerNode)
    → ResourceMap
    → Result (Option WorkerNode)
unfolding filter_machines prioritize_nodes create_scoring_pipeline select_one_machine
place_kubernetes f draw storage requested = do
  filtered ← filter_machines (record { cpu = 1; memory = 1 }) storage
  scores ← prioritize_nodes (create_scoring_pipeline f) filtered requested
  elim filtered [ none ↦ panics | some s ↦ select_one_machine draw scores s.internal_map ]
