-- ===== src/Placement/Selection.antt =====
-- Which machine is selected (internal/control_plane/placement_policy/k8s_placement.go).
use dirigent.Prelude.{
  ℕ, ◌+◌, ◌≤◌, ◌≡◌, ◌≢◌, ◌⊎◌, inl, inr, refl, sym, subst, String, List, [], ◌∷◌, none, some, ltb,
  ◌==◌, arith, if◌then◌else◌,
}
use dirigent.Prelude.Results.{returns, panics}
use dirigent.Workers.{WorkerNode}
use dirigent.Placement.{ResourceMap}
use dirigent.Placement.Kubernetes.{
  ScoreFloats, score_of, Candidate, select_loop, select_one_machine, filter_loop, filter_machines,
  prioritize_nodes, place_kubernetes,
}

abbrev pub IsEntry : String → WorkerNode → List (String × WorkerNode) → Type 0
IsEntry key w [] = ⊥
IsEntry key w ((j, m) ∷ ms) = ((j ≡ key) × (m ≡ w)) ⊎ IsEntry key w ms

-- No entry scores more than n.
abbrev pub AtMost : List (String × ℕ) → ℕ → List (String × WorkerNode) → Type 0
AtMost scores n [] = Unit
AtMost scores n ((j, m) ∷ ms) = (score_of j scores ≤ n) × AtMost scores n ms

module _ (draw : String → ℕ → ℕ) (scores : List (String × ℕ)) where
  next_candidate : String → WorkerNode → Candidate → Candidate
  next_candidate key m c =
      let sc = score_of key scores in
      let count = c.count_of_max_score + 1 in
      let better : Candidate = record {
        selected = some m;
        max_score = sc;
        count_of_max_score = 1;
      } in
      if ltb c.max_score sc
      then better
      else if sc == c.max_score
      then record c {
        count_of_max_score = count;
        selected = if draw key count == 0 then some m else c.selected;
      }
      else c

  select_loop-cons :
      (key : String) (m : WorkerNode) (ms : List (String × WorkerNode)) (c : Candidate)
      → select_loop draw scores ((key, m) ∷ ms) c
        ≡ select_loop draw scores ms (next_candidate key m c)
  unfolding select_loop next_candidate
  select_loop-cons key m ms c = refl

  next_candidate_lem :
      (key : String) (m : WorkerNode) (c : Candidate)
      → (let d = next_candidate key m c in
          (c.max_score ≤ d.max_score)
          × (score_of key scores ≤ d.max_score)
          × (((d.selected ≡ some m) × (d.max_score ≡ score_of key scores))
              ⊎ ((d.selected ≡ c.selected) × (d.max_score ≡ c.max_score))))
  unfolding next_candidate
  next_candidate_lem key m c = ground arith

  select_loop_bound :
      (ms : List (String × WorkerNode)) (c : Candidate)
      → (let d = select_loop draw scores ms c in
          (c.max_score ≤ d.max_score) × AtMost scores d.max_score ms)
  unfolding select_loop
  select_loop_bound [] c = (omega arith, tt)
  select_loop_bound ((key, m) ∷ ms) c =
      let d = next_candidate key m c in
      let q = select_loop_bound ms d in
      let n = next_candidate_lem key m c in
      subst (λ r. (c.max_score ≤ r.max_score) × AtMost scores r.max_score ((key, m) ∷ ms))
        (sym (select_loop-cons key m ms c))
        (omega (arith, q.0, n.0), (omega (arith, q.0, n.1), q.1))

  -- The selected machine is an entry whose score is the highest that was met, or the one at the start.
  abbrev IsChosen : List (String × WorkerNode) → Candidate → Candidate → WorkerNode → Type 0
  IsChosen ms c d w =
      ((key : String) × (IsEntry key w ms × (score_of key scores ≡ d.max_score)))
      ⊎ ((c.selected ≡ some w) × (c.max_score ≡ d.max_score))

  select_loop-IsChosen :
      (ms : List (String × WorkerNode)) (c : Candidate) (w : WorkerNode)
      → (select_loop draw scores ms c).selected ≡ some w
      → IsChosen ms c (select_loop draw scores ms c) w
  unfolding select_loop
  select_loop-IsChosen [] c w e = inr (e, refl)
  select_loop-IsChosen ((key, m) ∷ ms) c w e =
      let d = next_candidate key m c in
      let cons = select_loop-cons key m ms c in
      let n = next_candidate_lem key m c in
      subst (λ r. IsChosen ((key, m) ∷ ms) c r w) (sym cons)
        (elim (select_loop-IsChosen ms d w (ground (arith, cons, e))) [
          | inl (k, h) ↦ inl (k, (inr h.0, h.1))
          | inr h ↦ elim n.2 [
            | inl g ↦ inl (key, (inl (refl, ground (arith, g, h)), ground (arith, g, h)))
            | inr g ↦ inr (ground (arith, g, h), ground (arith, g, h))
          ]
        ])

  -- Nothing is selected only if every score is 0.
  select_loop-none :
      (ms : List (String × WorkerNode)) (c : Candidate)
      → (select_loop draw scores ms c).selected ≡ none
      → (c.selected ≡ none) × ((select_loop draw scores ms c).max_score ≡ c.max_score)
  unfolding select_loop
  select_loop-none [] c e = (e, refl)
  select_loop-none ((key, m) ∷ ms) c e =
      let cons = select_loop-cons key m ms c in
      let n = next_candidate_lem key m c in
      let q = select_loop-none ms (next_candidate key m c) (ground (arith, cons, e)) in
      elim n.2 [
        | inl g ↦ ground (arith, g, q.0)
        | inr g ↦ (ground (arith, g, q.0), ground (arith, cons, q.1, g))
      ]

  -- If selectOneMachine selects a machine, it is a candidate that no other one outscores.
  pub select_one_machine_best :
      (ms : List (String × WorkerNode)) (w : WorkerNode)
      → select_one_machine draw scores ms ≡ returns (some w)
      → (key : String) × (IsEntry key w ms × AtMost scores (score_of key scores) ms)
  unfolding select_one_machine
  select_one_machine_best [] w e = ground (arith, e)
  select_one_machine_best (m ∷ ms) w e =
      let c : Candidate = record { selected = none; max_score = 0; count_of_max_score = 1 } in
      let b = select_loop_bound (m ∷ ms) c in
      elim (select_loop-IsChosen (m ∷ ms) c w (ground (arith, e))) [
        | inl (k, h) ↦ (k, (h.0, subst (λ n. AtMost scores n (m ∷ ms)) (sym h.1) b.1))
        | inr h ↦ absurd (ground (arith, h.0))
      ]

  -- When selectOneMachine selects none of the candidates, all of them score 0.
  pub select_one_machine-none :
      (ms : List (String × WorkerNode))
      → select_one_machine draw scores ms ≡ returns none
      → AtMost scores 0 ms
  unfolding select_one_machine
  select_one_machine-none [] e = tt
  select_one_machine-none (m ∷ ms) e =
      let c : Candidate = record { selected = none; max_score = 0; count_of_max_score = 1 } in
      let b = select_loop_bound (m ∷ ms) c in
      subst (λ n. AtMost scores n (m ∷ ms)) (select_loop-none (m ∷ ms) c (ground (arith, e))).1 b.1

  select_loop_unlucky :
      (ms : List (String × WorkerNode)) (c : Candidate)
      → AtMost scores 0 ms
      → ((k : String) (n : ℕ) → draw k n ≢ 0)
      → c.selected ≡ none
      → c.max_score ≡ 0
      → (select_loop draw scores ms c).selected ≡ none
  unfolding select_loop
  select_loop_unlucky [] c z d n h = n
  select_loop_unlucky ((key, m) ∷ ms) c z d n h =
      let never = d key (c.count_of_max_score + 1) in
      let c' : Candidate = record c { count_of_max_score = c.count_of_max_score + 1 } in
      ground (arith, never, z.0, h, n, select_loop_unlucky ms c' z.1 d n h)

  -- Candidates that all score 0 may be passed over: whenever no draw gives 0, none is selected.
  pub select_one_machine_unlucky :
      (key : String) (m : WorkerNode) (ms : List (String × WorkerNode))
      → AtMost scores 0 ((key, m) ∷ ms)
      → ((k : String) (n : ℕ) → draw k n ≢ 0)
      → select_one_machine draw scores ((key, m) ∷ ms) ≡ returns none
  unfolding select_one_machine
  select_one_machine_unlucky key m ms z d =
      let c : Candidate = record { selected = none; max_score = 0; count_of_max_score = 1 } in
      ground (arith, select_loop_unlucky ((key, m) ∷ ms) c z d refl refl)

filter_loop-none :
    (r : ResourceMap) (storage : List (String × WorkerNode))
    → (filter_loop r storage none ≡ returns none) ⊎ (filter_loop r storage none ≡ panics)
unfolding filter_loop
filter_loop-none r [] = inl refl
filter_loop-none r ((key, m) ∷ ms) = ground (arith, filter_loop-none r ms)

-- The Kubernetes policy panics on every input: filterMachines never makes the structure that it
-- fills and returns.
pub place_kubernetes-panics :
    (f : ScoreFloats) (d : String → ℕ → ℕ) (storage : List (String × WorkerNode))
    (requested : ResourceMap)
    → place_kubernetes f d storage requested ≡ panics
unfolding place_kubernetes filter_machines prioritize_nodes
place_kubernetes-panics f d storage requested =
    ground (arith, filter_loop-none (record { cpu = 1; memory = 1 }) storage)
