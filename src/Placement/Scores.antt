-- ===== src/Placement/Scores.antt =====
-- The bounds of the Kubernetes scores (internal/control_plane/placement_policy/k8s_placement.go).
use dirigent.Prelude.{ℕ, ◌-◌, ◌*◌, ◌/◌, ◌<◌, ◌≤◌, arith}
use dirigent.Placement.{ResourceMap, wrap64}
use dirigent.Placement.Kubernetes.{least_requested_score, score_fit_least_allocated}

div_le_100 : (a b : ℕ) → 0 < b → a ≤ b * 100 → a / b ≤ 100
div_le_100 a b p h = grind arith

div_mono : (a b c : ℕ) → a ≤ b → 0 < c → a / c ≤ b / c
div_mono a b c h p = grind arith

wrap64-le : (n : ℕ) → wrap64 n ≤ n
wrap64-le n = omega arith

-- A product of 100 with a uint64 that does not wrap.
abbrev pub IsSmall : ℕ → Type 0
IsSmall n = n * 100 < 18_446_744_073_709_551_616

least_requested_score_bound : (r c : ℕ) → least_requested_score r c ≤ 100
unfolding least_requested_score
least_requested_score_bound r c =
    ground (arith, div_le_100 (wrap64 ((c - r) * 100)) c, wrap64-le ((c - r) * 100))

least_requested_score-le :
    (r s c : ℕ) → IsSmall c → r ≤ s → least_requested_score s c ≤ least_requested_score r c
unfolding least_requested_score
least_requested_score-le r s c small h =
    ground (arith, div_mono (wrap64 ((c - s) * 100)) (wrap64 ((c - r) * 100)) c)

-- The score of least allocation is at most 100, and a node on which no less is requested of either
-- resource has no higher score, as long as a node's resources times 100 are a uint64.
pub score_fit_least_allocated_bounds :
    (installed a b : ResourceMap)
    → IsSmall installed.cpu
    → IsSmall installed.memory
    → a.cpu ≤ b.cpu
    → a.memory ≤ b.memory
    → (score_fit_least_allocated installed b ≤ score_fit_least_allocated installed a)
      × (score_fit_least_allocated installed a ≤ 100)
unfolding score_fit_least_allocated
score_fit_least_allocated_bounds installed a b p q h k =
    let cpu = least_requested_score-le a.cpu b.cpu installed.cpu p h in
    let memory = least_requested_score-le a.memory b.memory installed.memory q k in
    let m = least_requested_score_bound a.cpu installed.cpu in
    let n = least_requested_score_bound a.memory installed.memory in
    (omega (arith, cpu, memory), omega (arith, m, n))
