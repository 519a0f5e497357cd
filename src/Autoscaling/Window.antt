-- ===== src/Autoscaling/Window.antt =====
-- windowAverage of internal/control_plane/autoscaling/autoscaling.go. `none` is a panic of the Go
-- code: a division by zero or an index out of range.
use dirigent.Prelude.{
  ◌≡◌, refl, ℕ, zero, suc, ◌+◌, ◌-◌, ◌/◌, ◌==◌, List, [], ◌∷◌, ◌++◌, Option, none, some, length,
  get_elem?, set, ltb, if◌then◌else◌,
}
use dirigent.Prelude.Int.{ℤ, pos, negsuc, pos_part, neg_part, sub_ℕ, ltb_ℤ, leb_ℤ, ◌==ℤ◌, wrap32}
use dirigent.Autoscaling.Floats.{Float64}
use dirigent.Autoscaling.Metadata.{AutoscalingMetadata}

infixl 5 ◌>>=◌
abbrev pub ◌>>=◌ {ℓ κ} : {A : Type ℓ} {B : Type κ} → Option A → (A → Option B) → Option B
none >>= f = none
some a >>= f = f a

pub >>=-eq-some {ℓ κ} :
    {A : Type ℓ} {B : Type κ} (m : Option A) (f : A → Option B) {b : B}
    → (m >>= f) ≡ some b
    → (a : A) × (m ≡ some a) × (f a ≡ some b)
>>=-eq-some none f h = cc
>>=-eq-some (some a) f h = (a, refl, h)

-- Go's `/` on int32: it truncates towards zero, and panics on a zero divisor.
unfoldable pub quot32 : ℤ → ℤ → Option ℤ
quot32 a (pos zero) = none
quot32 a (pos (suc d)) = some (wrap32 (sub_ℕ (pos_part a / suc d) (neg_part a / suc d)))
quot32 a (negsuc d) = some (wrap32 (sub_ℕ (neg_part a / suc d) (pos_part a / suc d)))

abbrev pub arithmetic : ℤ
arithmetic = pos 0

abbrev pub exponential : ℤ
exponential = pos 1

-- The number of values that a window loop reads: int(math.Min(buckets, len(s.scalingMetrics))).
abbrev pub window_length : ℤ → ℕ → ℤ
window_length buckets len = if ltb_ℤ buckets (pos len) then buckets else pos len

-- The index before `i` in a window of `n` values.
abbrev pub index_before : ℕ → ℕ → ℕ
index_before n i = if i == 0 then n - 1 else i - 1

module _ (fl : Float64) where
  open fl use {F, of_int, add, sub, mul, div}

  -- One of the two loops, with the rounds left: `n` is windowLength, `i` currentWindowIndex.
  unfoldable pub window_sum : ℤ → F → ℕ → List F → ℕ → ℕ → F → F → Option F
  window_sum method smoothing n xs zero i multiplier acc = some acc
  window_sum method smoothing n xs (suc rounds) i multiplier acc = elim (get_elem? xs i) [
    | none ↦ none
    | some x ↦
        let weighted = if method ==ℤ exponential then mul x multiplier else x in
        let next =
          if method ==ℤ exponential
          then mul (sub (of_int (pos 1)) smoothing) multiplier
          else multiplier in
        window_sum method smoothing n xs rounds (index_before n i) next (add acc weighted)
  ]

  -- The bucket for the new value: a further one until all are there, then the one at windowHead.
  unfoldable pub record_value : ℤ → F → List F → ℕ → Option (List F)
  record_value stable value xs head =
      if ltb_ℤ (pos (length xs)) stable
      then some (xs ++ value ∷ [])
      else if ltb head (length xs)
      then some (set xs head value)
      else none

  abbrev pub averaged : ℤ → ℤ → F → F
  averaged method n sum = if method ==ℤ arithmetic then div sum (of_int n) else sum

  -- The smoothing coefficients are declared and never assigned, so they are zero.
  unfoldable pub window_average : F → AutoscalingMetadata F → Option (AutoscalingMetadata F × F × F)
  window_average value s = do
    panic ← quot32 s.config.panic_window_width_seconds s.config.scaling_period_seconds
    stable ← quot32 s.config.stable_window_width_seconds s.config.scaling_period_seconds
    xs ← record_value stable value s.scaling_metrics s.window_head
    let method = s.config.scaling_method
    let nil = of_int (pos 0)
    let n = window_length stable (length xs)
    stable_sum ← window_sum method nil (pos_part n) xs (pos_part n) s.window_head nil nil
    let m = window_length panic (length xs)
    panic_sum ← window_sum method nil (pos_part m) xs (pos_part m) s.window_head nil nil
    let head = if leb_ℤ stable (pos (s.window_head + 1)) then 0 else s.window_head + 1
    some (
      record s { scaling_metrics = xs; window_head = head },
      averaged method n stable_sum,
      averaged method m panic_sum,
    )
