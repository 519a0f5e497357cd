-- ===== src/Autoscaling/Average.antt =====
-- The window averages of windowAverage in internal/control_plane/autoscaling/autoscaling.go against
-- the values that were recorded last.
use mathlib.Core.Path.{ap₂}
use dirigent.Prelude.{
  ℕ, suc, ◌+◌, ◌-◌, ◌<◌, ◌≤◌, ◌≡◌, ◌⊎◌, inl, inr, refl, List, ◌∷◌, ◌++◌, some, arith, length, ap,
  sym, ◌∙◌, min,
}
use dirigent.Prelude.Int.{pos}
use dirigent.Autoscaling.Floats.{Float64}
use dirigent.Autoscaling.Metadata.{AutoscalingMetadata}
use dirigent.Autoscaling.Recent.{
  below, segment, recent, take, round, IsRing, next_head, recent-next, length-round, length-take,
  take_all, take-round, wrapped-round, drop,
}
use dirigent.Autoscaling.Window.{quot32, record_value, window_average, arithmetic}
use dirigent.Autoscaling.Sums.{
  mean, window_sum-turn, record_value-recent, panic_values, window_sum-panic, panic_cases,
  window_length-pos, next_head-leb, next_head-IsRing,
}

module _ (fl : Float64) where
  open fl use {F, of_int, add}

  -- The widths of the two windows in buckets, for a configuration with the arithmetic method.
  pub record HasWindows (panic stable : ℕ) (s : AutoscalingMetadata F) : Type 0 where
    pub panic_width :
        quot32 s.config.panic_window_width_seconds s.config.scaling_period_seconds
        ≡ some (pos panic)
    pub stable_width :
        quot32 s.config.stable_window_width_seconds s.config.scaling_period_seconds
        ≡ some (pos stable)
    pub averages : s.config.scaling_method ≡ arithmetic
    pub is_ring : IsRing stable s.scaling_metrics s.window_head

  window_average_lem :
      (v : F) (s : AutoscalingMetadata F) (panic stable : ℕ) (ys : List F)
      → HasWindows panic stable s
      → record_value fl (pos stable) v s.scaling_metrics s.window_head ≡ some ys
      → s.window_head < length ys
      → length ys ≤ stable
      → window_average fl v s
        ≡ some (
          record s { scaling_metrics = ys; window_head = next_head stable s.window_head },
          mean fl (pos (length ys)) (round ys s.window_head),
          mean fl (pos (min panic (length ys))) (panic_values fl panic ys s.window_head),
        )
  unfolding window_average mean
  window_average_lem v s panic stable ys w r h l =
      let full : min stable (length ys) ≡ length ys = omega arith in
      let nil = of_int (pos 0) in
      rw (
        w.panic_width,
        w.stable_width,
        r,
        w.averages,
        window_length-pos stable (length ys),
        full,
        window_sum-turn fl nil nil (length ys) s.window_head ys nil h refl,
        window_length-pos panic (length ys),
        window_sum-panic fl nil nil panic s.window_head ys nil h,
        next_head-leb stable s.window_head,
      )

  panic_values-near :
      (width : ℕ) (ys : List F) (head : ℕ)
      → head < length ys
      → (length ys ≤ width) ⊎ (width ≤ suc head)
      → panic_values fl width ys head ≡ take width (round ys head)
  unfolding panic_values
  panic_values-near width ys head h near = elim (panic_cases (length ys) width head) [
    | inl (whole, n) ↦
        rw whole (sym (take_all width (round ys head) (omega (arith, length-round ys head h))))
    | inr (inl (part, straight, n, fits)) ↦
        rw (part, straight) (sym (take-round ys head width h fits))
    | inr (inr (part, wraps, n, fits, over)) ↦ absurd (omega arith)
  ]

  panic_values-early :
      (width : ℕ) (ys : List F) (head : ℕ)
      → suc head < width
      → width < length ys
      → panic_values fl width ys head
        ≡ below ys (suc head) ++ segment ys (suc head) (width - suc head)
  unfolding panic_values
  panic_values-early width ys head h l = elim (panic_cases (length ys) width head) [
    | inl (whole, n) ↦ absurd (omega arith)
    | inr (inl (part, straight, n, fits)) ↦ absurd (omega arith)
    | inr (inr (part, wraps, n, fits, over)) ↦ rw (part, wraps)
  ]

  length-take-round :
      (width : ℕ) (ys : List F) (head : ℕ)
      → head < length ys
      → length (take width (round ys head)) ≡ min width (length ys)
  length-take-round width ys head h =
      omega (arith, length-take width (round ys head), length-round ys head h)

  -- The last `stable` values that windowAverage was given, newest first.
  abbrev pub kept : ℕ → F → AutoscalingMetadata F → List F
  kept stable v s = take stable (v ∷ recent s.scaling_metrics s.window_head)

  -- windowAverage with the arithmetic method, on a ring of buckets: it does not panic, its first
  -- result is the mean fl of the values that it was given last, the new one first and as many as the
  -- stable window has buckets, and the ring then holds exactly these; nothing else changes.
  pub window_average-recent :
      (v : F) (s : AutoscalingMetadata F) (panic stable : ℕ)
      → HasWindows panic stable s
      → (s' : AutoscalingMetadata F) × (panic_mean : F) × (window_average fl v s
          ≡ some (s', mean fl (pos (length (kept stable v s))) (kept stable v s), panic_mean))
        × HasWindows panic stable s'
        × (recent s'.scaling_metrics s'.window_head ≡ kept stable v s)
        × (s' ≡ record s { scaling_metrics = s'.scaling_metrics; window_head = s'.window_head })
  window_average-recent v s panic stable w =
      let (ys, stored, inside, fits, grows, size, turn) =
        record_value-recent fl stable v s.scaling_metrics s.window_head w.is_ring in
      let count : length ys ≡ length (kept stable v s) =
        sym (length-round ys s.window_head inside) ∙ ap length turn in
      (
        record s { scaling_metrics = ys; window_head = next_head stable s.window_head },
        mean fl (pos (min panic (length ys))) (panic_values fl panic ys s.window_head),
        rw (← turn, length-round ys s.window_head inside)
            (window_average_lem v s panic stable ys w stored inside fits),
        record {
          panic_width = w.panic_width;
          stable_width = w.stable_width;
          averages = w.averages;
          is_ring = next_head-IsRing stable s.window_head (length ys) w.is_ring.0 size;
        },
        recent-next stable ys s.window_head w.is_ring.0 size ∙ turn,
        refl,
      )

  -- The panic average with the arithmetic method is the mean fl of the newest values, as many as the
  -- panic window has buckets, as long as no more values are there than that, or the head of the
  -- ring stands at or behind the last bucket of the panic window.
  pub window_average_panic :
      (v : F) (s : AutoscalingMetadata F) (panic stable : ℕ)
      → HasWindows panic stable s
      → (length (kept stable v s) ≤ panic) ⊎ (panic ≤ suc s.window_head)
      → let newest = take panic (kept stable v s) in
        (s' : AutoscalingMetadata F) × (stable_mean : F) × (window_average fl v s
          ≡ some (s', stable_mean, mean fl (pos (length newest)) newest))
  window_average_panic v s panic stable w near =
      let (ys, stored, inside, fits, grows, size, turn) =
        record_value-recent fl stable v s.scaling_metrics s.window_head w.is_ring in
      let s' : AutoscalingMetadata F = record s {
        scaling_metrics = ys;
        window_head = next_head stable s.window_head;
      } in
      let avg : F = mean fl (pos (length ys)) (round ys s.window_head) in
      let count : length ys ≡ length (kept stable v s) =
        sym (length-round ys s.window_head inside) ∙ ap length turn in
      (
        s',
        avg,
        window_average_lem v s panic stable ys w stored inside fits
            ∙ ap₂ (λ n l. some (s', avg, mean fl (pos n) l))
                (sym (length-take-round panic ys s.window_head inside))
                (panic_values-near panic ys s.window_head inside (ground arith))
            ∙ ap (λ l. some (s', avg, mean fl (pos (length (take panic l))) (take panic l))) turn,
      )

  -- The panic average goes wrong once per turn of a full ring: while the head stands before the
  -- last bucket of the panic window, the loop wraps at the panic window's length in place of the
  -- ring's, and averages the newest values, back to the ring's start, with the oldest of the ring.
  pub window_average_wraps :
      (v : F) (s : AutoscalingMetadata F) (panic stable : ℕ)
      → HasWindows panic stable s
      → length s.scaling_metrics ≡ stable
      → suc s.window_head < panic
      → panic < stable
      → let all = kept stable v s in
        (s' : AutoscalingMetadata F) × (stable_mean : F) × (window_average fl v s
          ≡ some (
            s',
            stable_mean,
            mean fl
                (pos panic)
                (take (suc s.window_head) all ++ drop (stable + suc s.window_head - panic) all),
          ))
  window_average_wraps v s panic stable w full early narrow =
      let (ys, stored, inside, fits, grows, size, turn) =
        record_value-recent fl stable v s.scaling_metrics s.window_head w.is_ring in
      let s' : AutoscalingMetadata F = record s {
        scaling_metrics = ys;
        window_head = next_head stable s.window_head;
      } in
      let avg : F = mean fl (pos (length ys)) (round ys s.window_head) in
      let count : length ys ≡ stable = omega arith in
      let head = s.window_head in
      (
        s',
        avg,
        window_average_lem v s panic stable ys w stored inside fits
            ∙ ap₂ (λ n l. some (s', avg, mean fl (pos n) l)) (omega arith)
                (panic_values-early panic ys head early (omega arith)
                  ∙ wrapped-round ys head panic early (omega arith))
            ∙ ap₂
                (λ n l. some (
                  s',
                  avg,
                  mean fl (pos panic) (take (suc head) l ++ drop (n + suc head - panic) l),
                ))
                count turn,
      )
