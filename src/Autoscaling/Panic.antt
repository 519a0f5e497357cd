-- ===== src/Autoscaling/Panic.antt =====
-- The panic mode of internalScaleAlgorithm in internal/control_plane/autoscaling/autoscaling.go.
use mathlib.Core.Option.{some-injective}
use dirigent.Prelude.{ℕ, ◌+◌, ◌*◌, ◌≤◌, ◌≡◌, ◌⊎◌, ◌↔◌, Bool, true, false, some, arith}
use dirigent.Prelude.Int.{ℤ, pos, pos_part, ◌≤ℤ◌}
use dirigent.Autoscaling.Floats.{Float64}
use dirigent.Autoscaling.Metadata.{AutoscalingMetadata}
use dirigent.Autoscaling.Window.{window_average, >>=-eq-some}
use dirigent.Autoscaling.Scale.{
  Demand, demand, update_panic, choose_pods, internal_scale_algorithm, max_ℤ,
}

module _ (fl : Float64) where
  open fl use {F}

  -- The end of the panic mode, unless it is extended: the stable window after its last extension.
  abbrev pub panic_end : AutoscalingMetadata F → ℕ
  panic_end s = s.start_panicking + pos_part s.config.stable_window_width_seconds * 1_000_000_000

  window_average_keeps :
      (v : F) (s s' : AutoscalingMetadata F) (a p : F)
      → window_average fl v s ≡ some (s', a, p)
      → s' ≡ record s { scaling_metrics = s'.scaling_metrics; window_head = s'.window_head }
  unfolding window_average
  window_average_keeps v s s' a p e = ground arith

  update_panic_mode :
      (now : ℕ) (over : Bool) (s : AutoscalingMetadata F)
      → ((update_panic fl now over s).in_panic_mode ≡ true)
        ↔ ((over ≡ true) ⊎ ((s.in_panic_mode ≡ true) × (now ≤ panic_end s)))
  unfolding update_panic
  update_panic_mode now over s = (ground arith, ground arith)

  chosen_panics :
      (now : ℕ) (d : Demand fl) (s s₁ s' : AutoscalingMetadata F) (n : ℤ)
      → choose_pods fl d.stable_pods d.panic_pods (update_panic fl now d.over_threshold s₁)
        ≡ (s', n)
      → s₁ ≡ record s { scaling_metrics = s₁.scaling_metrics; window_head = s₁.window_head }
      → ((s'.in_panic_mode ≡ true)
          ↔ ((d.over_threshold ≡ true) ⊎ ((s.in_panic_mode ≡ true) × (now ≤ panic_end s))))
        × (s'.in_panic_mode ≡ true
            → (n ≡ max_ℤ s.max_panic_pods (max_ℤ d.stable_pods d.panic_pods))
              × (s'.max_panic_pods ≡ n)
              × (s.max_panic_pods ≤ℤ n)
              × (d.stable_pods ≤ℤ n)
              × (d.panic_pods ≤ℤ n))
        × (s'.in_panic_mode ≡ false
            → (n ≡ d.stable_pods) × (s.in_panic_mode ≡ true → s'.max_panic_pods ≡ pos 0))
  unfolding choose_pods update_panic
  chosen_panics now d s s₁ s' n e k =
      (((ground arith), (ground arith)), (λ h. ground arith), (λ h. ground arith))

  -- One scaling decision: what the demand is computed from; the panic mode afterwards, which holds
  -- exactly when the demand is over the panic threshold or an earlier panic has not ended; and the
  -- pod count. In panic mode that is the most that was wanted since the panic began, so it never
  -- falls; outside it is the stable demand, and a panic that has just ended forgets its maximum.
  pub internal_scale_algorithm_panics :
      (now : ℕ) (metric : F) (s s' : AutoscalingMetadata F) (n : ℤ)
      → internal_scale_algorithm fl now metric s ≡ some (s', n)
      → (s₁ : AutoscalingMetadata F) × (avg_stable : F) × (avg_panic : F) × (window_average fl
            metric s
          ≡ some (s₁, avg_stable, avg_panic))
        × (let d = demand fl s₁ avg_stable avg_panic in
            ((s'.in_panic_mode ≡ true)
              ↔ ((d.over_threshold ≡ true) ⊎ ((s.in_panic_mode ≡ true) × (now ≤ panic_end s))))
            × (s'.in_panic_mode ≡ true
                → (n ≡ max_ℤ s.max_panic_pods (max_ℤ d.stable_pods d.panic_pods))
                  × (s'.max_panic_pods ≡ n)
                  × (s.max_panic_pods ≤ℤ n)
                  × (d.stable_pods ≤ℤ n)
                  × (d.panic_pods ≤ℤ n))
            × (s'.in_panic_mode ≡ false
                → (n ≡ d.stable_pods) × (s.in_panic_mode ≡ true → s'.max_panic_pods ≡ pos 0)))
  unfolding internal_scale_algorithm
  internal_scale_algorithm_panics now metric s s' n e =
      let ((s₁, a, p), r, q) = >>=-eq-some (window_average fl metric s) _ e in
      let (mode, panics, calm) =
        chosen_panics now (demand fl s₁ a p) s s₁ s' n (some-injective _ _ q)
          (window_average_keeps metric s s₁ a p r) in
      (s₁, a, p, r, (mode, panics, calm))
