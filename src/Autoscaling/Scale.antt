-- ===== src/Autoscaling/Scale.antt =====
-- KnativeScaling and internalScaleAlgorithm of
-- internal/control_plane/autoscaling/autoscaling.go. mathutil.Clamp is a parameter.
use dirigent.Prelude.{ℕ, ◌+◌, ◌*◌, Bool, true, false, ◌&&◌, Option, some, ltb, not_b, if◌then◌else◌}
use dirigent.Prelude.Int.{ℤ, pos, pos_part, ltb_ℤ, ◌==ℤ◌}
use dirigent.Autoscaling.Floats.{Float64}
use dirigent.Autoscaling.Metadata.{AutoscalingMetadata}
use dirigent.Autoscaling.Window.{window_average, ◌>>=◌}

abbrev pub max_ℤ : ℤ → ℤ → ℤ
max_ℤ a b = if ltb_ℤ a b then b else a

module _ (fl : Float64) where
  open fl use {F, of_int, to_int, add, sub, mul, div, ceil, floor, fmax, fmin, ge}

  -- The two desired pod counts and the test against the panic threshold.
  pub record Demand : Type 0 where
    pub stable_pods : ℤ
    pub panic_pods : ℤ
    pub over_threshold : Bool

  unfoldable pub demand : AutoscalingMetadata F → F → F → Demand
  demand s avg_stable avg_panic =
      let c = s.config in
      let ready = fmax (of_int (pos 1)) (of_int s.actual_scale) in
      let max_up = ceil (mul c.max_scale_up_rate ready) in
      let max_down = floor (div ready c.max_scale_down_rate) in
      let share = div (of_int c.container_concurrency_target_percentage) (of_int (pos 100)) in
      let desired =
        if c.container_concurrency ==ℤ pos 0
        then mul (of_int (pos 100)) share
        else mul (of_int c.container_concurrency) share in
      let dspc = ceil (div avg_stable desired) in
      let dppc = ceil (div avg_panic desired) in
      record {
        stable_pods = to_int (fmin (fmax dspc max_down) max_up);
        panic_pods = to_int (fmin (fmax dppc max_down) max_up);
        over_threshold = ge (div dppc ready) (div c.panic_threshold_percentage (of_int (pos 100)));
      }

  -- The three branches on the panic threshold; `now` is time.Now().
  unfoldable pub update_panic : ℕ → Bool → AutoscalingMetadata F → AutoscalingMetadata F
  update_panic now over s =
      if not_b s.in_panic_mode && over
      then record s { in_panic_mode = true; start_panicking = now }
      else if over
      then record s { start_panicking = now }
      else if s.in_panic_mode
          && not_b over
          && ltb (s.start_panicking + pos_part s.config.stable_window_width_seconds * 1_000_000_000)
              now
      then record s { in_panic_mode = false; start_panicking = 0; max_panic_pods = pos 0 }
      else s

  -- The pod count that is asked for, once the panic mode is settled.
  unfoldable pub choose_pods : ℤ → ℤ → AutoscalingMetadata F → AutoscalingMetadata F × ℤ
  choose_pods stable panic s =
      if s.in_panic_mode
      then (let wanted = max_ℤ stable panic in
          let s' =
            if ltb_ℤ s.max_panic_pods wanted then record s { max_panic_pods = wanted } else s in
          (s', s'.max_panic_pods))
      else (s, stable)

  unfoldable pub internal_scale_algorithm :
      ℕ → F → AutoscalingMetadata F → Option (AutoscalingMetadata F × ℤ)
  internal_scale_algorithm now metric s = do
    (s', avg_stable, avg_panic) ← window_average fl metric s
    let d = demand s' avg_stable avg_panic
    some (choose_pods d.stable_pods d.panic_pods (update_panic now d.over_threshold s'))

  unfoldable pub knative_scaling :
      (ℤ → ℤ → ℤ → ℤ) → ℕ → Bool → AutoscalingMetadata F → Option (AutoscalingMetadata F × ℤ)
  knative_scaling clamp now is_scale_from_zero s =
      if is_scale_from_zero
      then some (s, pos 1)
      else (let scaled = internal_scale_algorithm now (of_int s.cached_scaling_metric) s in
          scaled >>= λ (s', desired).
          some (s', clamp desired s.config.scaling_lower_bound s.config.scaling_upper_bound))
