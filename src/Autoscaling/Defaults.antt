-- ===== src/Autoscaling/Defaults.antt =====
-- NewDefaultAutoscalingMetadata of internal/control_plane/autoscaling/autoscaling.go.
use dirigent.Prelude.{Bool, if◌then◌else◌}
use dirigent.Prelude.Int.{ℤ, pos}
use dirigent.Autoscaling.Floats.{Float64}
use dirigent.Autoscaling.Metadata.{AutoscalingConfiguration}
use dirigent.Autoscaling.Window.{arithmetic}

module _ (fl : Float64) where
  open fl use {F, of_int}

  -- The two literals, which differ in their upper bound and in the widths of the windows.
  pub default_configuration : ℤ → ℤ → ℤ → AutoscalingConfiguration F
  default_configuration upper stable panic = record {
    scaling_upper_bound = upper;
    scaling_lower_bound = pos 0;
    panic_threshold_percentage = of_int (pos 200);
    max_scale_up_rate = of_int (pos 1000);
    max_scale_down_rate = of_int (pos 2);
    container_concurrency = pos 1;
    container_concurrency_target_percentage = pos 100;
    stable_window_width_seconds = stable;
    panic_window_width_seconds = panic;
    scaling_period_seconds = pos 2;
    scaling_method = arithmetic;
  }

  pub new_default_autoscaling_metadata : Bool → AutoscalingConfiguration F
  unfolding default_configuration
  new_default_autoscaling_metadata cold_start_sweep =
      if cold_start_sweep
      then default_configuration (pos 1) (pos 6) (pos 2)
      else default_configuration (pos 2147483647) (pos 60) (pos 6)
