-- ===== src/Autoscaling/Metadata.antt =====
-- AutoscalingMetadata of internal/control_plane/autoscaling/autoscaling.go and its cached metric.
-- Times are nanoseconds, with 0 for the zero time.Time.
use dirigent.Prelude.{ℕ, Bool, String, List, Option, none, some}
use dirigent.Prelude.Int.{ℤ, pos, ◌+ℤ◌, ◌-ℤ◌, wrap32}
use dirigent.Prelude.Maps.{lookup, insert, remove}
use dirigent.Prelude.Names.{string_discrete}

-- proto.AutoscalingConfiguration; `F` holds its float fields.
pub record AutoscalingConfiguration (F : Type 0) : Type 0 where
  pub scaling_upper_bound : ℤ
  pub scaling_lower_bound : ℤ
  pub panic_threshold_percentage : F
  pub max_scale_up_rate : F
  pub max_scale_down_rate : F
  pub container_concurrency : ℤ
  pub container_concurrency_target_percentage : ℤ
  pub stable_window_width_seconds : ℤ
  pub panic_window_width_seconds : ℤ
  pub scaling_period_seconds : ℤ
  pub scaling_method : ℤ

pub record AutoscalingMetadata (F : Type 0) : Type 0 where
  pub actual_scale : ℤ
  pub config : AutoscalingConfiguration F
  pub in_panic_mode : Bool
  pub start_panicking : ℕ
  pub max_panic_pods : ℤ
  pub inflight_requests : List (String × ℤ)
  pub cached_scaling_metric : ℤ
  pub scaling_metrics : List F
  pub window_head : ℕ

-- The int32 that a Go map returns, 0 for a missing key.
abbrev pub or_zero : Option ℤ → ℤ
or_zero none = pos 0
or_zero (some v) = v

abbrev pub inflight_of : String → List (String × ℤ) → ℤ
inflight_of name m = or_zero (lookup string_discrete name m)

-- proto.AutoscalingMetric, less the service's name.
pub record AutoscalingMetric : Type 0 where
  pub dataplane_name : String
  pub inflight_requests : ℤ

module _ {F : Type 0} where
  unfoldable pub remove_dataplane : String → AutoscalingMetadata F → AutoscalingMetadata F
  remove_dataplane name s = record s {
    cached_scaling_metric =
        wrap32 (s.cached_scaling_metric -ℤ inflight_of name s.inflight_requests);
    inflight_requests = remove string_discrete name s.inflight_requests;
  }

  unfoldable pub set_cached_scaling_metric :
      AutoscalingMetric → AutoscalingMetadata F → AutoscalingMetadata F
  set_cached_scaling_metric m s = record s {
    cached_scaling_metric = wrap32 (
        s.cached_scaling_metric
        +ℤ wrap32 (m.inflight_requests -ℤ inflight_of m.dataplane_name s.inflight_requests));
    inflight_requests =
        insert string_discrete m.dataplane_name m.inflight_requests s.inflight_requests;
  }
