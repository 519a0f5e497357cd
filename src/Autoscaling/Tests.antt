-- ===== src/Autoscaling/Tests.antt =====
-- Runs of the autoscaler, with numbers in place of the floats.
use dirigent.Prelude.{
  ℕ, ◌+◌, ◌-◌, ◌*◌, ◌/◌, ◌≤◌, ◌≡◌, ◌⊎◌, ◌↔◌, inr, refl, true, false, [], ◌∷◌, some, length, leb,
  ltb, arith, if◌then◌else◌,
}
use dirigent.Prelude.Int.{pos, pos_part, wrap32, residue32, signed32, ◌+ℤ◌, ◌≤ℤ◌}
use dirigent.Prelude.Maps.{lookup}
use dirigent.Autoscaling.Floats.{Float64}
use dirigent.Autoscaling.Metadata.{AutoscalingConfiguration, AutoscalingMetadata, remove_dataplane}
use dirigent.Autoscaling.Total.{total, IsTotal, remove_dataplane-IsTotal}
use dirigent.Autoscaling.Window.{quot32, window_average, window_sum, record_value, arithmetic}
use dirigent.Autoscaling.Recent.{recent, take, below, segment}
use dirigent.Autoscaling.Scale.{demand, update_panic, choose_pods, internal_scale_algorithm, max_ℤ}
use dirigent.Autoscaling.Sums.{mean}
use dirigent.Autoscaling.Average.{kept, HasWindows, window_average-recent}
use dirigent.Autoscaling.Panic.{panic_end, internal_scale_algorithm_panics}
use dirigent.Autoscaling.Controller.{
  PfStateController, new_controller, start_swap, start_launch, first_cycle,
}
use dirigent.Autoscaling.Controller.Loops.{
  Reach, here, next, swaps, launches, begins, HasOneLoop, Reach-HasOneLoop,
}

abbrev numbers : Float64
numbers = record {
  F = ℕ;
  of_int = pos_part;
  to_int = pos;
  add = λ a b. a + b;
  sub = λ a b. a - b;
  mul = λ a b. a * b;
  div = λ a b. a / b;
  ceil = λ a. a;
  floor = λ a. a;
  fmax = λ a b. if ltb a b then b else a;
  fmin = λ a b. if ltb a b then a else b;
  ge = λ a b. leb b a;
}

-- A stable window of four buckets and a panic window of two.
abbrev four_buckets : AutoscalingConfiguration ℕ
four_buckets = record {
  scaling_upper_bound = pos 10;
  scaling_lower_bound = pos 0;
  panic_threshold_percentage = 200;
  max_scale_up_rate = 1000;
  max_scale_down_rate = 2;
  container_concurrency = pos 1;
  container_concurrency_target_percentage = pos 100;
  stable_window_width_seconds = pos 8;
  panic_window_width_seconds = pos 4;
  scaling_period_seconds = pos 2;
  scaling_method = arithmetic;
}

abbrev full_ring : AutoscalingMetadata ℕ
full_ring = record {
  actual_scale = pos 1;
  config = four_buckets;
  in_panic_mode = false;
  start_panicking = 0;
  max_panic_pods = pos 0;
  inflight_requests = [];
  cached_scaling_metric = pos 0;
  scaling_metrics = 1 ∷ 2 ∷ 3 ∷ 4 ∷ [];
  window_head = 2;
}

abbrev turned_ring : AutoscalingMetadata ℕ
turned_ring = record full_ring { window_head = 0 }

full_ring-HasWindows : HasWindows numbers 2 4 full_ring
unfolding quot32 wrap32 residue32 signed32
full_ring-HasWindows = record {
  panic_width = refl;
  stable_width = refl;
  averages = refl;
  is_ring = (omega arith, inr refl);
}

turned_ring-HasWindows : HasWindows numbers 2 4 turned_ring
unfolding quot32 wrap32 residue32 signed32
turned_ring-HasWindows = record {
  panic_width = refl;
  stable_width = refl;
  averages = refl;
  is_ring = (omega arith, inr refl);
}

window_average-recent_example :
    (s' : AutoscalingMetadata ℕ) × (panic_mean : ℕ) × (window_average numbers 9 full_ring
      ≡ some (
        s',
        mean numbers (pos (length (kept numbers 4 9 full_ring))) (kept numbers 4 9 full_ring),
        panic_mean,
      ))
    × HasWindows numbers 2 4 s'
    × (recent s'.scaling_metrics s'.window_head ≡ kept numbers 4 9 full_ring)
    × (s' ≡ record full_ring { scaling_metrics = s'.scaling_metrics; window_head = s'.window_head })
window_average-recent_example = window_average-recent numbers 9 full_ring 2 4 full_ring-HasWindows

-- The newest value 9 and the oldest, 2, where 9 and 4 are the newest two.
window_average_wrapped : kept numbers 4 9 turned_ring ≡ 9 ∷ 4 ∷ 3 ∷ 2 ∷ []
unfolding recent take below segment
window_average_wrapped = refl

abbrev reported : AutoscalingMetadata ℕ
reported = record full_ring {
  inflight_requests = ("dp", pos 3) ∷ [];
  cached_scaling_metric = pos 3;
}

reported-IsTotal : IsTotal reported
unfolding total wrap32 residue32 signed32 ◌+ℤ◌ lookup
reported-IsTotal = record { sums = refl; is_map = (refl, tt) }

remove_dataplane-IsTotal_example : IsTotal (remove_dataplane "dp" reported)
remove_dataplane-IsTotal_example = remove_dataplane-IsTotal "dp" reported reported-IsTotal

-- A controller whose loop runs and has asked for one sandbox.
abbrev started : PfStateController
started = first_cycle (pos 1) (start_launch (start_swap new_controller).0)

started-Reach : Reach started
unfolding new_controller start_swap start_launch
started-Reach =
    next (next (next here swaps) (launches (omega arith))) (begins (pos 1) (omega arith))

Reach-HasOneLoop_example : HasOneLoop started
Reach-HasOneLoop_example = Reach-HasOneLoop started-Reach

-- A controller whose loop has stopped after its first cycle, and not yet closed StopCh.
abbrev ending : PfStateController
ending = record new_controller { closing = 1; stop_ch = some 0 }

abbrev panicking : AutoscalingMetadata ℕ
panicking = record full_ring { scaling_metrics = 8 ∷ 8 ∷ 8 ∷ 8 ∷ [] }

panics :
    internal_scale_algorithm numbers 50 8 panicking
    ≡ some (
      record panicking {
        in_panic_mode = true;
        start_panicking = 50;
        max_panic_pods = pos 8;
        window_head = 3;
      },
      pos 8,
    )
unfolding internal_scale_algorithm window_average window_sum record_value demand update_panic
    choose_pods quot32 wrap32 residue32 signed32
panics = refl

internal_scale_algorithm_panics_example :
    (s₁ : AutoscalingMetadata ℕ) × (avg_stable : ℕ) × (avg_panic : ℕ) × (window_average numbers 8
        panicking
      ≡ some (s₁, avg_stable, avg_panic))
    × (let d = demand numbers s₁ avg_stable avg_panic in
        ((true ≡ true)
          ↔ ((d.over_threshold ≡ true) ⊎ ((false ≡ true) × (50 ≤ panic_end numbers panicking))))
        × (true ≡ true
            → (pos 8 ≡ max_ℤ (pos 0) (max_ℤ d.stable_pods d.panic_pods))
              × (pos 8 ≡ pos 8)
              × (pos 0 ≤ℤ pos 8)
              × (d.stable_pods ≤ℤ pos 8)
              × (d.panic_pods ≤ℤ pos 8))
        × (true ≡ false → (pos 8 ≡ d.stable_pods) × (false ≡ true → pos 8 ≡ pos 0)))
internal_scale_algorithm_panics_example =
    internal_scale_algorithm_panics numbers 50 8 panicking _ (pos 8) panics
