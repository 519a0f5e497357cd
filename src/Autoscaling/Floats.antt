-- ===== src/Autoscaling/Floats.antt =====
-- The float64 operations that internal/control_plane/autoscaling/autoscaling.go uses, as a
-- parameter: Go's arithmetic, math.Ceil, math.Floor, math.Max, math.Min and the conversions.
use dirigent.Prelude.{Bool}
use dirigent.Prelude.Int.{ℤ}

pub record Float64 : Type 1 where
  pub F : Type 0
  pub of_int : ℤ → F
  pub to_int : F → ℤ
  pub add : F → F → F
  pub sub : F → F → F
  pub mul : F → F → F
  pub div : F → F → F
  pub ceil : F → F
  pub floor : F → F
  pub fmax : F → F → F
  pub fmin : F → F → F
  pub ge : F → F → Bool
