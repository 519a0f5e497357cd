-- ===== src/Managers/Retries.antt =====
-- The waits of a back-off (internal/worker_node/managers/exponential_backoff.go).
use dirigent.Prelude.{ℕ, zero, suc, ◌+◌, ◌≡◌, refl, List, [], ◌∷◌, arith, if◌then◌else◌}
use dirigent.Managers.{BackoffFloats, ExponentialBackoff, calculate, next}

module _ (f : BackoffFloats) where
  -- The first n waits of a back-off.
  abbrev pub waits_of : ℕ → ExponentialBackoff f.F → List f.F
  waits_of zero eb = []
  waits_of (suc n) eb = (next f eb).0 ∷ waits_of n (next f eb).1

  -- The wait after k others: interval * rate ^ (k + 1), or -1 when it is too far from the one before
  -- it, and for k = 0 the interval itself.
  abbrev pub nth_wait : ExponentialBackoff f.F → ℕ → f.F
  nth_wait eb zero = calculate f eb 0
  nth_wait eb (suc k) =
      if f.gt (f.abs (f.sub (calculate f eb (k + 1 + 1)) (calculate f eb (k + 1))))
        eb.max_difference
      then f.minus_one
      else calculate f eb (k + 1 + 1)

  abbrev pub waits_from : ExponentialBackoff f.F → ℕ → ℕ → List f.F
  waits_from eb k zero = []
  waits_from eb k (suc n) = nth_wait eb k ∷ waits_from eb (suc k) n

  next_lem :
      (eb : ExponentialBackoff f.F) (k : ℕ)
      → next f (record eb { retry_number = k })
        ≡ (nth_wait eb k, record eb { retry_number = suc k })
  unfolding next calculate
  next_lem eb zero = ground arith
  next_lem eb (suc k) = ground arith

  -- The waits of a back-off that starts afresh are interval * rate ^ 0, then interval * rate ^ 2,
  -- interval * rate ^ 3 and so on: the first power is left out, and a wait is -1 when it differs from
  -- the power before it by more than the maximum.
  pub next-nth_wait :
      (eb : ExponentialBackoff f.F) (k n : ℕ)
      → waits_of n (record eb { retry_number = k }) ≡ waits_from eb k n
  next-nth_wait eb k zero = refl
  next-nth_wait eb k (suc n) = ground (arith, next_lem eb k, next-nth_wait eb (suc k) n)
