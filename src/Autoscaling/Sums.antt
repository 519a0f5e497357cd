-- ===== src/Autoscaling/Sums.antt =====
-- The sums of windowAverage in internal/control_plane/autoscaling/autoscaling.go as sums of the values
-- that they read.
use dirigent.Prelude.{
  ℕ, zero, suc, ◌+◌, ◌-◌, ◌<◌, ◌≤◌, ◌≡◌, ◌⊎◌, inl, inr, refl, List, [], ◌∷◌, ◌++◌, Option, some,
  arith, length, get_elem?, set, get_elem?-some, length-append, length-set, ◌∙◌, leb, min, true,
  false, if◌then◌else◌, subst,
}
use dirigent.Prelude.Int.{ℤ, pos, leb_ℤ}
use dirigent.Autoscaling.Floats.{Float64}
use dirigent.Autoscaling.Recent.{
  below, segment, recent, take, round, IsRing, next_head, round-append, round-set,
}
use dirigent.Autoscaling.Window.{
  window_sum, record_value, window_length, averaged, arithmetic, index_before,
}

pub index_before-suc : (n i : ℕ) → index_before n (suc i) ≡ i
index_before-suc n i = ground arith

pub panic_cases :
    (len width head : ℕ)
    → ((leb len width ≡ true) × (min width len ≡ len))
      ⊎ ((leb len width ≡ false)
          × (leb width (suc head) ≡ true)
          × (min width len ≡ width)
          × (width ≤ suc head))
      ⊎ ((leb len width ≡ false)
          × (leb width (suc head) ≡ false)
          × (min width len ≡ width)
          × (width < len)
          × (suc head < width))
panic_cases len width head = ground arith

pub window_length-pos : (a n : ℕ) → window_length (pos a) n ≡ pos (min a n)
window_length-pos a n = ground arith

pub next_head-leb :
    (stable head : ℕ)
    → (if leb_ℤ (pos stable) (pos (head + 1)) then 0 else head + 1) ≡ next_head stable head
next_head-leb stable head = ground arith

pub next_head-IsRing :
    (stable head len : ℕ)
    → head < stable
    → (len ≡ suc head) ⊎ (len ≡ stable)
    → (next_head stable head < stable) × ((len ≡ next_head stable head) ⊎ (len ≡ stable))
next_head-IsRing stable head len h l = ground arith

module _ (fl : Float64) where
  open fl use {F, of_int, add}

  -- The sum that the code makes of values, in the order in which it reads them.
  unfoldable pub sum_all : F → List F → F
  sum_all acc [] = acc
  sum_all acc (x ∷ xs) = sum_all (add acc x) xs

  -- Their arithmetic mean, for a window of `n` values.
  unfoldable pub mean : ℤ → List F → F
  mean n xs = averaged fl arithmetic n (sum_all (of_int (pos 0)) xs)

  module _ (smoothing multiplier : F) (n : ℕ) (xs : List F) where
    abbrev sum_from : ℕ → ℕ → F → Option F
    sum_from rounds i acc = window_sum fl arithmetic smoothing n xs rounds i multiplier acc

    window_sum_step :
        (r i : ℕ) (acc x : F)
        → get_elem? xs i ≡ some x
        → sum_from (suc r) i acc ≡ sum_from r (index_before n i) (add acc x)
    unfolding window_sum
    window_sum_step r i acc x e = rw (e, window_sum)

    -- Going down from index `i` with no wrap.
    window_sum-segment :
        (rounds i lo : ℕ) (acc : F)
        → suc i ≡ lo + rounds
        → i < length xs
        → sum_from rounds i acc ≡ some (sum_all acc (segment xs lo rounds))
    unfolding segment sum_all
    window_sum-segment zero i lo acc e h = unfold window_sum in refl
    window_sum-segment (suc zero) i lo acc e h =
        let (x, at) = get_elem?-some xs i h in
        let here : lo + 0 ≡ i = omega arith in
        rw (window_sum_step 0 i acc x at, here, at) (unfold window_sum in refl)
    window_sum-segment (suc (suc r)) zero lo acc e h = absurd (omega arith)
    window_sum-segment (suc (suc r)) (suc i) lo acc e h =
        let (x, at) = get_elem?-some xs (suc i) h in
        let here : lo + suc r ≡ suc i = omega arith in
        rw (window_sum_step (suc r) (suc i) acc x at, here, at, index_before-suc n i)
          (window_sum-segment (suc r) i lo (add acc x) (omega arith) (omega arith))

    -- Going down from index `i` to 0, and then `k` rounds down from the end of the window.
    window_sum-round :
        (k rounds i : ℕ) (acc : F)
        → rounds ≡ suc i + k
        → i < n
        → n ≤ length xs
        → k ≤ n
        → sum_from rounds i acc ≡ some (sum_all acc (below xs (suc i) ++ segment xs (n - k) k))
    unfolding below sum_all
    window_sum-round k zero i acc e h l m = absurd (omega arith)
    window_sum-round k (suc r) zero acc e h l m =
        let (x, at) = get_elem?-some xs 0 (omega arith) in
        let same : r ≡ k = omega arith in first_then x at same
      where
        first_then :
            (x : F)
            → get_elem? xs 0 ≡ some x
            → r ≡ k
            → sum_from (suc r) 0 acc ≡ some (sum_all acc (below xs 1 ++ segment xs (n - k) k))
        first_then x at same =
            rw (window_sum_step r 0 acc x at, at, same)
              (window_sum-segment k (n - 1) (n - k) (add acc x) (omega arith) (omega arith))
    window_sum-round k (suc r) (suc i) acc e h l m =
        let (x, at) = get_elem?-some xs (suc i) (omega arith) in
        rw (window_sum_step r (suc i) acc x at, at, index_before-suc n i)
          (window_sum-round k r i (add acc x) (omega arith) (omega arith) l m)

  -- One whole turn round a ring of `n` values.
  pub window_sum-turn :
      (smoothing multiplier : F) (n i : ℕ) (xs : List F) (acc : F)
      → i < n
      → n ≡ length xs
      → window_sum fl arithmetic smoothing n xs n i multiplier acc ≡ some (sum_all acc (round xs i))
  window_sum-turn smoothing multiplier n i xs acc h e =
      let rest : n - (n - suc i) ≡ suc i = omega arith in
      window_sum-round smoothing multiplier n xs (n - suc i) n i acc (omega arith) h (omega arith)
        (omega arith)
      ∙ rw (rest, e)

  -- What windowAverage stores: the new value first, then the values of the ring, the oldest of them
  -- dropped once the ring is full.
  pub record_value-recent :
      (size : ℕ) (v : F) (xs : List F) (head : ℕ)
      → IsRing size xs head
      → (ys : List F) × (record_value fl (pos size) v xs head ≡ some ys)
        × (head < length ys)
        × (length ys ≤ size)
        × (length xs ≤ length ys)
        × ((length ys ≡ suc head) ⊎ (length ys ≡ size))
        × (round ys head ≡ take size (v ∷ recent xs head))
  unfolding record_value
  record_value-recent size v xs head (h, inl growing) = (
    xs ++ v ∷ [],
    ground arith,
    omega (arith, length-append xs (v ∷ [])),
    omega (arith, length-append xs (v ∷ [])),
    omega (arith, length-append xs (v ∷ [])),
    inl (omega (arith, length-append xs (v ∷ []))),
    subst (λ k. round (xs ++ v ∷ []) k ≡ take size (v ∷ recent xs k)) growing
        (round-append size xs v (omega arith)),
  )
  record_value-recent size v xs head (h, inr full) = (
    set xs head v,
    ground arith,
    omega (arith, length-set xs head v),
    omega (arith, length-set xs head v),
    omega (arith, length-set xs head v),
    inr (omega (arith, length-set xs head v)),
    subst (λ k. round (set xs head v) head ≡ take k (v ∷ recent xs head)) full
        (round-set xs head v (omega arith)),
  )

  -- The values that the panic window reads, in the order of the code.
  unfoldable pub panic_values : ℕ → List F → ℕ → List F
  panic_values width ys head =
      if leb (length ys) width
      then round ys head
      else if leb width (suc head)
      then segment ys (suc head - width) width
      else below ys (suc head) ++ segment ys (suc head) (width - suc head)

  pub window_sum-panic :
      (smoothing multiplier : F) (width head : ℕ) (ys : List F) (acc : F)
      → head < length ys
      → let n = min width (length ys) in
        window_sum fl arithmetic smoothing n ys n head multiplier acc
        ≡ some (sum_all acc (panic_values width ys head))
  unfolding panic_values
  window_sum-panic smoothing multiplier width head ys acc h =
      elim (panic_cases (length ys) width head) [
        | inl (whole, n) ↦
            rw (n, whole) (window_sum-turn smoothing multiplier (length ys) head ys acc h refl)
        | inr (inl (part, straight, n, fits)) ↦
            rw (n, part, straight)
              (window_sum-segment smoothing multiplier width ys width head (suc head - width) acc
                (omega arith) h)
        | inr (inr (part, wraps, n, fits, over)) ↦
            let left : width - (width - suc head) ≡ suc head = omega arith in
            rw (n, part, wraps)
              (window_sum-round smoothing multiplier width ys (width - suc head) width head acc
                  (omega arith) (omega arith) (omega arith) (omega arith)
                ∙ rw left)
      ]
