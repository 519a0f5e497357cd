-- ===== src/Autoscaling/Recent.antt =====
-- The ring of buckets of windowAverage in internal/control_plane/autoscaling/autoscaling.go, read as
-- the values that were recorded last, newest first.
use mathlib.Core.Path.{ap₂}
use mathlib.Core.List.{append-nil, append_assoc}
use dirigent.Prelude.{
  ℕ, zero, suc, ◌+◌, ◌-◌, ◌<◌, ◌≤◌, ◌≡◌, ◌⊎◌, inl, inr, refl, List, [], ◌∷◌, ◌++◌, arith, length,
  get_elem?, set, length-append, length-set, ap, sym, ◌∙◌, subst, min, leb, if◌then◌else◌,
}
unfoldable pub use dirigent.Autoscaling.Segments.{below, segment, recent, take}
use dirigent.Autoscaling.Segments.{
  cons?, take-append, segment-zero, get_elem?-append_last, get_elem?-set_self, below-append,
  below-set, segment-set, length-below, length-segment, cons?-append, segment-oldest,
}

-- The next position of the head.
abbrev pub next_head : ℕ → ℕ → ℕ
next_head size head = if leb size (head + 1) then 0 else head + 1

next_head_cases :
    (size head : ℕ)
    → head < size
    → ((next_head size head ≡ 0) × (size ≡ suc head))
      ⊎ ((next_head size head ≡ suc head) × (suc head < size))
next_head_cases size head h = ground arith

module _ {ℓ} {A : Type ℓ} where
  -- The ring while it grows to its size, and once it is full.
  abbrev pub IsRing : ℕ → List A → ℕ → Type 0
  IsRing size xs head = (head < size) × ((length xs ≡ head) ⊎ (length xs ≡ size))

  pub length-take : (n : ℕ) (xs : List A) → length (take n xs) ≡ min n (length xs)
  unfolding take
  length-take zero xs = omega arith
  length-take (suc n) [] = omega arith
  length-take (suc n) (x ∷ xs) = omega (arith, length-take n xs)

  pub take_all : (n : ℕ) (xs : List A) → length xs ≤ n → take n xs ≡ xs
  unfolding take
  take_all zero [] h = refl
  take_all zero (x ∷ xs) h = elim h [ ]
  take_all (suc n) [] h = refl
  take_all (suc n) (x ∷ xs) h = ap (◌∷◌ x) (take_all n xs (omega arith))

  -- The values from the head's position backwards, once round the ring.
  abbrev pub round : List A → ℕ → List A
  round xs head = below xs (suc head) ++ segment xs (suc head) (length xs - suc head)

  recent-zero : (xs : List A) → recent xs 0 ≡ below xs (length xs)
  unfolding recent below
  recent-zero xs =
      let e : length xs - 0 ≡ length xs = omega arith in rw e (segment-zero xs (length xs))

  round_full :
      (xs : List A) (head : ℕ) → length xs ≡ suc head → round xs head ≡ below xs (length xs)
  unfolding segment
  round_full xs head e =
      let none_left : length xs - suc head ≡ 0 = omega arith in rw (none_left, append-nil, e)

  pub recent-next :
      (size : ℕ) (xs : List A) (head : ℕ)
      → head < size
      → (length xs ≡ suc head) ⊎ (length xs ≡ size)
      → recent xs (next_head size head) ≡ round xs head
  recent-next size xs head h l = elim (next_head_cases size head h) [
    | inl (z, last) ↦ rw z (recent-zero xs ∙ sym (round_full xs head (ground arith)))
    | inr (n, _) ↦ rw n (unfold recent in refl)
  ]

  pub round-append :
      (size : ℕ) (xs : List A) (v : A)
      → length xs < size
      → round (xs ++ v ∷ []) (length xs) ≡ take size (v ∷ recent xs (length xs))
  unfolding recent segment
  round-append size xs v h =
      let none_left : length (xs ++ v ∷ []) - suc (length xs) ≡ 0 =
        omega (arith, length-append xs (v ∷ [])) in
      let none_older : length xs - length xs ≡ 0 = omega arith in
      rw (none_left, none_older, append-nil, append-nil)
        (newest
          ∙ sym (
              take_all size (v ∷ below xs (length xs))
                (omega (arith, length-below xs (length xs)))))
    where
      newest : below (xs ++ v ∷ []) (suc (length xs)) ≡ v ∷ below xs (length xs)
      newest =
          unfold below in
          rw (get_elem?-append_last xs v, below-append xs (v ∷ []) (length xs) (omega arith)) refl

  pub round-set :
      (xs : List A) (head : ℕ) (v : A)
      → head < length xs
      → round (set xs head v) head ≡ take (length xs) (v ∷ recent xs head)
  round-set xs head v h = newest ∙ sym (take_kept ∙ take-append kept (segment xs head 1))
    where
      left : ℕ
      left = length xs - suc head

      kept : List A
      kept = v ∷ (below xs head ++ segment xs (suc head) left)

      newest : round (set xs head v) head ≡ kept
      newest =
          unfold below in
          rw (
            get_elem?-set_self xs head v h,
            below-set xs head head v (omega arith),
            length-set xs head v,
            segment-set xs head (suc head) (length xs - suc head) v (omega arith),
          )

      length-kept : length kept ≡ length xs
      length-kept = omega (
        arith,
        length-append (below xs head) (segment xs (suc head) left),
        length-below xs head (omega arith),
        length-segment xs (suc head) left (omega arith),
      )

      older : recent xs head ≡ (below xs head ++ segment xs (suc head) left) ++ segment xs head 1
      older =
          let e : length xs - head ≡ suc (length xs - suc head) = omega arith in
          unfold recent in rw (e, segment-oldest, append_assoc)

      take_kept :
          take (length xs) (v ∷ recent xs head) ≡ take (length kept) (kept ++ segment xs head 1)
      take_kept = rw (length-kept, older)

  unfoldable pub drop : ℕ → List A → List A
  drop zero xs = xs
  drop (suc n) [] = []
  drop (suc n) (x ∷ xs) = drop n xs

  pub take-append_length : (n : ℕ) (xs ys : List A) → length xs ≡ n → take n (xs ++ ys) ≡ xs
  take-append_length n xs ys e = subst (λ k. take k (xs ++ ys) ≡ xs) e (take-append xs ys)

  drop-append : (xs ys : List A) → drop (length xs) (xs ++ ys) ≡ ys
  unfolding drop
  drop-append [] ys = refl
  drop-append (x ∷ xs) ys = drop-append xs ys

  pub drop-append_length : (n : ℕ) (xs ys : List A) → length xs ≡ n → drop n (xs ++ ys) ≡ ys
  drop-append_length n xs ys e = subst (λ k. drop k (xs ++ ys) ≡ ys) e (drop-append xs ys)

  -- A segment is its newer part and then its older part.
  pub segment-split :
      (xs : List A) (lo newer older n : ℕ)
      → n ≡ older + newer
      → segment xs lo n ≡ segment xs (lo + older) newer ++ segment xs lo older
  unfolding segment
  segment-split xs lo zero older n e = ap (segment xs lo) (omega (arith, e))
  segment-split xs lo (suc newer) older zero e = absurd (omega arith)
  segment-split xs lo (suc newer) older (suc n) e =
      let here : lo + n ≡ lo + older + newer = omega arith in
      ap (λ k. cons? (get_elem? xs k) (segment xs lo n)) here
      ∙ ap (cons? (get_elem? xs (lo + older + newer)))
          (segment-split xs lo newer older n (omega arith))
      ∙ sym (
          cons?-append (get_elem? xs (lo + older + newer)) (segment xs (lo + older) newer)
            (segment xs lo older))

  pub length-round :
      (xs : List A) (head : ℕ) → head < length xs → length (round xs head) ≡ length xs
  length-round xs head h = omega (
    arith,
    length-append (below xs (suc head)) (segment xs (suc head) (length xs - suc head)),
    length-below xs (suc head) h,
    length-segment xs (suc head) (length xs - suc head) (omega arith),
  )

  -- A straight run down from the head is the newest values of the round.
  pub take-round :
      (xs : List A) (head width : ℕ)
      → head < length xs
      → width ≤ suc head
      → take width (round xs head) ≡ segment xs (suc head - width) width
  take-round xs head width h l =
      ap (take width)
        (ap (λ r. r ++ older) split ∙ append_assoc newest (segment xs 0 (suc head - width)) older)
      ∙ take-append_length width newest _ (length-segment xs (suc head - width) width (omega arith))
    where
      older : List A
      older = segment xs (suc head) (length xs - suc head)

      newest : List A
      newest = segment xs (suc head - width) width

      split : below xs (suc head) ≡ newest ++ segment xs 0 (suc head - width)
      split =
          let e : 0 + (suc head - width) ≡ suc head - width = omega arith in
          sym (segment-zero xs (suc head))
          ∙ segment-split xs 0 width (suc head - width) (suc head) (omega arith)
          ∙ rw e

  -- A run that wraps at `width` reads the newest values, and then the oldest ones of the round.
  pub wrapped-round :
      (xs : List A) (head width : ℕ)
      → suc head < width
      → width < length xs
      → below xs (suc head) ++ segment xs (suc head) (width - suc head)
        ≡ take (suc head) (round xs head) ++ drop (length xs + suc head - width) (round xs head)
  wrapped-round xs head width h l =
      ap (◌++◌ (below xs (suc head))) (
        sym (
          drop-append_length (length xs + suc head - width) (below xs (suc head) ++ newer) older
            length_newer))
      ∙ ap₂ (λ a b. a ++ drop (length xs + suc head - width) b)
          (sym (
            take-append_length (suc head) (below xs (suc head)) _
              (length-below xs (suc head) (omega arith))))
          (append_assoc (below xs (suc head)) newer older
            ∙ ap (◌++◌ (below xs (suc head))) (sym whole))
    where
      newer : List A
      newer = segment xs (suc head + (width - suc head)) (length xs - width)

      older : List A
      older = segment xs (suc head) (width - suc head)

      whole : segment xs (suc head) (length xs - suc head) ≡ newer ++ older
      whole =
          segment-split xs (suc head) (length xs - width) (width - suc head) (length xs - suc head)
            (omega arith)

      length_newer : length (below xs (suc head) ++ newer) ≡ length xs + suc head - width
      length_newer = omega (
        arith,
        length-append (below xs (suc head)) newer,
        length-below xs (suc head) (omega arith),
        length-segment xs (suc head + (width - suc head)) (length xs - width) (omega arith),
      )
