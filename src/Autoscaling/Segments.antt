-- ===== src/Autoscaling/Segments.antt =====
-- Stretches of a list, newest first, for the ring of buckets of windowAverage in
-- internal/control_plane/autoscaling/autoscaling.go.
use dirigent.Prelude.{
  ℕ, zero, suc, ◌+◌, ◌-◌, ◌<◌, ◌≤◌, ◌≡◌, refl, List, [], ◌∷◌, ◌++◌, Option, none, some, arith,
  length, get_elem?, set, get_elem?-some, ap, sym, ◌∙◌,
}

module _ {ℓ} {A : Type ℓ} where
  abbrev pub cons? : Option A → List A → List A
  cons? none l = l
  cons? (some x) l = x ∷ l

  -- The first `n` values, the last of them first.
  unfoldable pub below : List A → ℕ → List A
  below xs zero = []
  below xs (suc n) = cons? (get_elem? xs n) (below xs n)

  -- The `n` values from index `lo` on, the last of them first.
  unfoldable pub segment : List A → ℕ → ℕ → List A
  segment xs lo zero = []
  segment xs lo (suc n) = cons? (get_elem? xs (lo + n)) (segment xs lo n)

  -- The values of the ring, newest first: `head` is where the next value goes.
  unfoldable pub recent : List A → ℕ → List A
  recent xs head = below xs head ++ segment xs head (length xs - head)

  unfoldable pub take : ℕ → List A → List A
  take zero xs = []
  take (suc n) [] = []
  take (suc n) (x ∷ xs) = x ∷ take n xs

  pub take-append : (xs ys : List A) → take (length xs) (xs ++ ys) ≡ xs
  unfolding take
  take-append [] ys = refl
  take-append (x ∷ xs) ys = ap (◌∷◌ x) (take-append xs ys)

  pub segment-zero : (xs : List A) (n : ℕ) → segment xs 0 n ≡ below xs n
  unfolding below segment
  segment-zero xs zero = refl
  segment-zero xs (suc n) = let e : 0 + n ≡ n = omega arith in rw (e, segment-zero xs n)

  pub get_elem?-append :
      (xs ys : List A) (i : ℕ) → i < length xs → get_elem? (xs ++ ys) i ≡ get_elem? xs i
  get_elem?-append [] ys i h = elim h [ ]
  get_elem?-append (x ∷ xs) ys zero h = refl
  get_elem?-append (x ∷ xs) ys (suc i) h = get_elem?-append xs ys i (omega arith)

  pub get_elem?-append_last : (xs : List A) (y : A) → get_elem? (xs ++ y ∷ []) (length xs) ≡ some y
  get_elem?-append_last [] y = refl
  get_elem?-append_last (x ∷ xs) y = get_elem?-append_last xs y

  pub get_elem?-set_self :
      (xs : List A) (i : ℕ) (v : A) → i < length xs → get_elem? (set xs i v) i ≡ some v
  get_elem?-set_self [] i v h = elim h [ ]
  get_elem?-set_self (x ∷ xs) zero v h = refl
  get_elem?-set_self (x ∷ xs) (suc i) v h = get_elem?-set_self xs i v (omega arith)

  pub get_elem?-set_lt :
      (xs : List A) (i j : ℕ) (v : A) → j < i → get_elem? (set xs i v) j ≡ get_elem? xs j
  get_elem?-set_lt [] i j v h = refl
  get_elem?-set_lt (x ∷ xs) zero j v h = elim h [ ]
  get_elem?-set_lt (x ∷ xs) (suc i) zero v h = refl
  get_elem?-set_lt (x ∷ xs) (suc i) (suc j) v h = get_elem?-set_lt xs i j v (omega arith)

  pub get_elem?-set_gt :
      (xs : List A) (i j : ℕ) (v : A) → i < j → get_elem? (set xs i v) j ≡ get_elem? xs j
  get_elem?-set_gt [] i j v h = refl
  get_elem?-set_gt (x ∷ xs) i zero v h = elim h [ ]
  get_elem?-set_gt (x ∷ xs) zero (suc j) v h = refl
  get_elem?-set_gt (x ∷ xs) (suc i) (suc j) v h = get_elem?-set_gt xs i j v (omega arith)

  pub below-append : (xs ys : List A) (n : ℕ) → n ≤ length xs → below (xs ++ ys) n ≡ below xs n
  unfolding below
  below-append xs ys zero h = refl
  below-append xs ys (suc n) h = rw (get_elem?-append xs ys n h, below-append xs ys n (omega arith))

  pub below-set : (xs : List A) (i n : ℕ) (v : A) → n ≤ i → below (set xs i v) n ≡ below xs n
  unfolding below
  below-set xs i zero v h = refl
  below-set xs i (suc n) v h = rw (get_elem?-set_lt xs i n v h, below-set xs i n v (omega arith))

  pub segment-set :
      (xs : List A) (i lo n : ℕ) (v : A) → i < lo → segment (set xs i v) lo n ≡ segment xs lo n
  unfolding segment
  segment-set xs i lo zero v h = refl
  segment-set xs i lo (suc n) v h =
      rw (get_elem?-set_gt xs i (lo + n) v (omega arith), segment-set xs i lo n v h)

  pub length-below : (xs : List A) (n : ℕ) → n ≤ length xs → length (below xs n) ≡ n
  unfolding below
  length-below xs zero h = refl
  length-below xs (suc n) h =
      let (x, e) = get_elem?-some xs n h in rw e (ap suc (length-below xs n (omega arith)))

  pub length-segment : (xs : List A) (lo n : ℕ) → lo + n ≤ length xs → length (segment xs lo n) ≡ n
  unfolding segment
  length-segment xs lo zero h = refl
  length-segment xs lo (suc n) h =
      let (x, e) = get_elem?-some xs (lo + n) (omega arith) in
      rw e (ap suc (length-segment xs lo n (omega arith)))

  pub cons?-append : (o : Option A) (l r : List A) → cons? o l ++ r ≡ cons? o (l ++ r)
  cons?-append none l r = refl
  cons?-append (some x) l r = refl

  -- The oldest value of a segment stands last.
  pub segment-oldest :
      (xs : List A) (lo n : ℕ) → segment xs lo (suc n) ≡ segment xs (suc lo) n ++ segment xs lo 1
  unfolding segment
  segment-oldest xs lo zero = refl
  segment-oldest xs lo (suc n) =
      let e : lo + suc n ≡ suc lo + n = omega arith in
      ap (λ k. cons? (get_elem? xs k) (segment xs lo (suc n))) e
      ∙ ap (cons? (get_elem? xs (suc lo + n))) (segment-oldest xs lo n)
      ∙ sym (cons?-append (get_elem? xs (suc lo + n)) (segment xs (suc lo) n) (segment xs lo 1))
