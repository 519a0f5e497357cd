-- ===== src/Prelude/Results.antt =====
-- The outcome of a handler: it returns, it waits for ever because it asks for a lock that it holds
-- itself, or it panics.
use mathlib.Core.Path.{◌≡◌, refl}
use mathlib.Core.Logic.{◌⊎◌, inl, inr}
use mathlib.Core.Option.{Option, none, some}

pub data Result {ℓ} (A : Type ℓ) : Type ℓ where
  returns : A → Result A
  waits panics : Result A

infixl 5 ◌>>=◌
abbrev pub ◌>>=◌ {ℓ κ} : {A : Type ℓ} {B : Type κ} → Result A → (A → Result B) → Result B
returns a >>= f = f a
waits >>= f = waits
panics >>= f = panics

-- A missing value is a panic.
abbrev pub or_panic {ℓ} : {A : Type ℓ} → Option A → Result A
or_panic none = panics
or_panic (some a) = returns a

-- Every outcome, with its equation.
pub Result-cases {ℓ} :
    {A : Type ℓ} (r : Result A) → ((a : A) × (r ≡ returns a)) ⊎ ((r ≡ waits) ⊎ (r ≡ panics))
Result-cases (returns a) = inl (a, refl)
Result-cases waits = inr (inl refl)
Result-cases panics = inr (inr refl)
