-- ===== src/Prelude/Int.antt =====
-- Signed integers over the native numbers, under the library's names (its ℤ stands on the unary ℕ),
-- with the wrap-around of Go's int32 and int64.
use Prim.Native.Nat.{ℕ, suc, ◌+◌, ◌-◌, ◌%◌, ◌^◌, ◌≤◌, ◌<◌}
use mathlib.Core.Path.{◌≡◌, refl, ap, sym, ◌∙◌}
use mathlib.Core.Logic.{◌↔◌}
use mathlib.Core.Bool.{Bool, true}
use native.Mathlib.Omega.{arith}
use dirigent.Prelude.Tests.{ltb, leb, ◌==◌, if◌then◌else◌}

-- `negsuc n` is -(n + 1).
pub data ℤ : Type 0 where
  pos : ℕ → ℤ
  negsuc : ℕ → ℤ

abbrev pub pos_part : ℤ → ℕ
pos_part (pos n) = n
pos_part (negsuc n) = 0

abbrev pub neg_part : ℤ → ℕ
neg_part (pos n) = 0
neg_part (negsuc n) = suc n

-- a - b, as an integer.
abbrev pub sub_ℕ : ℕ → ℕ → ℤ
sub_ℕ a b = if leb b a then pos (a - b) else negsuc (b - a - 1)

infixl 65 ◌+ℤ◌ ◌-ℤ◌
infix 50 ◌≤ℤ◌ ◌<ℤ◌ ◌==ℤ◌
unfoldable pub ◌+ℤ◌ : ℤ → ℤ → ℤ
a +ℤ b = sub_ℕ (pos_part a + pos_part b) (neg_part a + neg_part b)

unfoldable pub ◌-ℤ◌ : ℤ → ℤ → ℤ
a -ℤ b = sub_ℕ (pos_part a + neg_part b) (neg_part a + pos_part b)

abbrev pub ◌≤ℤ◌ : ℤ → ℤ → Type 0
a ≤ℤ b = pos_part a + neg_part b ≤ pos_part b + neg_part a

abbrev pub ◌<ℤ◌ : ℤ → ℤ → Type 0
a <ℤ b = pos_part a + neg_part b < pos_part b + neg_part a

abbrev pub ltb_ℤ : ℤ → ℤ → Bool
ltb_ℤ a b = ltb (pos_part a + neg_part b) (pos_part b + neg_part a)

abbrev pub leb_ℤ : ℤ → ℤ → Bool
leb_ℤ a b = leb (pos_part a + neg_part b) (pos_part b + neg_part a)

abbrev pub ◌==ℤ◌ : ℤ → ℤ → Bool
a ==ℤ b = pos_part a + neg_part b == pos_part b + neg_part a

-- The bit pattern of an int32, and the int32 of a bit pattern.
unfoldable pub residue32 : ℤ → ℕ
residue32 (pos n) = n % 2 ^ 32
residue32 (negsuc n) = 2 ^ 32 - 1 - n % 2 ^ 32

unfoldable pub signed32 : ℕ → ℤ
signed32 r = if ltb r (2 ^ 31) then pos r else negsuc (2 ^ 32 - 1 - r)

-- The value that an int32 holds after an operation whose exact result is the argument.
unfoldable pub wrap32 : ℤ → ℤ
unfolding signed32 residue32
wrap32 a = signed32 (residue32 a)

abbrev pub IsInt32 : ℤ → Type 0
IsInt32 a = (pos_part a < 2 ^ 31) × (neg_part a ≤ 2 ^ 31)

pub ==ℤ_iff : (a b : ℤ) → ((a ==ℤ b) ≡ true) ↔ (a ≡ b)
==ℤ_iff a b = ground arith

pub +ℤ_parts :
    (a b : ℤ)
    → pos_part (a +ℤ b) + neg_part a + neg_part b ≡ neg_part (a +ℤ b) + pos_part a + pos_part b
unfolding ◌+ℤ◌
+ℤ_parts a b = ground arith

pub -ℤ_parts :
    (a b : ℤ)
    → pos_part (a -ℤ b) + neg_part a + pos_part b ≡ neg_part (a -ℤ b) + pos_part a + neg_part b
unfolding ◌-ℤ◌
-ℤ_parts a b = ground arith

pub eq_of_parts : (a b : ℤ) → pos_part a + neg_part b ≡ pos_part b + neg_part a → a ≡ b
eq_of_parts a b h = ground arith

pub ruleset int_laws = (arith, +ℤ_parts, -ℤ_parts, eq_of_parts)

-- An int32 is its own wrap-around.
pub wrap32_of_IsInt32 : (a : ℤ) → IsInt32 a → wrap32 a ≡ a
unfolding wrap32
wrap32_of_IsInt32 (pos n) h = ground arith
wrap32_of_IsInt32 (negsuc n) h = ground arith

residue32-signed32 : (r : ℕ) → r < 2 ^ 32 → residue32 (signed32 r) ≡ r
unfolding residue32 signed32
residue32-signed32 r h = ground arith

residue32-lt : (a : ℤ) → residue32 a < 2 ^ 32
unfolding residue32
residue32-lt (pos n) = omega arith
residue32-lt (negsuc n) = omega arith

residue32_parts : (a : ℤ) → (residue32 a + neg_part a) % 2 ^ 32 ≡ pos_part a % 2 ^ 32
unfolding residue32
residue32_parts (pos n) = omega arith
residue32_parts (negsuc n) = omega arith

residue32-add : (a b : ℤ) → residue32 (a +ℤ b) ≡ (residue32 a + residue32 b) % 2 ^ 32
residue32-add a b = omega (
  arith,
  +ℤ_parts a b,
  residue32_parts a,
  residue32_parts b,
  residue32_parts (a +ℤ b),
  residue32-lt (a +ℤ b),
)

residue32-sub : (a b : ℤ) → residue32 (a -ℤ b) ≡ (residue32 a + 2 ^ 32 - residue32 b) % 2 ^ 32
residue32-sub a b = omega (
  arith,
  -ℤ_parts a b,
  residue32_parts a,
  residue32_parts b,
  residue32_parts (a -ℤ b),
  residue32-lt (a -ℤ b),
  residue32-lt b,
)

wrap32_lem : (a : ℤ) → wrap32 a ≡ signed32 (residue32 a)
unfolding wrap32
wrap32_lem a = refl

residue32-wrap32 : (a : ℤ) → residue32 (wrap32 a) ≡ residue32 a
residue32-wrap32 a = rw (wrap32_lem a) (residue32-signed32 (residue32 a) (residue32-lt a))

wrap32_of_residue : (a b : ℤ) → residue32 a ≡ residue32 b → wrap32 a ≡ wrap32 b
wrap32_of_residue a b h = wrap32_lem a ∙ ap signed32 h ∙ sym (wrap32_lem b)

-- Wrapping an operand first makes no difference to a wrapped sum or difference.
pub wrap32-add : (a b : ℤ) → wrap32 (wrap32 a +ℤ wrap32 b) ≡ wrap32 (a +ℤ b)
wrap32-add a b =
    wrap32_of_residue _ _
      (rw (residue32-add, residue32-wrap32 a, residue32-wrap32 b) (sym (residue32-add a b)))

pub wrap32-sub : (a b : ℤ) → wrap32 (wrap32 a -ℤ b) ≡ wrap32 (a -ℤ b)
wrap32-sub a b =
    wrap32_of_residue _ _ (rw (residue32-sub, residue32-wrap32 a) (sym (residue32-sub a b)))
