-- ===== src/Registration/Tallies.antt =====
-- Texts of numbers for the runs: tallies, odd ones for the natural numbers.
use Prim.Native.String.{String, [], ◌∷◌}
use Prim.Native.Char.{nul}
use dirigent.Prelude.{
  ℕ, zero, suc, ◌+◌, ◌-◌, ◌*◌, ◌/◌, ◌%◌, ◌==◌, ◌≡◌, ◌≢◌, refl, ap, none, some, true, false, ite,
  arith, if◌then◌else◌,
}
use dirigent.Prelude.Int.{ℤ, pos, negsuc}
use dirigent.Prelude.Names.{string_discrete}
use dirigent.Requests.{Parsers}
use dirigent.Registration.Forms.{IsParsers}

pub tally : ℕ → String
tally zero = []
tally (suc n) = nul ∷ tally n

pub measure : String → ℕ
measure [] = 0
measure (c ∷ s) = suc (measure s)

measure-tally : (n : ℕ) → measure (tally n) ≡ n
unfolding tally measure
measure-tally zero = refl
measure-tally (suc n) = ap suc (measure-tally n)

pub tally_of : ℤ → String
unfolding tally
tally_of (pos n) = tally (2 * n + 1)
tally_of (negsuc n) = tally (2 * n + 2)

pub number_of : ℕ → ℤ
number_of m = if m % 2 == 1 then pos (m / 2) else negsuc (m / 2 - 1)

abbrev pub tallies : Parsers
tallies = record {
  atoi = λ s. some (number_of (measure s));
  parse_bool = λ s.
      ite (string_discrete s "true") (some true)
        (ite (string_discrete s "false") (some false) none);
  address = λ ip port. ip;
}

number_of-tally_of : (n : ℤ) → number_of (measure (tally_of n)) ≡ n
unfolding tally_of number_of
number_of-tally_of (pos n) = ground (arith, measure-tally (2 * n + 1))
number_of-tally_of (negsuc n) = ground (arith, measure-tally (2 * n + 2))

nonempty : (n : ℤ) → measure (tally_of n) ≢ 0
unfolding tally_of
nonempty (pos n) e = omega (arith, measure-tally (2 * n + 1), e)
nonempty (negsuc n) e = omega (arith, measure-tally (2 * n + 2), e)

pub tallies-IsParsers : IsParsers tallies tally_of
unfolding string_discrete measure
tallies-IsParsers = record {
  atoi_itoa = λ n h. ap some (number_of-tally_of n);
  itoa_nonempty = λ n e. nonempty n (ap measure e);
  parse_true = refl;
  parse_false = refl;
}
