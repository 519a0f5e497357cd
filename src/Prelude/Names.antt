-- ===== src/Prelude/Names.antt =====
-- Go's strings as keys of maps: names, addresses and identifiers.
use Prim.Native.String.{String}
use mathlib.Core.Path.{◌≡◌}
use mathlib.Core.Bool.{Bool, true, false}
use text.Mathlib.Text.{◌==◌}
use text.Mathlib.TextEquality.{eq_iff}

decide_by : {s t : String} (b : Bool) → s == t ≡ b → Dec (s ≡ t)
decide_by {s} {t} true e = yes ((eq_iff s t).0 e)
decide_by {s} {t} false e = no (λ p. cc (e, (eq_iff s t).1 p))

unfoldable pub string_discrete : Discrete String
unfolding decide_by
string_discrete s t = decide_by (s == t) (λ i. s == t)
