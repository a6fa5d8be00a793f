-- ===== src/Prelude/Text.antt =====
-- Equality of texts is decidable.
use Prim.Native.String.{String}
use mathlib.Core.Path.{◌≡◌, refl}
use mathlib.Core.Bool.{Bool, true, false}
use text.Mathlib.Text.{◌==◌}
use text.Mathlib.TextEquality.{eq_iff}

pub differ : (s t : String) → ¬ ((s == t) ≡ true) → ¬ (s ≡ t)
differ s t h = λ e. h ((eq_iff s t).1 e)

decide_by : (s t : String) (b : Bool) → (s == t) ≡ b → Dec (s ≡ t)
decide_by s t true e = yes ((eq_iff s t).0 e)
decide_by s t false e = no (differ s t (λ p. cc))

unfoldable pub str_discrete : Discrete String
unfolding decide_by
str_discrete s t = decide_by s t (s == t) refl
