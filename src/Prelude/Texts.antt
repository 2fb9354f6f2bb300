-- ===== src/Prelude/Texts.antt =====
-- Equality of texts as a decision.
use Prim.Native.String.{String}
use text.Mathlib.Text.{◌==◌}
use text.Mathlib.TextEquality.{eq_iff}
use mathlib.Core.Path.{◌≡◌, refl}
use mathlib.Core.Bool.{Bool, true, false}

unfoldable pub String_discrete : Discrete String
String_discrete s t = decide_by (s == t) (eq_iff s t).0 (eq_iff s t).1
  where
    decide_by : (b : Bool) → (b ≡ true → s ≡ t) → (s ≡ t → b ≡ true) → Dec (s ≡ t)
    decide_by true sound complete = yes (sound refl)
    decide_by false sound complete = no (λ e. cc (complete e))
