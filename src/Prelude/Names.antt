-- ===== src/Prelude/Names.antt =====
-- Names as the keys of dicts.
use Prim.Native.String.{String}
use mathlib.Core.Path.{◌≡◌, refl, sym, ◌∙◌}
use mathlib.Core.Bool.{Bool, true, false, true≢false}
use text.Mathlib.Text.{◌==◌ as str_eq}
use text.Mathlib.TextEquality.{eq_iff}

abbrev same_name : (s t : String) (b : Bool) → str_eq s t ≡ b → Dec (s ≡ t)
same_name s t true e = yes ((eq_iff s t).0 e)
same_name s t false e = no (λ p. true≢false (sym ((eq_iff s t).1 p) ∙ e))

unfoldable pub String-discrete : Discrete String
String-discrete s t = same_name s t (str_eq s t) refl
