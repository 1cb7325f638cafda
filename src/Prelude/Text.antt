-- ===== src/Prelude/Text.antt =====
-- Go strings, of which the program compares, joins and measures some. `str_eq` is Go's `==`.
use Prim.Native.String.{String}
use mathlib.Core.Path.{◌≡◌}
use mathlib.Core.Bool.{Bool, true}
use text.Mathlib.Text.{◌==◌}
pub use text.Mathlib.Text.{starts_with}
use text.Mathlib.TextEquality.{eq_iff}

abbrev pub str_eq : String → String → Bool
str_eq s t = s == t

pub str_eq_iff : (s t : String) → (str_eq s t ≡ true → s ≡ t) × (s ≡ t → str_eq s t ≡ true)
str_eq_iff s t = eq_iff s t
