-- ===== src/Common/Text.antt =====
-- Texts: `std::string` compared whole, joined, and ordered as `std::map` orders its keys.
use Prim.Native.Char.{Char}
use Prim.Native.Nat.{ℕ, zero, suc, Ordering}
use Prim.Native.String.{String, compare}
use Prim.Native.String.{◌++◌ as ◌+str◌}
use mathlib.Core.Bool.{Bool, true, false}
use mathlib.Core.List.{List, [], ◌∷◌}
use text.Mathlib.Text.{◌==◌ as str_eq}
pub use text.Mathlib.Text.{◌==◌ as same_text}
pub use text.Mathlib.TextEquality.{eq_iff as same_text_iff}
pub use text.Mathlib.TextPositions.{eq_refl as same_text_refl}

abbrev pub join : String → String → String
join = ◌+str◌

-- `operator<` of `std::string`.
abbrev pub text_lt : String → String → Bool
text_lt s t = elim (compare s t) [ Ordering.lt ↦ true | _ ↦ false ]

abbrev pub is_empty : String → Bool
is_empty s = str_eq s ""

-- `a + b + c` of `std::string`.
abbrev pub concat : List String → String
concat [] = ""
concat (s ∷ ss) = join s (concat ss)

-- The character at an index of a text.
abbrev pub letter_at : String → ℕ → Char
letter_at String.[] n = "A"
letter_at (String.◌∷◌ c s) zero = c
letter_at (String.◌∷◌ c s) (suc n) = letter_at s n
