-- ===== src/Prelude/Text.antt =====
-- Texts, which the program joins, compares and looks up.
use Prim.Native.Nat.{ℕ}
pub use Prim.Native.String.{String}
use Prim.Native.String.{◌++◌, slice}
use mathlib.Core.List.{List, [], ◌∷◌}
use mathlib.Core.Path.{◌≡◌}
use mathlib.Core.Bool.{true}
pub use text.Mathlib.Text.{◌==◌ as str_eq}
pub use text.Mathlib.TextEquality.{eq_iff}

-- An f-string, as the list of its pieces.
unfoldable pub concat : List String → String
concat [] = ""
concat (s ∷ rest) = s ++ concat rest

-- `sep.join(parts)`
unfoldable pub join : String → List String → String
unfolding concat
join sep [] = ""
join sep (s ∷ []) = s
join sep (s ∷ rest) = s ++ sep ++ join sep rest

-- `text[:n]`, for a text of ASCII characters
unfoldable pub prefix : String → ℕ → String
prefix s n = slice s 0 n

pub str_eq_refl : (s : String) → str_eq s s ≡ true
str_eq_refl s = (eq_iff s s).1 λ _. s
