-- ===== src/Prelude/Text.antt =====
-- Text by whole strings: comparison, Python's truth value of a text, and keys built by f-strings.
use Prim.Native.Nat.{ℕ, zero, suc}
use Prim.Native.String
use mathlib.Core.Bool.{Bool, true, false}
use mathlib.Core.Option.{Option, none, some}
pub use Prim.Native.String.{String}
pub use text.Mathlib.Text.{◌==◌ as str_eq, starts_with}
pub use text.Mathlib.TextEquality.{eq_iff}
pub use text.Mathlib.TextPositions.{eq_refl}

infixr 66 ◌<>◌
-- Concatenation of texts, as an f-string does it.
abbrev pub ◌<>◌ : String → String → String
s <> t = String.◌++◌ s t

-- `s[n:]` at n ≥ 0, by characters.
pub drop_chars : ℕ → String → String
drop_chars zero s = s
drop_chars (suc n) String.[] = String.[]
drop_chars (suc n) (String.◌∷◌ c s) = drop_chars n s

-- The truth value of a text that may be missing: `None` and the empty text are false.
abbrev pub truthy : Option String → Bool
truthy none = false
truthy (some String.[]) = false
truthy (some (String.◌∷◌ c s)) = true

-- `a or b`, for a text that may be missing.
abbrev pub or_else : Option String → String → String
or_else none d = d
or_else (some String.[]) d = d
or_else (some (String.◌∷◌ c s)) d = String.◌∷◌ c s
