-- ===== src/Prelude/Texts.antt =====
-- Texts as the code uses them: truncation by a slice, and Python's `or` on a text or a field.
use Prim.Native.Nat.{ℕ, zero, suc}
use Prim.Native.String.{String}
use Prim.Native.Char.{Char, code}
use mathlib.Core.Path.{◌≡◌}
use mathlib.Core.Bool.{Bool, false, ◌&&◌, ◌||◌}
use mathlib.Core.List.{List, [], ◌∷◌}
use mathlib.Core.Logic.{inl, inr}
use text.Mathlib.Text.{◌==◌ as str_eq}
use text.Mathlib.TextEquality.{eq_iff}
use text.Mathlib.TextLemmas.{cons-ne-nil}
use becertain.Prelude.Tests.{Bool-cases, ◌==◌, leb, if◌then◌else◌}
use mathlib.Core.Option.{Option, none, some}

-- `s[:n]`
abbrev pub text_take : ℕ → String → String
text_take zero s = ""
text_take (suc n) String.[] = ""
text_take (suc n) (String.◌∷◌ c s) = String.◌∷◌ c (text_take n s)

-- `s or t`
abbrev pub text_or : String → String → String
text_or String.[] t = t
text_or (String.◌∷◌ c s) t = String.◌∷◌ c s

-- `s or None`
abbrev pub text_or_none : String → Option String
text_or_none String.[] = none
text_or_none (String.◌∷◌ c s) = some (String.◌∷◌ c s)

-- `x or y`, on a field that may be `None`
abbrev pub or_else {ℓ} : {A : Type ℓ} → Option A → A → A
or_else none y = y
or_else (some x) y = x

pub cons-eq-empty : (c : Char) (s : String) → str_eq (String.◌∷◌ c s) "" ≡ false
cons-eq-empty c s = elim (Bool-cases (str_eq (String.◌∷◌ c s) "")) [
  | inl e ↦ absurd (cons-ne-nil c s ((eq_iff _ _).0 e))
  | inr e ↦ e
]

-- The whitespace that `str.strip` removes, of the ASCII characters.
abbrev pub is_space : Char → Bool
is_space c = let n = code c in n == 32 || (leb 9 n && leb n 13) || (leb 28 n && leb n 31)

abbrev pub strip_left : String → String
strip_left String.[] = ""
strip_left (String.◌∷◌ c s) = if is_space c then strip_left s else String.◌∷◌ c s

abbrev pub strip_right : String → String
strip_right String.[] = ""
strip_right (String.◌∷◌ c s) =
    let rest = strip_right s in if is_space c && str_eq rest "" then "" else String.◌∷◌ c rest

-- `s.strip()`
abbrev pub strip : String → String
strip s = strip_right (strip_left s)

-- `text in texts`
abbrev pub contains : String → List String → Bool
contains text [] = false
contains text (t ∷ ts) = str_eq t text || contains text ts
