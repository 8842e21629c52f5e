-- ===== src/Store/Documents.antt =====
-- What the modules of store/ do with decoded JSON documents: a failed test ends a coercion with
-- `None`, or with an exception that its caller turns into one.
use mathlib.Core.Path.{subst}
use becertain.Store.Reading.{Reading, got, refused, overflowed, of_option}
use becertain.Prelude.{◌≡◌, refl, String, Bool, List, [], ◌∷◌, Option, none, some, if◌then◌else◌}
use becertain.Value.{ℤ, Value, Fields, bool, int, float, str, dict, end, field}

infixl 5 ◌>>=◌
abbrev pub ◌>>=◌ : {A B : Type 0} → Option A → (A → Option B) → Option B
◌>>=◌ none rest = none
◌>>=◌ (some x) rest = rest x

-- The `json` module and the constructors of numbers: `none` is a `ValueError` or a `TypeError`. An
-- `int` is in the range of floats. `int_of_float` is for a float that is not infinite.
pub record Json (F : Type 0) : Type 0 where
  pub loads : String → Option (Value F)
  pub dumps : Value F → Option String
  pub float_of_int : ℤ → F
  pub float_of_text : String → Option F
  pub is_infinite : F → Bool
  pub int_of_float : F → Option ℤ
  pub int_of_text : String → Option ℤ

module _ {F : Type 0} where
  -- `isinstance(value, str)`
  abbrev pub as_text : Value F → Option String
  as_text (str s) = some s
  as_text _ = none

  -- `value.get(key, default)`
  abbrev pub get_or : Option (Value F) → Value F → Value F
  get_or none default_value = default_value
  get_or (some v) default_value = v

  -- `_coerce_float`
  abbrev pub coerce_float : Json F → Value F → Option F
  coerce_float json (int n) = some (json.float_of_int n)
  coerce_float json (float x) = some x
  coerce_float json (str s) = json.float_of_text s
  coerce_float json _ = none

  -- A dict of texts only.
  abbrev pub text_fields : Fields F → Option (List (String × String))
  text_fields end = some []
  text_fields (field key v rest) = do
    item ← as_text v
    items ← text_fields rest
    some ((key, item) ∷ items)

  abbrev pub as_text_fields : Value F → Option (List (String × String))
  as_text_fields (dict d) = text_fields d
  as_text_fields _ = none

  abbrev pub dict_of : List (String × String) → Fields F
  dict_of [] = end
  dict_of ((key, item) ∷ items) = field key (str item) (dict_of items)

  -- `_coerce_int`
  abbrev pub coerce_int : Json F → Value F → Reading ℤ
  coerce_int json (int n) = got n
  coerce_int json (float x) =
      if json.is_infinite x then overflowed else of_option (json.int_of_float x)
  coerce_int json (str s) = of_option (json.int_of_text s)
  coerce_int json _ = refused

  -- `isinstance(value, bool)`
  abbrev pub as_bool : Value F → Option Bool
  as_bool (bool b) = some b
  as_bool _ = none

-- A chain that gave a value: what its first step gave, and what followed.
pub bind-some :
    {A B : Type 0} (m : Option A) (f : A → Option B) (b : B)
    → (m >>= f) ≡ some b
    → (a : A) × (m ≡ some a) × (f a ≡ some b)
bind-some none f b h = cc
bind-some (some a) f b h = (a, refl, h)

pub of_some : {A : Type 0} (P : A → Type 0) {a b : A} → some a ≡ some b → P a → P b
of_some P {a} {b} e p = let same : a ≡ b = cc in subst P same p
