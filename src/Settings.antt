-- ===== src/Settings.antt =====
-- services/analysis_config_service.py: what a YAML document may hold, what Python's conversions do
-- with it, and how a function of the module may end. `F` is the type of floats.
pub mod Constants
pub mod Document
pub mod Defaults
pub mod Request
pub mod Runtime
mod Tests
use becertain.Prelude.{
  ℕ, zero, suc, String, Bool, true, false, not, List, [], ◌∷◌, str_eq, if◌then◌else◌, arith, ◌≡◌,
  refl, sym, inl, inr, All, Bool-cases, eq_iff,
}
use mathlib.Core.Path.{subst}
use becertain.Value.{ℤ, pos, negsuc}
use becertain.Http.{HttpError, http_error}

mutual
  -- `other` is a value of any further type that YAML has, a date for one, by its text.
  pub data Yaml (F : Type 0) : Type 0 where
    null : Yaml F
    bool : Bool → Yaml F
    int : ℤ → Yaml F
    float : F → Yaml F
    str : String → Yaml F
    other : String → Yaml F
    list : Elements F → Yaml F
    dict : Entries F → Yaml F

  pub data Elements (F : Type 0) : Type 0 where
    nil : Elements F
    element : Yaml F → Elements F → Elements F

  pub data Entries (F : Type 0) : Type 0 where
    end : Entries F
    entry : Yaml F → Yaml F → Entries F → Entries F

-- A call of `float` or `int`: a value, a `TypeError` or a `ValueError`, or an `OverflowError`.
pub data Conversion (A : Type 0) : Type 0 where
  converted : A → Conversion A
  refused : Conversion A
  overflowed : Conversion A

pub data Exception : Type 0 where
  overflow_error attribute_error key_error value_error : Exception

-- A result, an `HTTPException`, or an exception that nothing in the module turns into one.
pub data Outcome (A : Type 0) : Type 0 where
  ok : A → Outcome A
  http : HttpError → Outcome A
  crashed : Exception → Outcome A

-- What the interpreter does with a value.
pub record Python (F : Type 0) : Type 0 where
  pub str_of : Yaml F → String
  pub to_float : Yaml F → Conversion F
  pub to_int : Yaml F → Conversion ℤ
  pub is_finite : F → Bool
  pub is_zero : F → Bool

-- `_http_400`
abbrev pub http_400 : {A : Type 0} → String → Outcome A
http_400 detail = http (http_error 400 detail)

infixl 5 ◌>>=◌
abbrev pub ◌>>=◌ : {A B : Type 0} → Outcome A → (A → Outcome B) → Outcome B
ok x >>= rest = rest x
http error >>= rest = http error
crashed exception >>= rest = crashed exception

-- `if c: raise _http_400(...)`
abbrev pub refuse_if : Bool → String → Outcome (Unit {0})
refuse_if false detail = ok tt
refuse_if true detail = http_400 detail

infixl 5 ◌>>◌
abbrev pub ◌>>◌ : {A : Type 0} → Outcome (Unit {0}) → Outcome A → Outcome A
check >> rest = check >>= λ _. rest

module _ {F : Type 0} (python : Python F) where
  -- `bool(v)`
  unfoldable pub is_truthy : Yaml F → Bool
  is_truthy null = false
  is_truthy (bool b) = b
  is_truthy (int (pos zero)) = false
  is_truthy (int (pos (suc n))) = true
  is_truthy (int (negsuc n)) = true
  is_truthy (float x) = not (python.is_zero x)
  is_truthy (str s) = not (str_eq s "")
  is_truthy (other s) = true
  is_truthy (list nil) = false
  is_truthy (list (element v vs)) = true
  is_truthy (dict end) = false
  is_truthy (dict (entry key v rest)) = true

  -- `str(v or "")`
  abbrev pub text_of : Yaml F → String
  text_of v = if is_truthy v then python.str_of v else ""

-- `d[key] = value` on a dict: the key keeps its place.
abbrev pub assign : {A : Type 0} → String → A → List (String × A) → List (String × A)
assign key value [] = (key, value) ∷ []
assign key value ((k, v) ∷ rest) =
    if str_eq k key then (k, value) ∷ rest else (k, v) ∷ assign key value rest

-- A call that gave a result: what it bound, and what followed.
pub bind-ok :
    {A B : Type 0} (m : Outcome A) (f : A → Outcome B) (b : B)
    → (m >>= f) ≡ ok b
    → (a : A) × (m ≡ ok a) × (f a ≡ ok b)
bind-ok (ok a) f b h = (a, refl, h)
bind-ok (http error) f b h = cc
bind-ok (crashed exception) f b h = cc

pub refuse_if-ok :
    {A : Type 0} (c : Bool) (detail : String) (m : Outcome A) (a : A)
    → (refuse_if c detail >> m) ≡ ok a
    → (c ≡ false) × (m ≡ ok a)
refuse_if-ok true detail m a h = cc
refuse_if-ok false detail m a h = (refl, h)

-- How a function of the module ends: with a result, with status 400, or with an exception for which
-- `P` is the reason.
unfoldable pub IsOrderly : {A : Type 0} → Type 0 → Outcome A → Type 0
IsOrderly P (ok x) = Unit
IsOrderly P (http error) = error.status_code ≡ 400
IsOrderly P (crashed exception) = (exception ≡ overflow_error) × P

module _ (P : Type 0) where
  pub IsOrderly-bind :
      {A B : Type 0} (m : Outcome A) (f : A → Outcome B)
      → IsOrderly P m
      → ((a : A) → m ≡ ok a → IsOrderly P (f a))
      → IsOrderly P (m >>= f)
  unfolding IsOrderly
  IsOrderly-bind (ok a) f p q = q a refl
  IsOrderly-bind (http error) f p q = p
  IsOrderly-bind (crashed exception) f p q = p

  pub IsOrderly-refuse_if : (c : Bool) (detail : String) → IsOrderly P (refuse_if c detail)
  unfolding IsOrderly
  IsOrderly-refuse_if true detail = refl
  IsOrderly-refuse_if false detail = tt

  pub IsOrderly-check :
      {A : Type 0} (c : Bool) (detail : String) (m : Outcome A)
      → IsOrderly P m
      → IsOrderly P (refuse_if c detail >> m)
  unfolding IsOrderly
  IsOrderly-check true detail m p = refl
  IsOrderly-check false detail m p = p

pub IsOrderly-imp :
    {A : Type 0} (P Q : Type 0) (m : Outcome A) → (P → Q) → IsOrderly P m → IsOrderly Q m
unfolding IsOrderly
IsOrderly-imp P Q (ok a) f h = tt
IsOrderly-imp P Q (http error) f h = h
IsOrderly-imp P Q (crashed exception) f (e, p) = (e, f p)

module _ {A : Type 0} where
  pub All-assign :
      (P : String × A → Type 0) (key : String) (value : A) (entries : List (String × A))
      → P (key, value)
      → All P entries
      → All P (assign key value entries)
  All-assign P key value [] p h = (p, tt)
  All-assign P key value ((k, v) ∷ rest) p h = elim (Bool-cases (str_eq k key)) [
    | inl same ↦ rw same (subst (λ name. P (name, value)) (sym ((eq_iff k key).0 same)) p, h.1)
    | inr later ↦ rw later (h.0, All-assign P key value rest p h.1)
  ]

module _ {A : Type 0} where
  -- What holds of the result that is returned holds of the result that is known.
  pub of_ok : (P : A → Type 0) {a b : A} → ok a ≡ ok b → P a → P b
  of_ok P {a} {b} e p = let same : a ≡ b = cc in subst P same p

pub not-false : (b : Bool) → not b ≡ false → b ≡ true
not-false b h = ground arith
