-- ===== src/Value.antt =====
-- The values of a decoded JSON document, as Python objects, with the dict operations and the truth
-- test that the code uses on them. `F` is the type of floats.
use becertain.Prelude.{
  ℕ, zero, suc, Bool, true, false, not, String, Option, none, some, str_eq, if◌then◌else◌,
}

-- `negsuc n` is -(n + 1).
pub data ℤ : Type 0 where
  pos : ℕ → ℤ
  negsuc : ℕ → ℤ

mutual
  pub data Value (F : Type 0) : Type 0 where
    null : Value F
    bool : Bool → Value F
    int : ℤ → Value F
    float : F → Value F
    str : String → Value F
    list : Items F → Value F
    dict : Fields F → Value F

  pub data Items (F : Type 0) : Type 0 where
    nil : Items F
    cons : Value F → Items F → Items F

  pub data Fields (F : Type 0) : Type 0 where
    end : Fields F
    field : String → Value F → Fields F → Fields F

-- What the interpreter does with a value, other than the code of the repository: `str(v)`,
-- `int(s)`, and the floats.
pub record Runtime (F : Type 0) : Type 0 where
  pub str_of : Value F → String
  pub int_of_text : String → Option ℤ
  pub is_finite : F → Bool
  pub truncate : F → ℤ
  pub is_zero : F → Bool

module _ {F : Type 0} where
  -- `d.get(key)`; the keys of a dict are unique, and the first one is the one.
  unfoldable pub get_field : String → Fields F → Option (Value F)
  get_field key end = none
  get_field key (field name v rest) = if str_eq name key then some v else get_field key rest

  abbrev pub or_null : Option (Value F) → Value F
  or_null none = null
  or_null (some v) = v

  -- `bool(v)`
  abbrev pub is_truthy : Runtime F → Value F → Bool
  is_truthy rt null = false
  is_truthy rt (bool b) = b
  is_truthy rt (int (pos zero)) = false
  is_truthy rt (int (pos (suc n))) = true
  is_truthy rt (int (negsuc n)) = true
  is_truthy rt (float x) = not (rt.is_zero x)
  is_truthy rt (str s) = not (str_eq s "")
  is_truthy rt (list nil) = false
  is_truthy rt (list (cons v vs)) = true
  is_truthy rt (dict end) = false
  is_truthy rt (dict (field key v fs)) = true
