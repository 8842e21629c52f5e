-- ===== src/Settings/Constants/Refused.antt =====
-- How the constants of a document are refused: always by status 400, unless a number is too large.
use becertain.Prelude.{
  ◌≡◌, ◌≢◌, refl, String, true, not, List, [], ◌∷◌, none, str_eq, ◌||◌, ◌⊎◌, inl, inr, All,
  Bool-cases, Option-cases, List-cases, contains, strip, eq_iff, arith,
}
use becertain.Value.{ℤ}
use becertain.Security.Texts.{insert_unique}
use becertain.Settings.{
  Yaml, Elements, Entries, list, dict, nil, element, end, entry, Conversion, converted, refused,
  overflowed, Outcome, ok, Python, text_of, ◌>>=◌, IsOrderly, IsOrderly-bind, IsOrderly-check,
}
use becertain.Settings.Constants.{
  Constant, texts, floats, ints, number, text, overridable_constant_keys, target_of, or_refuse,
  string_items, float_items, int_items, normalize_string_list, normalize_float_dict,
  normalize_int_dict, normalize_alpha, normalize_text, normalize_constant, constant_items,
  unknown_constants, normalize_constant_overrides, is_bool, is_number_or_text, or_key_error,
  keys_of,
}

-- Every key has a target.
IsKnown : {A : Type 0} → String × A → Type 0
IsKnown e = target_of e.0 overridable_constant_keys ≢ none

pub insert_unique-ne-nil : (s : String) (l : List String) → insert_unique s l ≢ []
insert_unique-ne-nil s [] e = cc
insert_unique-ne-nil s (t ∷ ts) e = ground arith

contains-target_of :
    (key : String) (table : List (String × String))
    → contains key (keys_of table) ≡ true
    → target_of key table ≢ none
unfolding target_of
contains-target_of key [] h e = cc
contains-target_of key ((k, target) ∷ rest) h e =
    ground (arith, eq_iff k key, eq_iff key k, contains-target_of key rest)

module _ {A : Type 0} where
  unknown_constants-IsKnown :
      (raw : List (String × A)) → unknown_constants raw ≡ [] → All IsKnown raw
  unfolding IsKnown
  unknown_constants-IsKnown [] h = tt
  unknown_constants-IsKnown ((key, value) ∷ rest) h =
      elim (Bool-cases (contains key (keys_of overridable_constant_keys))) [
        | inl known ↦ (
          contains-target_of key overridable_constant_keys known,
          unknown_constants-IsKnown rest (rw known at h),
        )
        | inr unknown ↦ absurd (insert_unique-ne-nil key _ (rw unknown at h))
      ]

module _ {F : Type 0} (python : Python F) where
  -- The value is a number that does not fit.
  Overflows : Yaml F → Type 0
  Overflows v = (python.to_float v ≡ overflowed) ⊎ (python.to_int v ≡ overflowed)

  -- One of the values of a mapping does not fit.
  EntryOverflows : Entries F → Type 0
  unfolding Overflows
  EntryOverflows end = ⊥
  EntryOverflows (entry key raw rest) = Overflows raw ⊎ EntryOverflows rest

  HoldsOverflow : Yaml F → Type 0
  unfolding EntryOverflows
  HoldsOverflow (dict entries) = EntryOverflows entries
  HoldsOverflow v = ⊥

  abbrev ValueOverflows : Yaml F → Type 0
  ValueOverflows v = Overflows v ⊎ HoldsOverflow v

  unfoldable pub HasOverflow : List (String × Yaml F) → Type 0
  unfolding HoldsOverflow Overflows
  HasOverflow [] = ⊥
  HasOverflow ((key, value) ∷ rest) = ValueOverflows value ⊎ HasOverflow rest

module _ {F : Type 0} (python : Python F) (P : Type 0) where
  abbrev Ends : {A : Type 0} → Outcome A → Type 0
  Ends m = IsOrderly P m

  Ends-or_refuse :
      {A : Type 0} (c : Conversion A) (detail : String)
      → (c ≡ overflowed → P)
      → Ends (or_refuse c detail)
  unfolding IsOrderly
  Ends-or_refuse (converted x) detail h = tt
  Ends-or_refuse refused detail h = refl
  Ends-or_refuse overflowed detail h = (refl, h refl)

  Ends-to_float :
      (raw : Yaml F) (detail : String)
      → (Overflows python raw → P)
      → Ends (or_refuse (python.to_float raw) detail)
  unfolding Overflows
  Ends-to_float raw detail h = Ends-or_refuse (python.to_float raw) detail (λ e. h (inl e))

  Ends-to_int :
      (raw : Yaml F) (detail : String)
      → (Overflows python raw → P)
      → Ends (or_refuse (python.to_int raw) detail)
  unfolding Overflows
  Ends-to_int raw detail h = Ends-or_refuse (python.to_int raw) detail (λ e. h (inr e))

  Ends-string_items :
      (name : String) (items : Elements F) (done : List String)
      → Ends (string_items python name items done)
  unfolding string_items IsOrderly
  Ends-string_items name nil done = tt
  Ends-string_items name (element item rest) done =
      IsOrderly-check P (str_eq (strip (text_of python item)) "") _ _
        (Ends-string_items name rest _)

  Ends-float_items :
      (name : String) (entries : Entries F) (done : List (String × F))
      → (EntryOverflows python entries → P)
      → Ends (float_items python name entries done)
  unfolding float_items IsOrderly EntryOverflows
  Ends-float_items name end done h = tt
  Ends-float_items name (entry key raw rest) done h =
      IsOrderly-check P (str_eq (strip (text_of python key)) "") _ _ (
        IsOrderly-bind P (or_refuse (python.to_float raw) _) _
          (Ends-to_float raw _ (λ o. h (inl o)))
          (λ x _.
            IsOrderly-check P (not (python.is_finite x)) _ _
              (Ends-float_items name rest _ (λ o. h (inr o)))))

  Ends-int_items :
      (name : String) (entries : Entries F) (done : List (String × ℤ))
      → (EntryOverflows python entries → P)
      → Ends (int_items python name entries done)
  unfolding int_items IsOrderly EntryOverflows
  Ends-int_items name end done h = tt
  Ends-int_items name (entry key raw rest) done h =
      IsOrderly-check P (str_eq (strip (text_of python key)) "") _ _ (
        IsOrderly-check P (is_bool raw) _ _ (
          IsOrderly-bind P (or_refuse (python.to_int raw) _) _ (Ends-to_int raw _ (λ o. h (inl o)))
            (λ n _. Ends-int_items name rest _ (λ o. h (inr o)))))

  Ends-normalize_string_list :
      (name : String) (value : Yaml F) → Ends (normalize_string_list python name value)
  unfolding normalize_string_list IsOrderly
  Ends-normalize_string_list name (list items) = Ends-string_items name items []
  Ends-normalize_string_list name _ = refl

  Ends-normalize_float_dict :
      (name : String) (value : Yaml F)
      → (ValueOverflows python value → P)
      → Ends (normalize_float_dict python name value)
  unfolding normalize_float_dict IsOrderly HoldsOverflow
  Ends-normalize_float_dict name (dict entries) h =
      Ends-float_items name entries [] (λ o. h (inr o))
  Ends-normalize_float_dict name _ h = refl

  Ends-normalize_int_dict :
      (name : String) (value : Yaml F)
      → (ValueOverflows python value → P)
      → Ends (normalize_int_dict python name value)
  unfolding normalize_int_dict IsOrderly HoldsOverflow
  Ends-normalize_int_dict name (dict entries) h = Ends-int_items name entries [] (λ o. h (inr o))
  Ends-normalize_int_dict name _ h = refl

  Ends-normalize_alpha :
      (value : Yaml F) → (ValueOverflows python value → P) → Ends (normalize_alpha python value)
  unfolding normalize_alpha IsOrderly
  Ends-normalize_alpha value h = IsOrderly-check P (is_bool value) _ _ (
      IsOrderly-check P (not (is_number_or_text value)) _ _ (
        IsOrderly-bind P (or_refuse (python.to_float value) _) _
          (Ends-to_float value _ (λ o. h (inl o)))
          (λ x _. IsOrderly-check P (not (python.is_finite x)) _ _ tt)))

  Ends-normalize_text : (key : String) (value : Yaml F) → Ends (normalize_text python key value)
  unfolding normalize_text IsOrderly
  Ends-normalize_text key value =
      IsOrderly-check P (str_eq (strip (text_of python value)) "") _ _ tt

  Ends-wrap :
      {A : Type 0} (m : Outcome A) (wrap : A → Constant F) → Ends m → Ends (m >>= λ a. ok (wrap a))
  unfolding IsOrderly
  Ends-wrap m wrap h = IsOrderly-bind P m (λ a. ok (wrap a)) h (λ a e. tt)

  Ends-normalize_constant :
      (key : String) (value : Yaml F)
      → (ValueOverflows python value → P)
      → Ends (normalize_constant python key value)
  unfolding normalize_constant
  Ends-normalize_constant key value h = elim (Bool-cases (str_eq key "default_metric_queries")) [
    | inl a ↦ rw a (Ends-wrap _ texts (Ends-normalize_string_list key value))
    | inr a ↦ elim (Bool-cases (str_eq key "forecast_thresholds" || str_eq key "default_weights")) [
      | inl b ↦ rw (a, b) (Ends-wrap _ floats (Ends-normalize_float_dict key value h))
      | inr b ↦ elim (Bool-cases (str_eq key "severity_weights")) [
        | inl c ↦ rw (a, b, c) (Ends-wrap _ ints (Ends-normalize_int_dict key value h))
        | inr c ↦ elim (Bool-cases (str_eq key "registry_alpha")) [
          | inl d ↦ rw (a, b, c, d) (Ends-wrap _ number (Ends-normalize_alpha value h))
          | inr d ↦ rw (a, b, c, d) (Ends-wrap _ text (Ends-normalize_text key value))
        ]
      ]
    ]
  ]

  Ends-or_key_error :
      (key : String) (value : Yaml F)
      → IsKnown (key, value)
      → Ends (or_key_error (target_of key overridable_constant_keys))
  unfolding IsKnown IsOrderly
  Ends-or_key_error key value h = elim (Option-cases (target_of key overridable_constant_keys)) [
    | inl missing ↦ absurd (h missing)
    | inr (target, t) ↦ rw t tt
  ]

  Ends-constant_items :
      (raw : List (String × Yaml F)) (done : List (String × Constant F))
      → All IsKnown raw
      → (HasOverflow python raw → P)
      → Ends (constant_items python raw done)
  unfolding constant_items IsOrderly HasOverflow
  Ends-constant_items [] done known h = tt
  Ends-constant_items ((key, value) ∷ rest) done known h =
      IsOrderly-bind P (or_key_error (target_of key overridable_constant_keys)) _
        (Ends-or_key_error key value known.0)
        (λ target _.
          IsOrderly-bind P (normalize_constant python key value) _
            (Ends-normalize_constant key value (λ o. h (inl o)))
            (λ constant _. Ends-constant_items rest _ known.1 (λ o. h (inr o))))

module _ {F : Type 0} (python : Python F) where
  pub IsOrderly-normalize_constant_overrides :
      (raw : List (String × Yaml F))
      → IsOrderly (HasOverflow python raw) (normalize_constant_overrides python raw)
  unfolding normalize_constant_overrides IsOrderly
  IsOrderly-normalize_constant_overrides raw = elim (List-cases (unknown_constants raw)) [
    | inl known ↦ rw known (
        Ends-constant_items python (HasOverflow python raw) raw []
          (unknown_constants-IsKnown raw known) (λ o. o))
    | inr (name, names, unknown) ↦ rw unknown refl
  ]
