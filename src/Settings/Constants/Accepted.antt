-- ===== src/Settings/Constants/Accepted.antt =====
-- What a document that is accepted gives: each constant of the kind that its key asks for, with no
-- empty name in it and no infinite number.
use becertain.Prelude.{
  ◌≡◌, String, Bool, true, false, not, List, [], ◌∷◌, Option, none, some, str_eq, ◌||◌, All,
  All-append, Bool-cases, inl, inr, strip, arith,
}
use becertain.Value.{ℤ}
use becertain.Settings.{
  Yaml, Elements, Entries, list, dict, nil, element, end, entry, Outcome, ok, Python, text_of,
  bind-ok, refuse_if-ok, of_ok, not-false, All-assign, ◌>>=◌,
}
use becertain.Settings.Constants.{
  Constant, texts, floats, ints, number, text, overridable_constant_keys, target_of, or_refuse,
  string_items, float_items, int_items, normalize_string_list, normalize_float_dict,
  normalize_int_dict, normalize_alpha, normalize_text, normalize_constant, constant_items,
  unknown_constants, normalize_constant_overrides, is_bool, is_number_or_text, or_key_error,
  refuse_unknown,
}

or_key_error-ok : {A : Type 0} (o : Option A) (x : A) → or_key_error o ≡ ok x → o ≡ some x
or_key_error-ok none x e = cc
or_key_error-ok (some y) x e = cc

abbrev pub IsNamed : String → Type 0
IsNamed name = str_eq name "" ≡ false

module _ {F : Type 0} (python : Python F) where
  IsFiniteEntry : String × F → Type 0
  IsFiniteEntry e = IsNamed e.0 × (python.is_finite e.1 ≡ true)

  -- The kind of constant that a key asks for.
  unfoldable pub fits : String → Constant F → Bool
  fits key (texts l) = str_eq key "default_metric_queries"
  fits key (floats d) = str_eq key "forecast_thresholds" || str_eq key "default_weights"
  fits key (ints d) = str_eq key "severity_weights"
  fits key (number x) = str_eq key "registry_alpha"
  fits key (text t) =
      str_eq key "slo_error_query"
      || str_eq key "slo_total_query"
      || str_eq key "default_service_name"

  unfoldable pub IsWellFormed : Constant F → Type 0
  unfolding IsFiniteEntry
  IsWellFormed (texts l) = All IsNamed l
  IsWellFormed (floats d) = All IsFiniteEntry d
  IsWellFormed (ints d) = All (λ e. IsNamed e.0) d
  IsWellFormed (number x) = python.is_finite x ≡ true
  IsWellFormed (text t) = IsNamed t

  IsNamed-string_items :
      (name : String) (items : Elements F) (done out : List String)
      → All IsNamed done
      → string_items python name items done ≡ ok out
      → All IsNamed out
  unfolding string_items
  IsNamed-string_items name nil done out h e = of_ok (All IsNamed) e h
  IsNamed-string_items name (element item rest) done out h e =
      let (named, e') = refuse_if-ok (str_eq (strip (text_of python item)) "") _ _ out e in
      IsNamed-string_items name rest _ out (All-append IsNamed done _ h (named, tt)) e'

  IsFinite-float_items :
      (name : String) (entries : Entries F) (done out : List (String × F))
      → All IsFiniteEntry done
      → float_items python name entries done ≡ ok out
      → All IsFiniteEntry out
  unfolding float_items IsFiniteEntry
  IsFinite-float_items name end done out h e = of_ok (All IsFiniteEntry) e h
  IsFinite-float_items name (entry key raw rest) done out h e =
      let (named, e1) = refuse_if-ok (str_eq (strip (text_of python key)) "") _ _ out e in
      let (x, _, e2) = bind-ok (or_refuse (python.to_float raw) _) _ out e1 in
      let (finite, e3) = refuse_if-ok (not (python.is_finite x)) _ _ out e2 in
      IsFinite-float_items name rest _ out (All-assign _ _ x done (named, not-false _ finite) h) e3

  IsNamed-int_items :
      (name : String) (entries : Entries F) (done out : List (String × ℤ))
      → All (λ e. IsNamed e.0) done
      → int_items python name entries done ≡ ok out
      → All (λ e. IsNamed e.0) out
  unfolding int_items
  IsNamed-int_items name end done out h e = of_ok (All (λ e. IsNamed e.0)) e h
  IsNamed-int_items name (entry key raw rest) done out h e =
      let (named, e1) = refuse_if-ok (str_eq (strip (text_of python key)) "") _ _ out e in
      let (_, e2) = refuse_if-ok (is_bool raw) _ _ out e1 in
      let (n, _, e3) = bind-ok (or_refuse (python.to_int raw) _) _ out e2 in
      IsNamed-int_items name rest _ out (All-assign _ _ n done named h) e3

  IsNamed-normalize_string_list :
      (name : String) (value : Yaml F) (out : List String)
      → normalize_string_list python name value ≡ ok out
      → All IsNamed out
  unfolding normalize_string_list
  IsNamed-normalize_string_list name (list items) out e =
      IsNamed-string_items name items [] out tt e
  IsNamed-normalize_string_list name _ out e = cc

  IsFinite-normalize_float_dict :
      (name : String) (value : Yaml F) (out : List (String × F))
      → normalize_float_dict python name value ≡ ok out
      → All IsFiniteEntry out
  unfolding normalize_float_dict
  IsFinite-normalize_float_dict name (dict entries) out e =
      IsFinite-float_items name entries [] out tt e
  IsFinite-normalize_float_dict name _ out e = cc

  IsNamed-normalize_int_dict :
      (name : String) (value : Yaml F) (out : List (String × ℤ))
      → normalize_int_dict python name value ≡ ok out
      → All (λ e. IsNamed e.0) out
  unfolding normalize_int_dict
  IsNamed-normalize_int_dict name (dict entries) out e = IsNamed-int_items name entries [] out tt e
  IsNamed-normalize_int_dict name _ out e = cc

  IsFinite-normalize_alpha :
      (value : Yaml F) (x : F) → normalize_alpha python value ≡ ok x → python.is_finite x ≡ true
  unfolding normalize_alpha
  IsFinite-normalize_alpha value x e =
      let (_, e1) = refuse_if-ok (is_bool value) _ _ x e in
      let (_, e2) = refuse_if-ok (not (is_number_or_text value)) _ _ x e1 in
      let (y, _, e3) = bind-ok (or_refuse (python.to_float value) _) _ x e2 in
      let (finite, e4) = refuse_if-ok (not (python.is_finite y)) _ _ x e3 in
      of_ok (λ z. python.is_finite z ≡ true) e4 (not-false _ finite)

  IsNamed-normalize_text :
      (key : String) (value : Yaml F) (t : String)
      → normalize_text python key value ≡ ok t
      → IsNamed t
  unfolding normalize_text
  IsNamed-normalize_text key value t e =
      let (named, e1) = refuse_if-ok (str_eq (strip (text_of python value)) "") _ _ t e in
      of_ok IsNamed e1 named

  abbrev pub IsAccepted : String → Constant F → Type 0
  IsAccepted key constant = (fits key constant ≡ true) × IsWellFormed constant

  IsAccepted-bind :
      {A : Type 0} (key : String) (m : Outcome A) (wrap : A → Constant F) (constant : Constant F)
      → ((a : A) → m ≡ ok a → IsAccepted key (wrap a))
      → (m >>= λ a. ok (wrap a)) ≡ ok constant
      → IsAccepted key constant
  IsAccepted-bind key m wrap constant h e =
      let (a, e1, e2) = bind-ok m (λ a. ok (wrap a)) constant e in
      of_ok (IsAccepted key) e2 (h a e1)

  -- The keys that have a target and no branch of their own are those of the texts.
  fits-text :
      (key target t : String)
      → target_of key overridable_constant_keys ≡ some target
      → str_eq key "default_metric_queries" ≡ false
      → (str_eq key "forecast_thresholds" || str_eq key "default_weights") ≡ false
      → str_eq key "severity_weights" ≡ false
      → str_eq key "registry_alpha" ≡ false
      → fits key (text t) ≡ true
  unfolding target_of fits
  fits-text key target t h a b c d = ground arith

  -- A constant that is accepted is of the kind of its key, and well-formed.
  normalize_constant-IsAccepted :
      (key target : String) (value : Yaml F) (constant : Constant F)
      → target_of key overridable_constant_keys ≡ some target
      → normalize_constant python key value ≡ ok constant
      → IsAccepted key constant
  unfolding normalize_constant fits IsWellFormed
  normalize_constant-IsAccepted key target value constant t e =
      elim (Bool-cases (str_eq key "default_metric_queries")) [
        | inl a ↦
            IsAccepted-bind key (normalize_string_list python key value) texts constant
              (λ l m. (a, IsNamed-normalize_string_list key value l m)) (rw a at e)
        | inr a ↦
            elim (Bool-cases (str_eq key "forecast_thresholds" || str_eq key "default_weights")) [
              | inl b ↦
                  IsAccepted-bind key (normalize_float_dict python key value) floats constant
                    (λ d m. (b, IsFinite-normalize_float_dict key value d m)) (rw (a, b) at e)
              | inr b ↦ elim (Bool-cases (str_eq key "severity_weights")) [
                | inl c ↦
                    IsAccepted-bind key (normalize_int_dict python key value) ints constant
                      (λ d m. (c, IsNamed-normalize_int_dict key value d m)) (rw (a, b, c) at e)
                | inr c ↦ elim (Bool-cases (str_eq key "registry_alpha")) [
                  | inl d ↦
                      IsAccepted-bind key (normalize_alpha python value) number constant
                        (λ x m. (d, IsFinite-normalize_alpha value x m)) (rw (a, b, c, d) at e)
                  | inr d ↦
                      IsAccepted-bind key (normalize_text python key value) text constant
                        (λ x m.
                          (fits-text key target x t a b c d, IsNamed-normalize_text key value x m))
                        (rw (a, b, c, d) at e)
                ]
              ]
            ]
      ]

  -- A target, with a constant of the kind that one of its keys asks for.
  unfoldable pub IsFor : String × Constant F → Type 0
  IsFor e =
      (key : String) × (target_of key overridable_constant_keys ≡ some e.0) × IsAccepted key e.1

  constant_items-IsFor :
      (raw : List (String × Yaml F)) (done out : List (String × Constant F))
      → All IsFor done
      → constant_items python raw done ≡ ok out
      → All IsFor out
  unfolding constant_items IsFor
  constant_items-IsFor [] done out h e = of_ok (All IsFor) e h
  constant_items-IsFor ((key, value) ∷ rest) done out h e =
      let (target, t, e1) =
        bind-ok (or_key_error (target_of key overridable_constant_keys)) _ out e in
      let (c, n, e2) = bind-ok (normalize_constant python key value) _ out e1 in
      constant_items-IsFor rest _ out
        (All-assign _ target c done
          (
            key,
            or_key_error-ok _ target t,
            normalize_constant-IsAccepted key target value c (or_key_error-ok _ target t) n,
          )
          h)
        e2

  -- The constants of a document that is accepted: each is under the name that the table has for one of
  -- its keys, is of the kind of that key, has no empty text and no empty name, and none of its floats
  -- is infinite or not a number.
  pub normalize_constant_overrides-IsFor :
      (raw : List (String × Yaml F)) (out : List (String × Constant F))
      → normalize_constant_overrides python raw ≡ ok out
      → All IsFor out
  unfolding normalize_constant_overrides
  normalize_constant_overrides-IsFor raw out e =
      let (_, _, e1) = bind-ok (refuse_unknown "constant" (unknown_constants raw)) _ out e in
      constant_items-IsFor raw [] out tt e1
