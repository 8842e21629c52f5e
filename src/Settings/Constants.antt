-- ===== src/Settings/Constants.antt =====
-- The constants of an uploaded document: `_normalize_string_list`, `_normalize_float_dict`,
-- `_normalize_int_dict` and `_normalize_constant_overrides`.
pub mod Accepted
pub mod Refused
use Prim.Native.String.{◌++◌ as ◌<>◌}
use becertain.Prelude.{
  String, Bool, true, false, not, List, [], ◌∷◌, ◌++◌, Option, none, some, str_eq, ◌||◌,
  if◌then◌else◌, filter, map, contains, strip,
}
use becertain.Value.{ℤ}
use becertain.Security.Texts.{sorted_set}
use becertain.Settings.{
  Yaml, Elements, Entries, null, bool, int, float, str, other, list, dict, nil, element, end, entry,
  Conversion, converted, refused, overflowed, overflow_error, key_error, Outcome, ok, crashed,
  http_400, Python, refuse_if, ◌>>=◌, ◌>>◌, text_of, assign,
}

-- The value of a constant, by the type that the module checks.
pub data Constant (F : Type 0) : Type 0 where
  texts : List String → Constant F
  floats : List (String × F) → Constant F
  ints : List (String × ℤ) → Constant F
  number : F → Constant F
  text : String → Constant F

abbrev pub overridable_constant_keys : List (String × String)
overridable_constant_keys =
    ("default_metric_queries", "DEFAULT_METRIC_QUERIES")
    ∷ ("forecast_thresholds", "FORECAST_THRESHOLDS")
    ∷ ("slo_error_query", "SLO_ERROR_QUERY")
    ∷ ("slo_total_query", "SLO_TOTAL_QUERY")
    ∷ ("default_weights", "DEFAULT_WEIGHTS")
    ∷ ("registry_alpha", "REGISTRY_ALPHA")
    ∷ ("severity_weights", "SEVERITY_WEIGHTS")
    ∷ ("default_service_name", "DEFAULT_SERVICE_NAME")
    ∷ []

-- `d.get(key)` on a dict of texts
unfoldable pub target_of : String → List (String × String) → Option String
target_of key [] = none
target_of key ((k, target) ∷ rest) = if str_eq key k then some target else target_of key rest

-- `', '.join(...)`
abbrev pub join_names : List String → String
join_names [] = ""
join_names (s ∷ []) = s
join_names (s ∷ t ∷ ts) = s <> (", " <> join_names (t ∷ ts))

abbrev pub keys_of : {A : Type 0} → List (String × A) → List String
keys_of entries = map (λ e. e.0) entries

-- `try: float(raw) / int(raw)`, with the error that `except (TypeError, ValueError)` raises
abbrev pub or_refuse : {A : Type 0} → Conversion A → String → Outcome A
or_refuse (converted x) detail = ok x
or_refuse refused detail = http_400 detail
or_refuse overflowed detail = crashed overflow_error

-- `d[key]`
abbrev pub or_key_error : {A : Type 0} → Option A → Outcome A
or_key_error none = crashed key_error
or_key_error (some x) = ok x

abbrev pub is_bool : {F : Type 0} → Yaml F → Bool
is_bool (bool b) = true
is_bool _ = false

-- `isinstance(value, (int, float, str))`, which a `bool` passes too
abbrev pub is_number_or_text : {F : Type 0} → Yaml F → Bool
is_number_or_text (bool b) = true
is_number_or_text (int n) = true
is_number_or_text (float x) = true
is_number_or_text (str s) = true
is_number_or_text _ = false

abbrev pub of_constants : String → String → String
of_constants name complaint = "analysis config constants." <> (name <> complaint)

module _ {F : Type 0} (python : Python F) (name : String) where
  -- the loops, from what was collected so far
  unfoldable pub string_items : Elements F → List String → Outcome (List String)
  string_items nil normalized = ok normalized
  string_items (element item rest) normalized =
      let value = strip (text_of python item) in
      refuse_if (str_eq value "") (of_constants name " entries must be non-empty strings")
      >> string_items rest (normalized ++ (value ∷ []))

  unfoldable pub float_items : Entries F → List (String × F) → Outcome (List (String × F))
  float_items end normalized = ok normalized
  float_items (entry key raw rest) normalized = do
    let metric = strip (text_of python key)
    refuse_if (str_eq metric "") (of_constants name " keys must be non-empty strings")
    numeric ←
        or_refuse (python.to_float raw) (of_constants name ("." <> (metric <> " must be numeric")))
    refuse_if (not (python.is_finite numeric))
        (of_constants name ("." <> (metric <> " must be finite")))
    float_items rest (assign metric numeric normalized)

  unfoldable pub int_items : Entries F → List (String × ℤ) → Outcome (List (String × ℤ))
  int_items end normalized = ok normalized
  int_items (entry key raw rest) normalized = do
    let metric = strip (text_of python key)
    refuse_if (str_eq metric "") (of_constants name " keys must be non-empty strings")
    refuse_if (is_bool raw) (of_constants name ("." <> (metric <> " must be an integer")))
    numeric ←
        or_refuse (python.to_int raw) (of_constants name ("." <> (metric <> " must be an integer")))
    int_items rest (assign metric numeric normalized)

  unfoldable pub normalize_string_list : Yaml F → Outcome (List String)
  normalize_string_list (list items) = string_items items []
  normalize_string_list _ = http_400 (of_constants name " must be a list of strings")

  unfoldable pub normalize_float_dict : Yaml F → Outcome (List (String × F))
  normalize_float_dict (dict entries) = float_items entries []
  normalize_float_dict _ = http_400 (of_constants name " must be a mapping of numeric values")

  unfoldable pub normalize_int_dict : Yaml F → Outcome (List (String × ℤ))
  normalize_int_dict (dict entries) = int_items entries []
  normalize_int_dict _ = http_400 (of_constants name " must be a mapping of integer values")

-- `sorted(set(raw) - set(_OVERRIDABLE_CONSTANT_KEYS))`
abbrev pub unknown_constants : {A : Type 0} → List (String × A) → List String
unknown_constants raw =
    sorted_set
      (filter (λ key. not (contains key (keys_of overridable_constant_keys))) (keys_of raw))

-- `if unknown: raise _http_400(...)`
abbrev pub refuse_unknown : String → List String → Outcome (Unit {0})
refuse_unknown what [] = ok tt
refuse_unknown what (name ∷ names) =
    http_400
      ("Unknown analysis config " <> (what <> (" override(s): " <> join_names (name ∷ names))))

module _ {F : Type 0} (python : Python F) where
  -- `registry_alpha`
  unfoldable pub normalize_alpha : Yaml F → Outcome F
  normalize_alpha value = do
    refuse_if (is_bool value) (of_constants "registry_alpha" " must be numeric")
    refuse_if (not (is_number_or_text value)) (of_constants "registry_alpha" " must be numeric")
    numeric ← or_refuse (python.to_float value) (of_constants "registry_alpha" " must be numeric")
    refuse_if (not (python.is_finite numeric)) (of_constants "registry_alpha" " must be finite")
    ok numeric

  unfoldable pub normalize_text : String → Yaml F → Outcome String
  normalize_text key value =
      let content = strip (text_of python value) in
      refuse_if (str_eq content "") (of_constants key " must be a non-empty string") >> ok content

  -- one round of the loop: the branches on the key
  unfoldable pub normalize_constant : String → Yaml F → Outcome (Constant F)
  normalize_constant key value =
      if str_eq key "default_metric_queries"
      then normalize_string_list python key value >>= (λ l. ok (texts l))
      else if str_eq key "forecast_thresholds" || str_eq key "default_weights"
      then normalize_float_dict python key value >>= (λ d. ok (floats d))
      else if str_eq key "severity_weights"
      then normalize_int_dict python key value >>= (λ d. ok (ints d))
      else if str_eq key "registry_alpha"
      then normalize_alpha value >>= (λ x. ok (number x))
      else normalize_text key value >>= (λ t. ok (text t))

  -- the loop; a key with no target does not occur behind the first test
  unfoldable pub constant_items :
      List (String × Yaml F) → List (String × Constant F) → Outcome (List (String × Constant F))
  constant_items [] normalized = ok normalized
  constant_items ((key, value) ∷ rest) normalized = do
    target ← or_key_error (target_of key overridable_constant_keys)
    constant ← normalize_constant key value
    constant_items rest (assign target constant normalized)

  unfoldable pub normalize_constant_overrides :
      List (String × Yaml F) → Outcome (List (String × Constant F))
  normalize_constant_overrides raw =
      refuse_unknown "constant" (unknown_constants raw) >> constant_items raw []
