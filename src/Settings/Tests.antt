-- ===== src/Settings/Tests.antt =====
-- Runs of services/analysis_config_service.py, with whole numbers for floats, and the witnesses of
-- its theorems.
use becertain.Prelude.{
  ℕ, ◌≡◌, refl, String, not, List, [], ◌∷◌, Option, none, some, str_eq, ◌==◌, ltb, leb, inr, All,
  if◌then◌else◌, ◌++◌,
}
use becertain.Value.{ℤ, pos}
use becertain.Settings.{
  Yaml, Entries, null, int, float, str, other, dict, end, entry, Conversion, converted, refused,
  overflowed, ok, crashed, overflow_error, value_error, Python, http_400, is_truthy,
}
use becertain.Settings.Constants.{
  floats, number, text, normalize_constant_overrides, constant_items, normalize_constant,
  normalize_float_dict, normalize_alpha, normalize_text, float_items, target_of,
}
use becertain.Settings.Constants.Accepted.{IsFor, normalize_constant_overrides-IsFor}
use becertain.Settings.Document.{
  Pydantic, ConfigDocument, config_document_of, request_override_of, model_fields, value_at,
  bounded_field,
}
use becertain.Settings.Defaults.{analysis_settings_defaults, attributes_of}
use becertain.Settings.Request.{
  Loading, loaded, yaml_error, unbuilt, Env, AnalyzeRequest, PreparedAnalysisRequest,
  prepare_request, parse_document, loaded_document, with_direct_fields, model_copy,
  normalize_settings_overrides,
}
use becertain.Settings.Request.Limits.{IsLimitedRequest, prepare_request-IsLimited}
use becertain.Settings.Request.Parts.{overridden as overridden_request, prepare_request_precedence}
use becertain.Settings.Runtime.{
  Process, Ending, cancelled, cell, get_attr, overridden, apply_runtime_overrides, runtime_modules,
}
use becertain.Settings.Runtime.Applied.{overridden_seen}
use becertain.Settings.Runtime.Restored.{IsLeft, apply_runtime_overrides-IsRestored}

abbrev sample_to_float : Yaml ℕ → Conversion ℕ
sample_to_float (int (pos n)) = if ltb n 1000 then converted n else overflowed
sample_to_float (float x) = converted x
sample_to_float _ = refused

abbrev sample_to_int : Yaml ℕ → Conversion ℤ
sample_to_int (int n) = converted n
sample_to_int _ = refused

abbrev sample_str : Yaml ℕ → String
sample_str (str s) = s
sample_str (other s) = s
sample_str _ = "?"

-- The number 999 is infinite.
abbrev sample_python : Python ℕ
sample_python = record {
  str_of = sample_str;
  to_float = sample_to_float;
  to_int = sample_to_int;
  is_finite = λ x. not (x == 999);
  is_zero = λ x. x == 0;
}

abbrev sample_as_text : Yaml ℕ → Option String
sample_as_text (str s) = some s
sample_as_text _ = none

abbrev sample_as_float : Yaml ℕ → Option ℕ
sample_as_float (float x) = some x
sample_as_float (int (pos n)) = some n
sample_as_float _ = none

abbrev sample_as_int : Yaml ℕ → Option ℤ
sample_as_int (int n) = some n
sample_as_int _ = none

abbrev sample_pydantic : Pydantic ℕ
sample_pydantic = record {
  as_text = sample_as_text;
  as_float = sample_as_float;
  as_int = sample_as_int;
  ge = λ x b. leb b x;
  le = leb;
  number = λ n. n;
  error_text = λ _. "invalid";
}

abbrev text_entry : String → Yaml ℕ → Entries ℕ → Entries ℕ
text_entry key value rest = entry (str key) value rest

abbrev sample_constants : ℕ → Yaml ℕ
sample_constants threshold = dict (
    text_entry "forecast_thresholds" (dict (text_entry " cpu " (int (pos threshold)) end))
      (text_entry "slo_error_query" (str "errors") end))

abbrev sample_document : ℕ → Yaml ℕ
sample_document threshold = dict (
    text_entry "version" (int (pos 1)) (
      text_entry "request"
        (dict (text_entry "sensitivity" (int (pos 4)) (text_entry "step" (str "30s") end)))
        (text_entry "constants" (sample_constants threshold)
          (text_entry "settings" (dict (text_entry "mad_threshold" (int (pos 7)) end)) end))))

abbrev sample_load : String → Loading ℕ
sample_load s =
    if str_eq s "doc"
    then loaded (sample_document 80)
    else if str_eq s "large"
    then loaded (sample_document 5000)
    else if str_eq s "old"
    then loaded (dict (text_entry "version" (int (pos 0)) end))
    else if str_eq s "a: 2020-13-45"
    then unbuilt
    else yaml_error "cannot be read"

abbrev sample_current : List (String × Yaml ℕ)
sample_current = ("mad_threshold", int (pos 3)) ∷ ("host", str "localhost") ∷ []

abbrev sample_env : Env ℕ
sample_env = record {
  python = sample_python;
  pydantic = sample_pydantic;
  safe_load = sample_load;
  model_validate = λ d. inr (d ++ sample_current);
  current = sample_current;
}

abbrev sample_request : String → AnalyzeRequest ℕ ℕ
sample_request yaml = record {
  fixed = 0;
  config_yaml = some yaml;
  step = "15s";
  sensitivity = some 3;
  apdex_threshold_ms = 500;
  slo_target = 1;
  correlation_window_seconds = 60;
  forecast_horizon_seconds = 1800;
}

abbrev sample_prepared : PreparedAnalysisRequest ℕ ℕ
sample_prepared = record {
  request = record (sample_request "doc") { step = "15s"; sensitivity = some 4 };
  settings_overrides = ("mad_threshold", int (pos 7)) ∷ [];
  constant_overrides =
      ("FORECAST_THRESHOLDS", floats (("cpu", 80) ∷ [])) ∷ ("SLO_ERROR_QUERY", text "errors") ∷ [];
  explicit_fields = "step" ∷ [];
}

prepared_run :
    prepare_request sample_env (sample_request "doc") none ("step" ∷ []) ≡ ok sample_prepared
unfolding prepare_request parse_document loaded_document config_document_of model_fields value_at
    request_override_of bounded_field normalize_settings_overrides analysis_settings_defaults
    attributes_of normalize_constant_overrides constant_items normalize_constant
    normalize_float_dict normalize_text float_items target_of with_direct_fields model_copy
    is_truthy
prepared_run = refl

-- A number that no float can hold is an exception that nothing catches; another error is a 400.
large_run : prepare_request sample_env (sample_request "large") none [] ≡ crashed overflow_error
unfolding prepare_request parse_document loaded_document config_document_of model_fields value_at
    request_override_of bounded_field normalize_settings_overrides analysis_settings_defaults
    attributes_of normalize_constant_overrides constant_items normalize_constant
    normalize_float_dict float_items target_of is_truthy
large_run = refl

unknown_run :
    normalize_constant_overrides sample_python (("b", null) ∷ ("a", null) ∷ [])
    ≡ http_400 "Unknown analysis config constant override(s): a, b"
unfolding normalize_constant_overrides
unknown_run = refl

prepare_request-IsLimited_example : IsLimitedRequest sample_pydantic sample_prepared.request
prepare_request-IsLimited_example =
    prepare_request-IsLimited sample_env (sample_request "doc") none ("step" ∷ []) sample_prepared
      (refl, refl, refl, refl) prepared_run

prepare_request_precedence_example :
    (d : ConfigDocument ℕ) × (parse_document sample_env (some "doc") ≡ ok d)
    × (sample_prepared.request ≡ overridden_request ("step" ∷ []) (sample_request "doc") d.request)
prepare_request_precedence_example =
    prepare_request_precedence sample_env (sample_request "doc") none ("step" ∷ []) sample_prepared
      prepared_run

date_run : prepare_request sample_env (sample_request "a: 2020-13-45") none [] ≡ crashed value_error
unfolding prepare_request parse_document
date_run = refl

alpha_run :
    normalize_constant_overrides sample_python (("registry_alpha", int (pos 4)) ∷ [])
    ≡ ok (("REGISTRY_ALPHA", number 4) ∷ [])
unfolding normalize_constant_overrides constant_items normalize_constant normalize_alpha target_of
alpha_run = refl

normalize_constant_overrides-IsFor_example :
    All (IsFor sample_python) (("REGISTRY_ALPHA", number 4) ∷ [])
normalize_constant_overrides-IsFor_example =
    normalize_constant_overrides-IsFor sample_python (("registry_alpha", int (pos 4)) ∷ [])
      (("REGISTRY_ALPHA", number 4) ∷ []) alpha_run

-- `config` is loaded under two names; the object 9 is `settings`.
abbrev sample_process : Process ℕ
sample_process = record {
  heap =
      cell 9 "mad_threshold" 3
      ∷ cell 1 "REGISTRY_ALPHA" 5
      ∷ cell 2 "REGISTRY_ALPHA" 5
      ∷ cell 3 "REGISTRY_ALPHA" 5
      ∷ [];
  sys_modules =
      record { name = "config"; object = 1 }
      ∷ record { name = "engine.registry"; object = 2 }
      ∷ record { name = "config"; object = 1 }
      ∷ record { name = "json"; object = 3 }
      ∷ [];
}

-- A body that writes to an attribute and raises.
abbrev sample_body : Process ℕ → Process ℕ × Ending ℕ
sample_body p = (record p { heap = cell 3 "REGISTRY_ALPHA" 6 ∷ p.heap }, cancelled)

-- The process inside the context manager, and when it has been left.
abbrev sample_inside : Process ℕ
sample_inside =
    (overridden 9 (("mad_threshold", 7) ∷ []) (("REGISTRY_ALPHA", 8) ∷ []) sample_process).0

abbrev sample_final : Process ℕ
sample_final =
    (apply_runtime_overrides 9 sample_body (("mad_threshold", 7) ∷ []) (("REGISTRY_ALPHA", 8) ∷ [])
      sample_process).0

apply_runtime_overrides-IsRestored_example :
    IsLeft 9 sample_body (("mad_threshold", 7) ∷ []) (("REGISTRY_ALPHA", 8) ∷ []) sample_process (
      apply_runtime_overrides 9 sample_body
        (("mad_threshold", 7) ∷ [])
        (("REGISTRY_ALPHA", 8) ∷ [])
        sample_process)
apply_runtime_overrides-IsRestored_example =
    apply_runtime_overrides-IsRestored 9 sample_body (("mad_threshold", 7) ∷ [])
      (("REGISTRY_ALPHA", 8) ∷ []) sample_process

overridden_seen_run :
    get_attr 2 "REGISTRY_ALPHA"
      (overridden 9 (("mad_threshold", 7) ∷ []) (("REGISTRY_ALPHA", 8) ∷ []) sample_process).0.heap
    ≡ some 8
unfolding runtime_modules get_attr
overridden_seen_run =
    overridden_seen 9 (("mad_threshold", 7) ∷ []) (("REGISTRY_ALPHA", 8) ∷ []) sample_process 2
      "REGISTRY_ALPHA"
