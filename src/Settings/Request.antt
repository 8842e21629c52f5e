-- ===== src/Settings/Request.antt =====
-- `_parse_document`, `_normalize_settings_overrides`, `prepare_request` and the prepared request. A
-- value never changes, so `copy.deepcopy` of it is the value. What `api/requests/analyze.py` has
-- checked of a request is not checked again by `model_copy`.
pub mod Parts
pub mod Limits
pub mod Refused
use Prim.Native.String.{◌++◌ as ◌<>◌}
use becertain.Prelude.{
  ℕ, String, Bool, true, false, not, List, [], ◌∷◌, Option, none, some, str_eq, ◌||◌, ◌⊎◌, inl, inr,
  filter, contains, strip, ◌==◌, if◌then◌else◌,
}
use becertain.Value.{ℤ, pos, negsuc}
use becertain.Security.Texts.{sorted_set}
use becertain.Settings.{
  Yaml, null, int, float, str, dict, Conversion, refused, Outcome, ok, crashed, value_error, Python,
  http_400, ◌>>=◌, ◌>>◌, refuse_if, assign,
}
use becertain.Settings.Constants.{
  Constant, keys_of, refuse_unknown, normalize_constant_overrides, is_number_or_text, is_bool,
}
use becertain.Settings.Defaults.{or_400, update_all, attributes_of, unknown_settings}
use becertain.Settings.Document.{
  Pydantic, RequestOverride, ConfigDocument, default_document, config_document_of, value_at,
  analysis_config_version,
}

-- What `yaml.safe_load` does with a text: a value, a `YAMLError` with its text, or the `ValueError` of a
-- scalar that it cannot build, such as the date 2020-13-45.
pub data Loading (F : Type 0) : Type 0 where
  loaded : Yaml F → Loading F
  yaml_error : String → Loading F
  unbuilt : Loading F

-- `Settings.model_validate` gives a value, or the text of its error; `current` is what
-- `settings.model_dump()` gives.
pub record Env (F : Type 0) : Type 0 where
  pub python : Python F
  pub pydantic : Pydantic F
  pub safe_load : String → Loading F
  pub model_validate : List (String × Yaml F) → String ⊎ List (String × Yaml F)
  pub current : List (String × Yaml F)

-- `metric_queries`, `services` and the other fields that no override reaches are one value.
pub record AnalyzeRequest (F R : Type 0) : Type 0 where
  pub fixed : R
  pub config_yaml : Option String
  pub step : String
  pub sensitivity : Option F
  pub apdex_threshold_ms : F
  pub slo_target : F
  pub correlation_window_seconds : F
  pub forecast_horizon_seconds : F

-- The dict `request_updates`: an absent key is `none`; `sensitivity` may be set to `None`.
pub record RequestUpdates (F : Type 0) : Type 0 where
  pub step : Option String
  pub sensitivity : Option (Option F)
  pub apdex_threshold_ms : Option F
  pub slo_target : Option F
  pub correlation_window_seconds : Option F
  pub forecast_horizon_seconds : Option F

pub record PreparedAnalysisRequest (F R : Type 0) : Type 0 where
  pub request : AnalyzeRequest F R
  pub settings_overrides : List (String × Yaml F)
  pub constant_overrides : List (String × Constant F)
  pub explicit_fields : List String

-- `version == ANALYSIS_CONFIG_VERSION`, which is 1
abbrev pub is_version : ℤ → Bool
is_version (pos n) = n == 1
is_version (negsuc n) = false

-- `except ValidationError as exc: raise _http_400(str(exc))`
abbrev pub or_invalid : {A : Type 0} → String → Option A → Outcome A
or_invalid error none = http_400 error
or_invalid error (some x) = ok x

-- `explicit_fields`, or the fields that the request was given.
abbrev pub direct_fields_of : Option (List String) → List String → List String
direct_fields_of none model_fields_set = model_fields_set
direct_fields_of (some fields) model_fields_set = fields

module _ {F : Type 0} where
  -- `model_dump(exclude_none=True)`
  abbrev pub dump_request : RequestOverride F → RequestUpdates F
  dump_request r = record {
    step = r.step;
    sensitivity = elim r.sensitivity [ none ↦ none | some x ↦ some (some x) ];
    apdex_threshold_ms = r.apdex_threshold_ms;
    slo_target = r.slo_target;
    correlation_window_seconds = r.correlation_window_seconds;
    forecast_horizon_seconds = r.forecast_horizon_seconds;
  }

-- `if field_name in direct_fields: request_updates[field_name] = getattr(req, field_name)`
abbrev pub direct : {A : Type 0} → List String → String → A → Option A → Option A
direct direct_fields field_name own update =
    if contains field_name direct_fields then some own else update

-- `update.get(field, own)`
abbrev pub updated : {A : Type 0} → Option A → A → A
updated none own = own
updated (some x) own = x

module _ {F R : Type 0} where
  -- the loop over `_REQUEST_OVERRIDE_FIELDS`
  unfoldable pub with_direct_fields :
      List String → AnalyzeRequest F R → RequestUpdates F → RequestUpdates F
  with_direct_fields fields req u = record {
    step = direct fields "step" req.step u.step;
    sensitivity = direct fields "sensitivity" req.sensitivity u.sensitivity;
    apdex_threshold_ms =
        direct fields "apdex_threshold_ms" req.apdex_threshold_ms u.apdex_threshold_ms;
    slo_target = direct fields "slo_target" req.slo_target u.slo_target;
    correlation_window_seconds =
        direct fields "correlation_window_seconds" req.correlation_window_seconds
          u.correlation_window_seconds;
    forecast_horizon_seconds =
        direct fields "forecast_horizon_seconds" req.forecast_horizon_seconds
          u.forecast_horizon_seconds;
  }

  -- `req.model_copy(update=request_updates)`
  unfoldable pub model_copy : AnalyzeRequest F R → RequestUpdates F → AnalyzeRequest F R
  model_copy req u = record req {
    step = updated u.step req.step;
    sensitivity = updated u.sensitivity req.sensitivity;
    apdex_threshold_ms = updated u.apdex_threshold_ms req.apdex_threshold_ms;
    slo_target = updated u.slo_target req.slo_target;
    correlation_window_seconds =
        updated u.correlation_window_seconds req.correlation_window_seconds;
    forecast_horizon_seconds = updated u.forecast_horizon_seconds req.forecast_horizon_seconds;
  }

  -- `has_runtime_overrides`
  unfoldable pub has_runtime_overrides : PreparedAnalysisRequest F R → Bool
  has_runtime_overrides p = elim p.settings_overrides [
    | [] ↦ elim p.constant_overrides [ [] ↦ false | _ ∷ _ ↦ true ]
    | _ ∷ _ ↦ true
  ]

  -- `timeout_seconds`; `default_seconds` is `settings.analyze_timeout_seconds`.
  unfoldable pub timeout_seconds : Python F → Yaml F → PreparedAnalysisRequest F R → Conversion F
  timeout_seconds python default_seconds p =
      let timeout =
        updated (value_at "analyze_timeout_seconds" p.settings_overrides) default_seconds in
      if is_bool timeout
      then python.to_float default_seconds
      else if is_number_or_text timeout
      then python.to_float timeout
      else python.to_float default_seconds

module _ {F : Type 0} (env : Env F) where
  unfoldable pub normalize_settings_overrides :
      List (String × Yaml F) → Outcome (List (String × Yaml F))
  normalize_settings_overrides raw = do
    refuse_unknown "setting" (unknown_settings env.current raw)
    validated ← or_400 "" (env.model_validate (update_all env.current raw))
    attributes_of raw validated

  -- The `try` around `yaml.safe_load`, which catches a `YAMLError` only.
  abbrev pub caught : Loading F → Outcome (Yaml F)
  caught (loaded v) = ok v
  caught (yaml_error error) = http_400 ("Invalid RCA config YAML: " <> error)
  caught unbuilt = crashed value_error

  -- What follows it.
  unfoldable pub loaded_document : Yaml F → Outcome (ConfigDocument F)
  loaded_document null = ok default_document
  loaded_document (dict entries) = do
    document ←
        or_invalid (env.pydantic.error_text (dict entries))
          (config_document_of env.pydantic entries)
    refuse_if (not (is_version document.version)) (
        "Unsupported RCA config version "
        <> (env.python.str_of (int document.version) <> "; expected 1"))
    ok document
  loaded_document _ = http_400 "RCA config YAML must decode to a mapping"

  unfoldable pub parse_document : Option String → Outcome (ConfigDocument F)
  parse_document none = ok default_document
  parse_document (some raw_yaml) =
      if str_eq (strip raw_yaml) ""
      then ok default_document
      else caught (env.safe_load raw_yaml) >>= loaded_document

  unfoldable pub prepare_request :
      {R : Type 0}
      → AnalyzeRequest F R
      → Option (List String)
      → List String
      → Outcome (PreparedAnalysisRequest F R)
  prepare_request req explicit_fields model_fields_set = do
    document ← parse_document req.config_yaml
    let direct_fields = direct_fields_of explicit_fields model_fields_set
    let request_updates = with_direct_fields direct_fields req (dump_request document.request)
    settings_overrides ← normalize_settings_overrides document.settings
    constant_overrides ← normalize_constant_overrides env.python document.constants
    ok record {
      request = model_copy req request_updates;
      settings_overrides = settings_overrides;
      constant_overrides = constant_overrides;
      explicit_fields = direct_fields;
    }
