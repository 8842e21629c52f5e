-- ===== src/Settings/Document.antt =====
-- `_RequestOverrideModel` and `_ConfigDocumentModel`: the fields, their defaults and limits, and
-- `extra="forbid"`. How pydantic coerces one value, and how it words its errors, are parameters.
use becertain.Prelude.{
  ℕ, String, Bool, List, [], ◌∷◌, Option, none, some, str_eq, ◌&&◌, contains, if◌then◌else◌,
}
use becertain.Value.{ℤ, pos}
use becertain.Store.Documents.{◌>>=◌}
use becertain.Settings.{Yaml, Entries, null, str, dict, end, entry}

-- A coercion gives `none` where pydantic reports an error. `ge x b` and `le x b` are its tests of a
-- number against the bounds of a field; `number n` is the literal `n`.
pub record Pydantic (F : Type 0) : Type 0 where
  pub as_text : Yaml F → Option String
  pub as_float : Yaml F → Option F
  pub as_int : Yaml F → Option ℤ
  pub ge : F → F → Bool
  pub le : F → F → Bool
  pub number : ℕ → F
  pub error_text : Yaml F → String

pub record RequestOverride (F : Type 0) : Type 0 where
  pub step : Option String
  pub sensitivity : Option F
  pub apdex_threshold_ms : Option F
  pub slo_target : Option F
  pub correlation_window_seconds : Option F
  pub forecast_horizon_seconds : Option F

pub record ConfigDocument (F : Type 0) : Type 0 where
  pub version : ℤ
  pub request : RequestOverride F
  pub constants : List (String × Yaml F)
  pub settings : List (String × Yaml F)

abbrev pub analysis_config_version : ℤ
analysis_config_version = pos 1

abbrev pub request_override_fields : List String
request_override_fields =
    "step" ∷ "sensitivity" ∷ "apdex_threshold_ms" ∷ "slo_target" ∷ "correlation_window_seconds"
    ∷ "forecast_horizon_seconds" ∷ []

module _ {F : Type 0} where
  abbrev pub no_override : RequestOverride F
  no_override = record {
    step = none;
    sensitivity = none;
    apdex_threshold_ms = none;
    slo_target = none;
    correlation_window_seconds = none;
    forecast_horizon_seconds = none;
  }

  abbrev pub default_document : ConfigDocument F
  default_document = record {
    version = analysis_config_version;
    request = no_override;
    constants = [];
    settings = [];
  }

  -- The fields of a model: texts of the declared names, and no others.
  unfoldable pub model_fields : List String → Entries F → Option (List (String × Yaml F))
  model_fields declared end = some []
  model_fields declared (entry (str name) value rest) = do
    fields ← model_fields declared rest
    if contains name declared then some ((name, value) ∷ fields) else none
  model_fields declared (entry _ value rest) = none

-- `d.get(key)`
unfoldable pub value_at : {A : Type 0} → String → List (String × A) → Option A
value_at key [] = none
value_at key ((k, v) ∷ rest) = if str_eq k key then some v else value_at key rest

module _ {F : Type 0} (pydantic : Pydantic F) where
  -- A field of type `Optional[...] = None`.
  abbrev pub optional : {A : Type 0} → (Yaml F → Option A) → Option (Yaml F) → Option (Option A)
  optional coerce none = some none
  optional coerce (some null) = some none
  optional coerce (some v) = do x ← coerce v; some (some x)

  -- `Field(ge=lower, le=upper)`
  abbrev pub is_within : ℕ → ℕ → F → Bool
  is_within lower upper x =
      pydantic.ge x (pydantic.number lower) && pydantic.le x (pydantic.number upper)

  abbrev pub bounded : ℕ → ℕ → Option F → Option (Option F)
  bounded lower upper none = some none
  bounded lower upper (some x) = if is_within lower upper x then some (some x) else none

  unfoldable pub bounded_field : ℕ → ℕ → Option (Yaml F) → Option (Option F)
  bounded_field lower upper value = do x ← optional pydantic.as_float value; bounded lower upper x

  -- `dict[str, object]`
  abbrev pub text_keys : Entries F → Option (List (String × Yaml F))
  text_keys end = some []
  text_keys (entry key value rest) = do
    name ← pydantic.as_text key
    others ← text_keys rest
    some ((name, value) ∷ others)

  abbrev pub dict_field : Option (Yaml F) → Option (List (String × Yaml F))
  dict_field none = some []
  dict_field (some (dict entries)) = text_keys entries
  dict_field (some _) = none

  unfoldable pub request_override_of : Entries F → Option (RequestOverride F)
  request_override_of entries = do
    fields ← model_fields request_override_fields entries
    step ← optional pydantic.as_text (value_at "step" fields)
    sensitivity ← bounded_field 1 6 (value_at "sensitivity" fields)
    apdex ← optional pydantic.as_float (value_at "apdex_threshold_ms" fields)
    target ← bounded_field 0 1 (value_at "slo_target" fields)
    window ← bounded_field 10 600 (value_at "correlation_window_seconds" fields)
    horizon ← bounded_field 60 86400 (value_at "forecast_horizon_seconds" fields)
    some record {
      step = step;
      sensitivity = sensitivity;
      apdex_threshold_ms = apdex;
      slo_target = target;
      correlation_window_seconds = window;
      forecast_horizon_seconds = horizon;
    }

  abbrev pub request_field : Option (Yaml F) → Option (RequestOverride F)
  request_field none = some no_override
  request_field (some (dict entries)) = request_override_of entries
  request_field (some _) = none

  abbrev pub version_field : Option (Yaml F) → Option ℤ
  version_field none = some analysis_config_version
  version_field (some v) = pydantic.as_int v

  -- `_ConfigDocumentModel.model_validate`
  unfoldable pub config_document_of : Entries F → Option (ConfigDocument F)
  config_document_of entries = do
    fields ← model_fields ("version" ∷ "request" ∷ "constants" ∷ "settings" ∷ []) entries
    version ← version_field (value_at "version" fields)
    request ← request_field (value_at "request" fields)
    constants ← dict_field (value_at "constants" fields)
    settings ← dict_field (value_at "settings" fields)
    some record { version = version; request = request; constants = constants; settings = settings }
