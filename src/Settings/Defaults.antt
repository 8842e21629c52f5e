-- ===== src/Settings/Defaults.antt =====
-- The settings that a document may override: `_analysis_settings_defaults`, and the helpers of
-- `_normalize_settings_overrides`.
use Prim.Native.String.{◌++◌ as ◌<>◌}
use becertain.Prelude.{
  String, not, List, [], ◌∷◌, Option, none, some, ◌⊎◌, inl, inr, filter, contains,
}
use becertain.Security.Texts.{sorted_set}
use becertain.Settings.{Yaml, Outcome, ok, crashed, attribute_error, http_400, ◌>>=◌, assign}
use becertain.Settings.Constants.{keys_of}
use becertain.Settings.Document.{value_at}

abbrev pub non_overridable_settings : List String
non_overridable_settings =
    "logs_backend" ∷ "loki_url" ∷ "loki_labels" ∷ "loki_timeout" ∷ "loki_batch_size"
    ∷ "metrics_backend" ∷ "mimir_url" ∷ "victoriametrics_url" ∷ "traces_backend" ∷ "tempo_url"
    ∷ "connector_timeout" ∷ "startup_timeout" ∷ "host" ∷ "port" ∷ "expected_service_token"
    ∷ "context_verify_key" ∷ "context_issuer" ∷ "context_audience" ∷ "context_algorithms"
    ∷ "context_replay_ttl_seconds" ∷ "ssl_enabled" ∷ "ssl_certfile" ∷ "ssl_keyfile" ∷ "database_url"
    ∷ "analyze_max_concurrency" ∷ "analyze_report_retention_days" ∷ "analyze_job_ttl_days"
    ∷ "default_tenant_id" ∷ []

-- A call that fails with a text is a call that raises status 400 with it.
abbrev pub or_400 : {A : Type 0} → String → String ⊎ A → Outcome A
or_400 start (inl error) = http_400 (start <> error)
or_400 start (inr x) = ok x

-- `getattr(...)`
abbrev pub or_attribute_error : {A : Type 0} → Option A → Outcome A
or_attribute_error none = crashed attribute_error
or_attribute_error (some x) = ok x

module _ {F : Type 0} where
  -- `d.update(other)`
  abbrev pub update_all : List (String × Yaml F) → List (String × Yaml F) → List (String × Yaml F)
  update_all d [] = d
  update_all d ((key, value) ∷ others) = update_all (assign key value d) others

  unfoldable pub analysis_settings_defaults : List (String × Yaml F) → List (String × Yaml F)
  analysis_settings_defaults current =
      filter (λ e. not (contains e.0 non_overridable_settings)) current

  -- `{key: getattr(validated, key) for key in raw}`
  unfoldable pub attributes_of :
      List (String × Yaml F) → List (String × Yaml F) → Outcome (List (String × Yaml F))
  attributes_of [] validated = ok []
  attributes_of ((key, _) ∷ raw) validated = do
    value ← or_attribute_error (value_at key validated)
    rest ← attributes_of raw validated
    ok ((key, value) ∷ rest)

  abbrev pub unknown_settings : List (String × Yaml F) → List (String × Yaml F) → List String
  unknown_settings current raw = sorted_set (
      filter (λ key. not (contains key (keys_of (analysis_settings_defaults current))))
        (keys_of raw))
