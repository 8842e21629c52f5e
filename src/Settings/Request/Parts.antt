-- ===== src/Settings/Request/Parts.antt =====
-- What `prepare_request` makes of a request and of the document that it carries.
use becertain.Prelude.{
  ◌≡◌, refl, ◌∙◌, String, Bool, true, false, List, Option, none, some, contains, inl, inr,
  Bool-cases, Option-cases, if◌then◌else◌,
}
use becertain.Settings.{ok, bind-ok, of_ok}
use becertain.Settings.Constants.{normalize_constant_overrides}
use becertain.Settings.Document.{RequestOverride, ConfigDocument}
use becertain.Settings.Request.{
  Env, AnalyzeRequest, PreparedAnalysisRequest, prepare_request, parse_document, with_direct_fields,
  model_copy, dump_request, normalize_settings_overrides, direct_fields_of, direct, updated,
}

-- The value of a field: the request's own if the field was given directly, else the document's, else
-- the request's own.
abbrev pub chosen : {A : Type 0} → Bool → A → Option A → A
chosen true own _ = own
chosen false own none = own
chosen false own (some x) = x

module _ {A : Type 0} (fields : List String) (name : String) (own : A) where
  updated-direct :
      (u : Option A) → updated (direct fields name own u) own ≡ chosen (contains name fields) own u
  updated-direct u = elim (Bool-cases (contains name fields)) [
    | inl given ↦ rw given refl
    | inr absent ↦ rw absent (elim (Option-cases u) [ inl e ↦ rw e refl | inr (x, e) ↦ rw e refl ])
  ]

-- `sensitivity` may be `None`, which a document cannot set.
chosen_some :
    {F : Type 0} (given : Bool) (own : Option F) (u : Option F)
    → chosen given own (elim u [ none ↦ none | some x ↦ some (some x) ])
      ≡ (if given then own else elim u [ none ↦ own | some x ↦ some x ])
chosen_some true own none = refl
chosen_some true own (some x) = refl
chosen_some false own none = refl
chosen_some false own (some x) = refl

module _ {F R : Type 0} where
  abbrev pub overridden : List String → AnalyzeRequest F R → RequestOverride F → AnalyzeRequest F R
  overridden fields req r = record req {
    step = chosen (contains "step" fields) req.step r.step;
    sensitivity =
        if contains "sensitivity" fields
        then req.sensitivity
        else elim r.sensitivity [ none ↦ req.sensitivity | some x ↦ some x ];
    apdex_threshold_ms =
        chosen (contains "apdex_threshold_ms" fields) req.apdex_threshold_ms r.apdex_threshold_ms;
    slo_target = chosen (contains "slo_target" fields) req.slo_target r.slo_target;
    correlation_window_seconds =
        chosen (contains "correlation_window_seconds" fields) req.correlation_window_seconds
          r.correlation_window_seconds;
    forecast_horizon_seconds =
        chosen (contains "forecast_horizon_seconds" fields) req.forecast_horizon_seconds
          r.forecast_horizon_seconds;
  }

  model_copy-overridden :
      (fields : List String) (req : AnalyzeRequest F R) (r : RequestOverride F)
      → model_copy req (with_direct_fields fields req (dump_request r)) ≡ overridden fields req r
  unfolding with_direct_fields model_copy
  model_copy-overridden fields req r = simp (updated-direct, chosen_some)

module _ {F R : Type 0} (env : Env F) where
  -- What a prepared request is made of.
  pub prepare_request-parts :
      (req : AnalyzeRequest F R) (explicit : Option (List String)) (fields : List String)
      (p : PreparedAnalysisRequest F R)
      → prepare_request env req explicit fields ≡ ok p
      → (d : ConfigDocument F) × (parse_document env req.config_yaml ≡ ok d)
        × (p.request
            ≡ model_copy req (
                with_direct_fields (direct_fields_of explicit fields) req (dump_request d.request)))
  unfolding prepare_request
  prepare_request-parts req explicit fields p e =
      let (d, parsed, e1) = bind-ok (parse_document env req.config_yaml) _ p e in
      let (_, _, e2) = bind-ok (normalize_settings_overrides env d.settings) _ p e1 in
      let (_, _, e3) = bind-ok (normalize_constant_overrides env.python d.constants) _ p e2 in
      let direct = direct_fields_of explicit fields in
      let request = model_copy req (with_direct_fields direct req (dump_request d.request)) in
      (d, parsed, of_ok (λ q. q.request ≡ request) e3 refl)

  -- `prepare_request` ends with a result only if it could read the document of the request. Then each
  -- field is the request's own where it was given directly; else what the document says of it; else
  -- the request's own. The fields that no document reaches are the request's own.
  pub prepare_request_precedence :
      (req : AnalyzeRequest F R) (explicit : Option (List String)) (fields : List String)
      (p : PreparedAnalysisRequest F R)
      → prepare_request env req explicit fields ≡ ok p
      → (d : ConfigDocument F) × (parse_document env req.config_yaml ≡ ok d)
        × (p.request ≡ overridden (direct_fields_of explicit fields) req d.request)
  prepare_request_precedence req explicit fields p e =
      let (d, parsed, same) = prepare_request-parts req explicit fields p e in
      (d, parsed, same ∙ model_copy-overridden (direct_fields_of explicit fields) req d.request)
