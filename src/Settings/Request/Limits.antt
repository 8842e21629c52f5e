-- ===== src/Settings/Request/Limits.antt =====
-- The fields of a prepared request: where each one comes from, and that it is within the limits
-- that `AnalyzeRequest` and `_RequestOverrideModel` declare.
use mathlib.Core.Path.{subst}
use becertain.Prelude.{
  ℕ, ◌≡◌, sym, String, true, not, List, Option, none, some, str_eq, contains, inl, inr, Bool-cases,
  Option-cases, arith, strip,
}
use becertain.Store.Documents.{bind-some, of_some}
use becertain.Settings.{Yaml, Entries, null, dict, ok, bind-ok, refuse_if-ok, of_ok}
use becertain.Settings.Document.{
  Pydantic, RequestOverride, ConfigDocument, config_document_of, request_override_of, bounded_field,
  request_field, dict_field, version_field, bounded, optional, is_within, model_fields, value_at,
  request_override_fields,
}
use becertain.Settings.Request.Parts.{prepare_request-parts}
use becertain.Settings.Request.{
  Env, AnalyzeRequest, PreparedAnalysisRequest, prepare_request, parse_document, loaded_document,
  with_direct_fields, model_copy, dump_request, direct_fields_of, direct, updated, is_version,
  or_invalid, caught,
}

or_invalid-ok :
    {A : Type 0} (error : String) (o : Option A) (x : A) → or_invalid error o ≡ ok x → o ≡ some x
or_invalid-ok error none x e = cc
or_invalid-ok error (some y) x e = cc

module _ {F : Type 0} (pydantic : Pydantic F) where
  abbrev pub IsLimited : ℕ → ℕ → F → Type 0
  IsLimited lower upper x = is_within pydantic lower upper x ≡ true

  -- A field that may be `None`.
  abbrev pub IsLimitedField : ℕ → ℕ → Option F → Type 0
  IsLimitedField lower upper none = Unit
  IsLimitedField lower upper (some x) = IsLimited lower upper x

  abbrev IsLimitedOverride : RequestOverride F → Type 0
  IsLimitedOverride r =
      IsLimitedField 1 6 r.sensitivity
      × IsLimitedField 0 1 r.slo_target
      × IsLimitedField 10 600 r.correlation_window_seconds
      × IsLimitedField 60 86400 r.forecast_horizon_seconds

  abbrev pub IsLimitedRequest : {R : Type 0} → AnalyzeRequest F R → Type 0
  IsLimitedRequest req =
      IsLimitedField 1 6 req.sensitivity
      × IsLimited 0 1 req.slo_target
      × IsLimited 10 600 req.correlation_window_seconds
      × IsLimited 60 86400 req.forecast_horizon_seconds

  bounded-IsLimitedField :
      (lower upper : ℕ) (x y : Option F)
      → bounded pydantic lower upper x ≡ some y
      → IsLimitedField lower upper y
  bounded-IsLimitedField lower upper none y e = of_some (IsLimitedField lower upper) e tt
  bounded-IsLimitedField lower upper (some x) y e =
      elim (Bool-cases (is_within pydantic lower upper x)) [
        | inl fits ↦ of_some (IsLimitedField lower upper) (rw fits at e) fits
        | inr out ↦ absurd (ground arith)
      ]

  bounded_field-IsLimitedField :
      (lower upper : ℕ) (value : Option (Yaml F)) (y : Option F)
      → bounded_field pydantic lower upper value ≡ some y
      → IsLimitedField lower upper y
  unfolding bounded_field
  bounded_field-IsLimitedField lower upper value y e =
      let (x, _, e1) = bind-some (optional pydantic pydantic.as_float value) _ y e in
      bounded-IsLimitedField lower upper x y e1

  request_override_of-IsLimited :
      (entries : Entries F) (r : RequestOverride F)
      → request_override_of pydantic entries ≡ some r
      → IsLimitedOverride r
  unfolding request_override_of
  request_override_of-IsLimited entries r e =
      let (fields, _, e1) = bind-some (model_fields request_override_fields entries) _ r e in
      let (_, _, e2) =
        bind-some (optional pydantic pydantic.as_text (value_at "step" fields)) _ r e1 in
      let (_, b1, e3) = bind-some (bounded_field pydantic 1 6 _) _ r e2 in
      let (_, _, e4) =
        bind-some (optional pydantic pydantic.as_float (value_at "apdex_threshold_ms" fields)) _ r
          e3 in
      let (_, b2, e5) = bind-some (bounded_field pydantic 0 1 _) _ r e4 in
      let (_, b3, e6) = bind-some (bounded_field pydantic 10 600 _) _ r e5 in
      let (_, b4, e7) = bind-some (bounded_field pydantic 60 86400 _) _ r e6 in
      of_some IsLimitedOverride e7 (
        bounded_field-IsLimitedField 1 6 _ _ b1,
        bounded_field-IsLimitedField 0 1 _ _ b2,
        bounded_field-IsLimitedField 10 600 _ _ b3,
        bounded_field-IsLimitedField 60 86400 _ _ b4,
      )

  request_field-IsLimited :
      (value : Option (Yaml F)) (r : RequestOverride F)
      → request_field pydantic value ≡ some r
      → IsLimitedOverride r
  request_field-IsLimited none r e = of_some IsLimitedOverride e (tt, tt, tt, tt)
  request_field-IsLimited (some (dict entries)) r e = request_override_of-IsLimited entries r e
  request_field-IsLimited (some _) r e = cc

  config_document_of-IsLimited :
      (entries : Entries F) (d : ConfigDocument F)
      → config_document_of pydantic entries ≡ some d
      → IsLimitedOverride d.request
  unfolding config_document_of
  config_document_of-IsLimited entries d e =
      let (fields, _, e1) = bind-some (model_fields _ entries) _ d e in
      let (_, _, e2) = bind-some (version_field pydantic (value_at "version" fields)) _ d e1 in
      let (r, limited, e3) =
        bind-some (request_field pydantic (value_at "request" fields)) _ d e2 in
      let (_, _, e4) = bind-some (dict_field pydantic (value_at "constants" fields)) _ d e3 in
      let (_, _, e5) = bind-some (dict_field pydantic (value_at "settings" fields)) _ d e4 in
      of_some (λ d. IsLimitedOverride d.request) e5 (request_field-IsLimited _ r limited)

module _ {F : Type 0} (env : Env F) where
  loaded_document-IsLimited :
      (v : Yaml F) (d : ConfigDocument F)
      → loaded_document env v ≡ ok d
      → IsLimitedOverride env.pydantic d.request
  unfolding loaded_document
  loaded_document-IsLimited null d e =
      of_ok (λ d. IsLimitedOverride env.pydantic d.request) e (tt, tt, tt, tt)
  loaded_document-IsLimited (dict entries) d e =
      let (c, valid, e1) = bind-ok (or_invalid _ (config_document_of env.pydantic entries)) _ d e in
      let (_, e2) = refuse_if-ok (not (is_version c.version)) _ (ok c) d e1 in
      of_ok (λ d. IsLimitedOverride env.pydantic d.request) e2
        (config_document_of-IsLimited env.pydantic entries c (or_invalid-ok _ _ c valid))
  loaded_document-IsLimited _ d e = cc

  parse_document-IsLimited :
      (raw : Option String) (d : ConfigDocument F)
      → parse_document env raw ≡ ok d
      → IsLimitedOverride env.pydantic d.request
  unfolding parse_document
  parse_document-IsLimited none d e =
      of_ok (λ d. IsLimitedOverride env.pydantic d.request) e (tt, tt, tt, tt)
  parse_document-IsLimited (some raw) d e = elim (Bool-cases (str_eq (strip raw) "")) [
    | inl empty ↦
        of_ok (λ d. IsLimitedOverride env.pydantic d.request) (rw empty at e) (tt, tt, tt, tt)
    | inr given ↦
        let (v, _, e1) =
          bind-ok (caught env (env.safe_load raw)) (loaded_document env) d (rw given at e) in
        loaded_document-IsLimited v d e1
  ]

-- An update within the limits gives a field within the limits.
updated-IsLimited :
    {F : Type 0} (pydantic : Pydantic F) (lower upper : ℕ) (fields : List String) (name : String)
    (own : F) (u : Option F)
    → IsLimited pydantic lower upper own
    → IsLimitedField pydantic lower upper u
    → IsLimited pydantic lower upper (updated (direct fields name own u) own)
updated-IsLimited {F = F} pydantic lower upper fields name own u h k =
    elim (Bool-cases (contains name fields)) [
      | inl given ↦ rw given h
      | inr absent ↦ rw absent (unset u k)
    ]
  where
    unset :
        (u : Option F)
        → IsLimitedField pydantic lower upper u
        → IsLimited pydantic lower upper (updated u own)
    unset none k = h
    unset (some x) k = k

updated-IsLimitedField :
    {F : Type 0} (pydantic : Pydantic F) (fields : List String) (own : Option F)
    (r : RequestOverride F)
    → IsLimitedField pydantic 1 6 own
    → IsLimitedField pydantic 1 6 r.sensitivity
    → IsLimitedField pydantic 1 6
        (updated (direct fields "sensitivity" own (dump_request r).sensitivity) own)
updated-IsLimitedField pydantic fields own r h k =
    elim (Bool-cases (contains "sensitivity" fields)) [
      | inl given ↦ rw given h
      | inr absent ↦ rw absent (elim (Option-cases r.sensitivity) [
        | inl unset ↦ rw unset h
        | inr (x, set) ↦ rw set (rw set at k)
      ])
    ]

module _ {F R : Type 0} (env : Env F) where
  -- If the fields of a request are within the limits that `AnalyzeRequest` declares, then so are
  -- those of the request that `prepare_request` makes of it, whatever the document says.
  pub prepare_request-IsLimited :
      (req : AnalyzeRequest F R) (explicit : Option (List String)) (fields : List String)
      (p : PreparedAnalysisRequest F R)
      → IsLimitedRequest env.pydantic req
      → prepare_request env req explicit fields ≡ ok p
      → IsLimitedRequest env.pydantic p.request
  unfolding with_direct_fields model_copy
  prepare_request-IsLimited req explicit fields p (a, b, c, g) e =
      let (d, parsed, same) = prepare_request-parts env req explicit fields p e in
      let (a', b', c', g') = parse_document-IsLimited env req.config_yaml d parsed in
      let given = direct_fields_of explicit fields in
      subst (IsLimitedRequest env.pydantic) (sym same) (
        updated-IsLimitedField env.pydantic given req.sensitivity d.request a a',
        updated-IsLimited env.pydantic 0 1 given "slo_target" req.slo_target d.request.slo_target b
            b',
        updated-IsLimited env.pydantic 10 600 given _ _ _ c c',
        updated-IsLimited env.pydantic 60 86400 given _ _ _ g g',
      )
