-- ===== src/Security/Decode/Sound.antt =====
-- What an accepted request has shown, and that its token is not accepted again.
use becertain.Prelude.{
  ℕ, ◌+◌, ◌-◌, ◌<◌, ◌≤◌, String, false, ◌&&◌, Bool-cases, List, Option, some, ◌≡◌, refl, sym, ap,
  ◌∙◌, ◌≢◌, ◌⊎◌, inl, inr, arith, str_eq, eq_iff, Option-cases, All,
}
use becertain.Value.{ℤ, Fields, dict}
use becertain.Http.{Reply, ok, raised, crashed, http_error, ◌>>=◌, ◌>>◌}
use becertain.Security.Texts.{or_empty, is_ascii}
use becertain.Security.Context.{InternalContext}
use becertain.Security.Replay.{SeenCache, seen_at, assert_jti_not_replayed}
use becertain.Security.Replay.Window.{
  HasUniqueTokens, present, assert_jti_replay, assert_jti_iff, seen_at-accepted,
}
use becertain.Security.Decode.{
  Decoded, expired, invalid, decoded, Env, context_algorithms, required_int_claim, token_id, leb_ℤ,
  payload_of_decoded, read_context_token, replay_ttl, decode_context_token, build_context,
  check_service_token, read_bearer, authenticate_internal_headers,
}

Reply-cases :
    {A : Type 0} (r : Reply A)
    → (((e : _) × (r ≡ raised e)) ⊎ (r ≡ crashed)) ⊎ ((a : A) × (r ≡ ok a))
Reply-cases (raised e) = inl (inl (e, refl))
Reply-cases crashed = inl (inr refl)
Reply-cases (ok a) = inr (a, refl)

nonempty : (s : String) → str_eq s "" ≡ false → s ≢ ""
nonempty s h e = ground (arith, eq_iff s "")

module _ {F : Type 0} (env : Env F) where
  payload_of_decoded_ok :
      (d : Decoded F) (payload : Fields F)
      → payload_of_decoded env d ≡ ok payload
      → d ≡ decoded (dict payload)
  payload_of_decoded_ok (decoded (dict fields)) payload h = ground arith
  payload_of_decoded_ok (decoded _) payload h = absurd (ground arith)
  payload_of_decoded_ok expired payload h = absurd (ground arith)
  payload_of_decoded_ok invalid payload h = absurd (ground arith)

  -- A token is read only if PyJWT accepts it under allowed algorithms, its expiry is later than its
  -- issue, and it names its id.
  pub read_context_token_sound :
      (now : ℕ) (token : String) (payload : Fields F) (jti : String)
      → read_context_token env now token ≡ ok (payload, jti)
      → (algorithms : List String) × (iat : ℤ) × (exp : ℤ) × (context_algorithms env
          ≡ ok algorithms)
        × (env.jwt_decode now token env.context_verify_key algorithms env.context_audience
              env.context_issuer
            ≡ decoded (dict payload))
        × (required_int_claim env "iat" payload ≡ some iat)
        × (required_int_claim env "exp" payload ≡ some exp)
        × (leb_ℤ exp iat ≡ false)
        × (jti ≡ token_id env payload)
        × (jti ≢ "")
  unfolding read_context_token
  read_context_token_sound now token payload jti h = elim (Reply-cases (context_algorithms env)) [
    | inl (inl (e, refused)) ↦ absurd (ground arith)
    | inl (inr crash) ↦ absurd (ground arith)
    | inr (algorithms, allowed) ↦
        let answer =
          env.jwt_decode now token env.context_verify_key algorithms env.context_audience
            env.context_issuer in
        elim (Reply-cases (payload_of_decoded env answer)) [
          | inl (inl (e, refused)) ↦ absurd (ground arith)
          | inl (inr crash) ↦ absurd (ground arith)
          | inr (fields, read) ↦ elim (Option-cases (required_int_claim env "iat" fields)) [
            | inl missing ↦ absurd (ground arith)
            | inr (iat, issued) ↦ elim (Option-cases (required_int_claim env "exp" fields)) [
              | inl missing ↦ absurd (ground arith)
              | inr (exp, expires) ↦
                  let same : fields ≡ payload = ground arith in
                  let id : token_id env fields ≡ jti = ground arith in
                  let named : str_eq (token_id env fields) "" ≡ false = ground arith in
                  (
                    algorithms,
                    iat,
                    exp,
                    allowed,
                    payload_of_decoded_ok answer fields read ∙ ap (λ p. decoded (dict p)) same,
                    ap (required_int_claim env "iat") (sym same) ∙ issued,
                    ap (required_int_claim env "exp") (sym same) ∙ expires,
                    ground arith,
                    sym id ∙ ap (token_id env) same,
                    λ e. nonempty (token_id env fields) named (id ∙ e),
                  )
            ]
          ]
        ]
  ]

  -- A request whose token reads well is decided by the replay check and by its claims.
  authenticate-eq :
      (now : ℕ) (headers : String → Option String) (cache : SeenCache) (bearer : String)
      (payload : Fields F) (jti : String)
      → read_bearer env headers ≡ ok bearer
      → read_context_token env now bearer ≡ ok (payload, jti)
      → let (checked, cache') = assert_jti_not_replayed (replay_ttl env) jti now cache in
        authenticate_internal_headers env now headers cache
        ≡ ((checked >> ok payload) >>= build_context env, cache')
  unfolding authenticate_internal_headers decode_context_token
  authenticate-eq now headers cache bearer payload jti borne read = ground arith

  both_ok :
      (checked : Reply Unit) (payload : Fields F) (ctx : InternalContext)
      → ((checked >> ok payload) >>= build_context env) ≡ ok ctx
      → (checked ≡ ok tt) × (build_context env payload ≡ ok ctx)
  both_ok (ok u) payload ctx h = (refl, h)
  both_ok (raised e) payload ctx h = absurd (ground arith)
  both_ok crashed payload ctx h = absurd (ground arith)

  service_token :
      (headers : String → Option String) (bearer : String)
      → read_bearer env headers ≡ ok bearer
      → (headers "x-service-token" ≡ some env.expected_service_token)
        × (env.expected_service_token ≢ "")
  unfolding read_bearer check_service_token
  service_token headers bearer h = elim (Option-cases (headers "x-service-token")) [
    | inl missing ↦
        absurd (
          ground
            (arith, eq_iff "" env.expected_service_token, eq_iff env.expected_service_token ""))
    | inr (token, sent) ↦ (
      ground (arith, eq_iff token env.expected_service_token),
      ground (arith, eq_iff env.expected_service_token ""),
    )
  ]

  -- The ways in which a request without the service token is refused.
  abbrev pub IsRefused : {A : Type 0} → (String → Option String) → Reply A → Type 0
  IsRefused headers reply =
      ((reply ≡ raised (http_error 500 "Missing expected service token"))
        × (env.expected_service_token ≡ ""))
      ⊎ (reply ≡ raised (http_error 401 "Invalid service token"))
      ⊎ ((reply ≡ crashed)
          × ((is_ascii (or_empty (headers "x-service-token"))
                && is_ascii env.expected_service_token)
              ≡ false))

  not_the_token :
      (headers : String → Option String)
      → headers "x-service-token" ≢ some env.expected_service_token
      → str_eq env.expected_service_token "" ≡ false
      → str_eq (or_empty (headers "x-service-token")) env.expected_service_token ≡ false
  not_the_token headers missing set = elim (Option-cases (headers "x-service-token")) [
    | inl absent ↦
        rw absent (
          ground
            (arith, eq_iff "" env.expected_service_token, eq_iff env.expected_service_token ""))
    | inr (token, sent) ↦ rw sent (elim (Bool-cases (str_eq token env.expected_service_token)) [
      | inl same ↦
          absurd (missing (sent ∙ ap some ((eq_iff token env.expected_service_token).0 same)))
      | inr other ↦ other
    ])
  ]

  read_bearer-IsRefused :
      (headers : String → Option String)
      → headers "x-service-token" ≢ some env.expected_service_token
      → IsRefused headers (read_bearer env headers)
  unfolding read_bearer check_service_token
  read_bearer-IsRefused headers missing =
      let provided = or_empty (headers "x-service-token") in
      elim (Bool-cases (str_eq env.expected_service_token "")) [
        | inl unset ↦ inl (rw unset refl, (eq_iff env.expected_service_token "").0 unset)
        | inr set ↦ elim (Bool-cases (is_ascii provided && is_ascii env.expected_service_token)) [
          | inl comparable ↦
              inr (inl (rw (set, comparable, not_the_token headers missing set) refl))
          | inr not_ascii ↦ inr (inr (rw (set, not_ascii) refl, not_ascii))
        ]
      ]

  -- Without the service token a request is refused.
  pub no_service_token :
      (now : ℕ) (headers : String → Option String) (cache : SeenCache)
      → headers "x-service-token" ≢ some env.expected_service_token
      → IsRefused headers (authenticate_internal_headers env now headers cache).0
  unfolding authenticate_internal_headers
  no_service_token now headers cache missing = elim (read_bearer-IsRefused headers missing) [
    | inl (unset, empty) ↦ inl (rw (authenticate_internal_headers, unset) refl, empty)
    | inr (inl invalid_token) ↦ inr (inl (rw (authenticate_internal_headers, invalid_token) refl))
    | inr (inr (crash, not_ascii)) ↦
        inr (inr (rw (authenticate_internal_headers, crash) refl, not_ascii))
  ]

  tenant_named :
      (payload : Fields F) (ctx : InternalContext)
      → build_context env payload ≡ ok ctx
      → ctx.tenant_id ≢ ""
  unfolding build_context
  tenant_named payload ctx h = ground (arith, eq_iff ctx.tenant_id "")

  -- A request that is authenticated carries the service token, a bearer whose token reads well, and
  -- a tenant; its token id is recorded as seen at that instant, having had no entry that is still
  -- alive.
  pub authenticate_sound :
      (now : ℕ) (headers : String → Option String) (cache : SeenCache) (ctx : InternalContext)
      → HasUniqueTokens cache
      → (authenticate_internal_headers env now headers cache).0 ≡ ok ctx
      → (headers "x-service-token" ≡ some env.expected_service_token)
        × (env.expected_service_token ≢ "")
        × (ctx.tenant_id ≢ "")
        × ((bearer : String) × (payload : Fields F) × (jti : String) × (read_bearer env headers
              ≡ ok bearer)
            × (read_context_token env now bearer ≡ ok (payload, jti))
            × (build_context env payload ≡ ok ctx)
            × ((at : ℕ) → seen_at jti cache ≡ some at → replay_ttl env < now - at)
            × (seen_at jti (authenticate_internal_headers env now headers cache).1 ≡ some now))
  unfolding authenticate_internal_headers decode_context_token
  authenticate_sound now headers cache ctx unique h = elim (Reply-cases (read_bearer env headers)) [
    | inl (inl (e, refused)) ↦ absurd (ground arith)
    | inl (inr crash) ↦ absurd (ground arith)
    | inr (bearer, borne) ↦ elim (Reply-cases (read_context_token env now bearer)) [
      | inl (inl (e, refused)) ↦ absurd (ground arith)
      | inl (inr crash) ↦ absurd (ground arith)
      | inr ((payload, jti), read) ↦
          let eq = authenticate-eq now headers cache bearer payload jti borne read in
          let checked = assert_jti_not_replayed (replay_ttl env) jti now cache in
          let (accepted, built) = both_ok checked.0 payload ctx (sym (ap (λ r. r.0) eq) ∙ h) in
          let (sent, set) = service_token headers bearer borne in
          (
            sent,
            set,
            tenant_named payload ctx built,
            (
              bearer,
              payload,
              jti,
              borne,
              read,
              built,
              (assert_jti_iff (replay_ttl env) jti now cache unique).0.0 accepted,
              ap (λ r. seen_at jti r.1) eq
                  ∙ seen_at-accepted (replay_ttl env) jti now cache accepted,
            ),
          )
    ]
  ]

  -- The token id of an authenticated request is refused for the whole time to live, under whatever
  -- headers it comes again and whatever other ids are presented in between.
  pub authenticate_replay :
      (now later : ℕ) (headers headers' : String → Option String) (cache : SeenCache)
      (ctx : InternalContext) (bearer bearer' jti : String) (payload payload' : Fields F)
      (calls : List (String × ℕ))
      → HasUniqueTokens cache
      → (authenticate_internal_headers env now headers cache).0 ≡ ok ctx
      → read_bearer env headers ≡ ok bearer
      → read_context_token env now bearer ≡ ok (payload, jti)
      → read_bearer env headers' ≡ ok bearer'
      → read_context_token env later bearer' ≡ ok (payload', jti)
      → All (λ call. call.1 ≤ now + replay_ttl env) calls
      → later ≤ now + replay_ttl env
      → (authenticate_internal_headers env later headers' (
          present (replay_ttl env) calls (authenticate_internal_headers env now headers cache).1)).0
        ≡ raised (http_error 401 "Replayed context token")
  authenticate_replay now later headers headers' cache ctx bearer bearer' jti payload payload' calls
        unique h borne read borne' read' between recent =
      let eq = authenticate-eq now headers cache bearer payload jti borne read in
      let first = assert_jti_not_replayed (replay_ttl env) jti now cache in
      let (accepted, _) = both_ok first.0 payload ctx (sym (ap (λ r. r.0) eq) ∙ h) in
      let after = present (replay_ttl env) calls first.1 in
      let refused =
        assert_jti_replay (replay_ttl env) jti now later calls cache unique accepted between
          recent in
      ap
        (λ c.
          (authenticate_internal_headers env later headers' (present (replay_ttl env) calls c)).0)
        (ap (λ r. r.1) eq)
      ∙ ap (λ r. r.0) (authenticate-eq later headers' after bearer' payload' jti borne' read')
      ∙ ap (λ (r : Reply Unit). (r >> ok payload') >>= build_context env) refused
