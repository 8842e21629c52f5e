-- ===== src/Security/Tests.antt =====
-- The security service at concrete inputs: runs, and the theorems where their hypotheses hold.
use Prim.Native.String.{◌++◌}
use becertain.Prelude.{
  contains, ℕ, ◌+◌, ◌-◌, ◌<◌, String, true, false, List, [], ◌∷◌, Option, none, some, ◌≡◌, refl,
  ◌≢◌, ◌⊎◌, ◌↔◌, arith, str_eq, ap, if◌then◌else◌,
}
use becertain.Value.{
  ℤ, pos, Fields, Runtime, int, str, list, dict, cons, nil, field, end, get_field,
}
use becertain.Http.{ok, raised, http_error}
use becertain.Security.Texts.{is_ascii}
use becertain.Security.Context.{
  InternalContext, ensure_permission, TenantModel, enforce_request_tenant, requires_internal_auth,
}
use becertain.Security.Context.Permission.{ensure_permission_cases, enforce_request_tenant_lem}
use becertain.Security.Replay.{SeenCache, seen_at, assert_jti_not_replayed}
use becertain.Security.Replay.Window.{
  HasUniqueTokens, present, assert_jti_iff, assert_jti-HasUniqueTokens,
}
use becertain.Security.Decode.{
  Env, decoded, invalid, read_bearer, read_context_token, build_context, context_algorithms,
  required_int_claim, leb_ℤ, token_id, replay_ttl, authenticate_internal_headers, parse_bearer,
  decode_context_token, check_service_token,
}
use becertain.Security.Decode.Sound.{
  read_context_token_sound, authenticate_sound, authenticate_replay,
}
use becertain.Security.Middleware.{
  WebState, Outcome, returned, dispatch, dispatch_guards, IsTurnedAway, threw,
}

-- Floats play no part in the samples.
abbrev runtime : Runtime ℕ
runtime = record {
  str_of = λ v. elim v [ str s ↦ s | _ ↦ "None" ];
  int_of_text = λ s. none;
  is_finite = λ x. true;
  truncate = λ x. pos x;
  is_zero = λ x. false;
}

abbrev claims : Fields ℕ
claims = field "iat" (int (pos 100)) (
    field "exp" (int (pos 160)) (
      field "jti" (str "t1") (
        field "tenant_id" (str " acme ")
          (field "permissions" (list (cons (str "read:rca") (cons (str " ") nil))) end))))

abbrev env : Env ℕ
env = record {
  runtime = runtime;
  upper = λ s. s;
  lower = λ s. if str_eq s "Bearer" then "bearer" else s;
  context_algorithms = "HS256, HS512,";
  context_verify_key = "key";
  context_audience = "becertain";
  context_issuer = "main";
  expected_service_token = "secret";
  context_replay_ttl_seconds = 0;
  ticks_per_second = 1;
  jwt_decode = λ now token key algorithms audience issuer.
      if str_eq token "tok" then decoded (dict claims) else invalid;
}

abbrev headers : String → Option String
headers name =
    if str_eq name "x-service-token"
    then some "secret"
    else if str_eq name "authorization"
    then some "Bearer  tok "
    else none

abbrev ann : InternalContext
ann = record {
  tenant_id = "acme";
  org_id = "acme";
  user_id = "";
  username = "";
  permissions = "read:rca" ∷ [];
  group_ids = [];
  role = "user";
  is_superuser = false;
}

algorithms_run : context_algorithms env ≡ ok ("HS256" ∷ "HS512" ∷ [])
unfolding context_algorithms
algorithms_run = refl

bearer_run : read_bearer env headers ≡ ok "tok"
unfolding read_bearer check_service_token is_ascii parse_bearer
bearer_run = refl

token_run : read_context_token env 120 "tok" ≡ ok (claims, "t1")
unfolding read_context_token context_algorithms required_int_claim get_field
token_run = refl

authenticate_run : authenticate_internal_headers env 120 headers [] ≡ (ok ann, ("t1", 120) ∷ [])
unfolding authenticate_internal_headers decode_context_token read_bearer check_service_token
    is_ascii parse_bearer read_context_token context_algorithms required_int_claim get_field
    build_context assert_jti_not_replayed
authenticate_run = refl

abbrev seen : SeenCache
seen = ("t1", 120) ∷ []

assert_jti_iff_example :
    (((assert_jti_not_replayed 180 "t1" 150 seen).0 ≡ ok tt)
      ↔ ((at : ℕ) → seen_at "t1" seen ≡ some at → 180 < 150 - at))
    × ((assert_jti_not_replayed 180 "t1" 150 seen).0 ≡ ok tt
        → seen_at "t1" (assert_jti_not_replayed 180 "t1" 150 seen).1 ≡ some 150)
    × ((assert_jti_not_replayed 180 "t1" 150 seen).0 ≢ ok tt
        → seen_at "t1" (assert_jti_not_replayed 180 "t1" 150 seen).1 ≡ seen_at "t1" seen)
assert_jti_iff_example = assert_jti_iff 180 "t1" 150 seen (refl, tt)

assert_jti-HasUniqueTokens_example : HasUniqueTokens (assert_jti_not_replayed 180 "t2" 150 seen).1
assert_jti-HasUniqueTokens_example = assert_jti-HasUniqueTokens 180 "t2" 150 seen (refl, tt)

read_context_token_sound_run :
    (algorithms : List String) × (iat : ℤ) × (exp : ℤ) × (context_algorithms env ≡ ok algorithms)
    × (env.jwt_decode 120 "tok" env.context_verify_key algorithms env.context_audience
          env.context_issuer
        ≡ decoded (dict claims))
    × (required_int_claim env "iat" claims ≡ some iat)
    × (required_int_claim env "exp" claims ≡ some exp)
    × (leb_ℤ exp iat ≡ false)
    × ("t1" ≡ token_id env claims)
    × (◌≢◌ {A = String} "t1" "")
read_context_token_sound_run = read_context_token_sound env 120 "tok" claims "t1" token_run

authenticate_sound_example :
    (headers "x-service-token" ≡ some env.expected_service_token)
    × (env.expected_service_token ≢ "")
    × (ann.tenant_id ≢ "")
    × ((bearer : String) × (payload : Fields ℕ) × (jti : String) × (read_bearer env headers
          ≡ ok bearer)
        × (read_context_token env 120 bearer ≡ ok (payload, jti))
        × (build_context env payload ≡ ok ann)
        × ((at : ℕ) → seen_at jti [] ≡ some at → replay_ttl env < 120 - at)
        × (seen_at jti (authenticate_internal_headers env 120 headers []).1 ≡ some 120))
authenticate_sound_example =
    authenticate_sound env 120 headers [] ann tt (ap (λ r. r.0) authenticate_run)

later_run : read_context_token env 290 "tok" ≡ ok (claims, "t1")
unfolding read_context_token context_algorithms required_int_claim get_field
later_run = refl

authenticate_replay_example :
    (authenticate_internal_headers env 290 headers
      (present (replay_ttl env) [] (authenticate_internal_headers env 120 headers []).1)).0
    ≡ raised (http_error 401 "Replayed context token")
authenticate_replay_example =
    authenticate_replay env 120 290 headers headers [] ann "tok" "tok" "t1" claims claims [] tt
      (ap (λ r. r.0) authenticate_run) bearer_run token_run bearer_run later_run tt (ground arith)

ensure_permission_run :
    ((ctx : InternalContext)
      → (ensure_permission "read:rca" (some ann) ≡ ok ctx) ↔ (
          (some ann ≡ some ctx)
          × ((ctx.is_superuser ≡ true) ⊎ (contains "read:rca" ctx.permissions ≡ true))))
    × (some ann ≡ none
        → ensure_permission "read:rca" (some ann)
          ≡ raised (http_error 401 "Missing internal context"))
    × ((ctx : InternalContext)
        → some ann ≡ some ctx
        → ctx.is_superuser ≡ false
        → contains "read:rca" ctx.permissions ≡ false
        → ensure_permission "read:rca" (some ann)
          ≡ raised (http_error 403 ("Missing permission: " ++ "read:rca")))
ensure_permission_run = ensure_permission_cases "read:rca" (some ann)

abbrev asked : TenantModel ℕ
asked = record { tenant_id = some "rival"; body = 7 }

tenant_run :
    enforce_request_tenant asked (some ann) ≡ ok (record { tenant_id = some "acme"; body = 7 })
unfolding enforce_request_tenant
tenant_run = refl

enforce_request_tenant_lem_example :
    (◌≡◌ {A = ℕ} 7 7)
    × ((ctx : InternalContext)
        → some ann ≡ some ctx
        → ◌≡◌ {A = Option String} (some "acme") (some ctx.tenant_id))
    × (some ann ≡ none
        → (◌≡◌ {A = Option String} (some "acme") (some "rival"))
          × (◌≢◌ {A = Option String} (some "rival") (some ""))
          × (◌≢◌ {A = Option String} (some "rival") none))
enforce_request_tenant_lem_example =
    enforce_request_tenant_lem asked (some ann) (record { tenant_id = some "acme"; body = 7 })
      tenant_run

abbrev web : WebState ℕ
web = record { context = none; seen = []; app = 0 }

abbrev counting : Option InternalContext → WebState ℕ → Outcome ℕ × WebState ℕ
counting current s = (returned 200, record s { app = s.app + 1; context = current })

protected_run : requires_internal_auth "/api/v1/jobs" ≡ true
unfolding requires_internal_auth
protected_run = refl

abbrev response_code : ℕ → String → ℕ
response_code status_code detail = status_code

-- A service token with a letter that is not ASCII ends in the `TypeError` of `compare_digest`.
accented_run :
    (dispatch env response_code counting 120 "/api/v1/jobs" (λ name. some "sécret") web).0 ≡ threw
unfolding dispatch requires_internal_auth authenticate_internal_headers read_bearer
    check_service_token is_ascii
accented_run = refl

dispatch_guards_example :
    ((dispatch env response_code counting 120 "/api/v1/jobs" headers web).1.context ≡ none)
    × (headers "x-service-token" ≢ some env.expected_service_token
        → ((dispatch env response_code counting 120 "/api/v1/jobs" headers web).1.app ≡ 0)
          × IsTurnedAway env response_code headers
              (dispatch env response_code counting 120 "/api/v1/jobs" headers web).0)
dispatch_guards_example =
    dispatch_guards env response_code counting 120 "/api/v1/jobs" headers web protected_run
