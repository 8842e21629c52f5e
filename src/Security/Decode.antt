-- ===== src/Security/Decode.antt =====
-- From the headers of a request to its context: the service token, the bearer token, the claims
-- and the replay check, in the order of the code.
pub mod Sound
use Prim.Native.String.{◌++◌, compare}
use Prim.Native.Nat.{Ordering}
use Prim.Native.Char.{Char, code}
use becertain.Prelude.{
  ℕ, ◌*◌, String, Bool, true, false, not, ◌||◌, ◌&&◌, List, [], ◌∷◌, map, Option, none, some,
  if◌then◌else◌, str_eq, strip, filter, text_or, ltb, ◌==◌,
}
use becertain.Value.{
  ℤ, pos, negsuc, Value, Items, Fields, null, bool, int, float, str, list, dict, nil, cons, Runtime,
  get_field, or_null, is_truthy,
}
use becertain.Http.{Reply, ok, raised, crashed, http_error, ◌>>=◌, ◌>>◌, raise_if, or_raise}
use becertain.Security.Texts.{
  split_commas, sorted_set, join_commas, split_space, or_empty, present_text, is_ascii,
}
use becertain.Security.Context.{InternalContext}
use becertain.Security.Replay.{SeenCache, assert_jti_not_replayed}

-- What PyJWT answers to a token.
pub data Decoded (F : Type 0) : Type 0 where
  expired invalid : Decoded F
  decoded : Value F → Decoded F

-- The settings, the interpreter, and PyJWT: `decode token key algorithms audience issuer` at an
-- instant. `upper` and `lower` are the methods of `str`.
pub record Env (F : Type 0) : Type 0 where
  pub runtime : Runtime F
  pub upper : String → String
  pub lower : String → String
  pub context_algorithms : String
  pub context_verify_key : String
  pub context_audience : String
  pub context_issuer : String
  pub expected_service_token : String
  pub context_replay_ttl_seconds : ℕ
  pub ticks_per_second : ℕ
  pub jwt_decode : ℕ → String → String → List String → String → String → Decoded F

abbrev pub is_allowed : String → Bool
is_allowed a = str_eq a "HS256" || str_eq a "HS384" || str_eq a "HS512"

-- `l or ["HS256"]`
abbrev pub or_default : List String → List String
or_default [] = "HS256" ∷ []
or_default (a ∷ as') = a ∷ as'

abbrev pub leb_ℤ : ℤ → ℤ → Bool
leb_ℤ (pos a) (pos b) = not (ltb b a)
leb_ℤ (pos a) (negsuc b) = false
leb_ℤ (negsuc a) (pos b) = true
leb_ℤ (negsuc a) (negsuc b) = not (ltb a b)

module _ {F : Type 0} (env : Env F) where
  unfoldable pub context_algorithms : Reply (List String)
  context_algorithms =
      let raw = text_or env.context_algorithms "HS256" in
      let parsed =
        map (λ v. env.upper (strip v))
          (filter (λ v. not (str_eq (strip v) "")) (split_commas raw)) in
      let algorithms = or_default parsed in
      let refused = sorted_set (filter (λ a. not (is_allowed a)) algorithms) in
      elim refused [
        | [] ↦ ok algorithms
        | first ∷ others ↦ raised (
            http_error 500 (
              "Unsupported context token algorithm configuration: "
              ++ join_commas (first ∷ others)))
      ]

  unfoldable pub parse_bearer : Option String → Reply String
  parse_bearer header = do
    text ← or_raise (present_text header) 401 "Missing authorization header"
    parts ← or_raise (split_space text) 401 "Invalid authorization header"
    raise_if (not (str_eq (env.lower parts.0) "bearer") || str_eq (strip parts.1) "") 401
        "Invalid authorization header"
    ok (strip parts.1)

  -- `_required_int_claim`; its two kinds of error are handled alike. `int` of an infinite float
  -- raises a third kind, but so it does in PyJWT before, which converts both claims itself.
  unfoldable pub required_int_claim : String → Fields F → Option ℤ
  required_int_claim key payload = elim (or_null (get_field key payload)) [
    | int n ↦ some n
    | float x ↦ if env.runtime.is_finite x then some (env.runtime.truncate x) else none
    | str s ↦ env.runtime.int_of_text s
    | _ ↦ none
  ]

  -- `str(payload.get("jti") or "").strip()`
  abbrev pub token_id : Fields F → String
  token_id payload =
      let v = or_null (get_field "jti" payload) in
      strip (if is_truthy env.runtime v then env.runtime.str_of v else "")

  abbrev pub payload_of_decoded : Decoded F → Reply (Fields F)
  payload_of_decoded expired = raised (http_error 401 "Context token expired")
  payload_of_decoded invalid = raised (http_error 401 "Invalid context token")
  payload_of_decoded (decoded (dict payload)) = ok payload
  payload_of_decoded (decoded _) = raised (http_error 401 "Invalid context token payload")

  -- `_decode_context_token` up to the replay check: the payload and the token id
  unfoldable pub read_context_token : ℕ → String → Reply (Fields F × String)
  read_context_token now token = do
    raise_if (str_eq env.context_verify_key "") 500 "Missing context verify key"
    algorithms ← context_algorithms
    payload ← payload_of_decoded (
        env.jwt_decode now token env.context_verify_key algorithms env.context_audience
          env.context_issuer)
    iat ← or_raise (required_int_claim "iat" payload) 401 "Invalid context token claims"
    exp ← or_raise (required_int_claim "exp" payload) 401 "Invalid context token claims"
    raise_if (leb_ℤ exp iat) 401 "Invalid context token lifetime"
    raise_if (str_eq (token_id payload) "") 401 "Missing context token jti"
    ok (payload, token_id payload)

  -- `int(ttl or 180)`, in ticks of the clock
  abbrev pub replay_ttl : ℕ
  replay_ttl =
      (if env.context_replay_ttl_seconds == 0 then 180 else env.context_replay_ttl_seconds)
      * env.ticks_per_second

  unfoldable pub decode_context_token : ℕ → String → SeenCache → Reply (Fields F) × SeenCache
  decode_context_token now token cache = elim (read_context_token now token) [
    | raised e ↦ (raised e, cache)
    | crashed ↦ (crashed, cache)
    | ok (payload, jti) ↦
        let (checked, cache') = assert_jti_not_replayed replay_ttl jti now cache in
        (checked >> ok payload, cache')
  ]

  -- `str(payload.get(key, default))`
  abbrev pub text_field : String → String → Fields F → String
  text_field key default payload = elim (get_field key payload) [
    | none ↦ default
    | some v ↦ env.runtime.str_of v
  ]

  abbrev pub texts_of : Items F → List String
  texts_of nil = []
  texts_of (cons v vs) =
      let text = strip (env.runtime.str_of v) in
      let rest = texts_of vs in if str_eq text "" then rest else text ∷ rest

  abbrev pub string_list : Option (Value F) → List String
  string_list (some (list items)) = texts_of items
  string_list _ = []

  abbrev pub bool_field : String → Fields F → Bool
  bool_field key payload = elim (get_field key payload) [
    | none ↦ false
    | some v ↦ is_truthy env.runtime v
  ]

  unfoldable pub build_context : Fields F → Reply InternalContext
  build_context payload = do
    let tenant_id = strip (text_field "tenant_id" "" payload)
    raise_if (str_eq tenant_id "") 401 "Missing tenant context"
    ok (record {
      tenant_id = tenant_id;
      org_id = text_field "org_id" tenant_id payload;
      user_id = text_field "user_id" "" payload;
      username = text_field "username" "" payload;
      permissions = string_list (get_field "permissions" payload);
      group_ids = string_list (get_field "group_ids" payload);
      role = text_field "role" "user" payload;
      is_superuser = bool_field "is_superuser" payload;
    })

  -- `compare_digest` of two texts, which is a `TypeError` where one is not ASCII.
  unfoldable pub check_service_token : String → Reply Unit
  check_service_token provided =
      if is_ascii provided && is_ascii env.expected_service_token
      then raise_if (not (str_eq provided env.expected_service_token)) 401 "Invalid service token"
      else crashed

  -- `authenticate_internal_headers`, up to the token: the service token and the bearer.
  unfoldable pub read_bearer : (String → Option String) → Reply String
  read_bearer headers = do
    raise_if (str_eq env.expected_service_token "") 500 "Missing expected service token"
    check_service_token (or_empty (headers "x-service-token"))
    parse_bearer (headers "authorization")

  unfoldable pub authenticate_internal_headers :
      ℕ → (String → Option String) → SeenCache → Reply InternalContext × SeenCache
  authenticate_internal_headers now headers cache = elim (read_bearer headers) [
    | raised e ↦ (raised e, cache)
    | crashed ↦ (crashed, cache)
    | ok bearer ↦
        let (payload, cache') = decode_context_token now bearer cache in
        (payload >>= build_context, cache')
  ]
