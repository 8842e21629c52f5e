-- ===== src/Security/Middleware.antt =====
-- `InternalAuthMiddleware.dispatch`: the check of each request, and the context variable around the
-- handler. `H` is the state of the application behind the middleware, `R` the type of responses.
use mathlib.Core.Path.{subst}
use becertain.Prelude.{
  ℕ, String, true, Option, none, some, ◌≡◌, refl, ◌≢◌, arith, if◌then◌else◌, ap, ◌∙◌, sym, ◌⊎◌, inl,
  inr, ◌&&◌, false,
}
use becertain.Http.{HttpError, Reply, ok, raised, crashed}
use becertain.Security.Context.{InternalContext, requires_internal_auth}
use becertain.Security.Replay.{SeenCache}
use becertain.Security.Decode.{Env, authenticate_internal_headers}
use becertain.Security.Decode.Sound.{IsRefused, no_service_token}
use becertain.Security.Texts.{or_empty, is_ascii}

pub record WebState (H : Type 0) : Type 0 where
  pub context : Option InternalContext
  pub seen : SeenCache
  pub app : H

-- A handler returns a response, or an exception passes through.
pub data Outcome (R : Type 0) : Type 0 where
  returned : R → Outcome R
  threw : Outcome R

module _ {F R : Type 0} (env : Env F) (json_response : ℕ → String → R) where
  -- How the middleware turns a request without the service token away.
  abbrev pub IsTurnedAway : (String → Option String) → Outcome R → Type 0
  IsTurnedAway headers outcome =
      ((outcome ≡ returned (json_response 500 "Missing expected service token"))
        × (env.expected_service_token ≡ ""))
      ⊎ (outcome ≡ returned (json_response 401 "Invalid service token"))
      ⊎ ((outcome ≡ threw)
          × ((is_ascii (or_empty (headers "x-service-token"))
                && is_ascii env.expected_service_token)
              ≡ false))

module _ {F H R : Type 0} (env : Env F) (json_response : ℕ → String → R) where
  -- The rest of `dispatch`, by what the authentication answered; `call_next` gets the context that
  -- the middleware leaves on the request.
  abbrev pub answer :
      (Option InternalContext → WebState H → Outcome R × WebState H)
      → WebState H
      → Reply InternalContext × SeenCache
      → Outcome R × WebState H
  answer call_next s (raised e, seen) =
      (returned (json_response e.status_code e.detail), record s { seen = seen })
  answer call_next s (crashed, seen) = (threw, record s { seen = seen })
  answer call_next s (ok ctx, seen) =
      let (outcome, s') = call_next (some ctx) (record s { context = some ctx; seen = seen }) in
      (outcome, record s' { context = s.context })

  unfoldable pub dispatch :
      (Option InternalContext → WebState H → Outcome R × WebState H)
      → ℕ
      → String
      → (String → Option String)
      → WebState H
      → Outcome R × WebState H
  dispatch call_next now path headers s =
      if requires_internal_auth path
      then answer call_next s (authenticate_internal_headers env now headers s.seen)
      else call_next none s

  answer_context :
      (call_next : Option InternalContext → WebState H → Outcome R × WebState H) (s : WebState H)
      (reply : Reply InternalContext × SeenCache)
      → (answer call_next s reply).1.context ≡ s.context
  answer_context call_next s (raised e, seen) = refl
  answer_context call_next s (crashed, seen) = refl
  answer_context call_next s (ok ctx, seen) = refl

  answer_raised :
      (call_next : Option InternalContext → WebState H → Outcome R × WebState H) (s : WebState H)
      (reply : Reply InternalContext × SeenCache) (e : HttpError)
      → reply.0 ≡ raised e
      → ((answer call_next s reply).1.app ≡ s.app)
        × ((answer call_next s reply).0 ≡ returned (json_response e.status_code e.detail))
  answer_raised call_next s (raised e', seen) e h = (refl, ground arith)
  answer_raised call_next s (crashed, seen) e h = absurd (ground arith)
  answer_raised call_next s (ok ctx, seen) e h = absurd (ground arith)

  answer_crashed :
      (call_next : Option InternalContext → WebState H → Outcome R × WebState H) (s : WebState H)
      (reply : Reply InternalContext × SeenCache)
      → reply.0 ≡ crashed
      → ((answer call_next s reply).1.app ≡ s.app) × ((answer call_next s reply).0 ≡ threw)
  answer_crashed call_next s (crashed, seen) h = (refl, refl)
  answer_crashed call_next s (raised e', seen) h = absurd (ground arith)
  answer_crashed call_next s (ok ctx, seen) h = absurd (ground arith)

  answer-IsTurnedAway :
      (call_next : Option InternalContext → WebState H → Outcome R × WebState H) (s : WebState H)
      (headers : String → Option String) (reply : Reply InternalContext × SeenCache)
      → IsRefused env headers reply.0
      → ((answer call_next s reply).1.app ≡ s.app)
        × IsTurnedAway env json_response headers (answer call_next s reply).0
  answer-IsTurnedAway call_next s headers reply (inl (unset, empty)) =
      let (app, response) = answer_raised call_next s reply _ unset in (app, inl (response, empty))
  answer-IsTurnedAway call_next s headers reply (inr (inl invalid_token)) =
      let (app, response) = answer_raised call_next s reply _ invalid_token in
      (app, inr (inl response))
  answer-IsTurnedAway call_next s headers reply (inr (inr (crash, not_ascii))) =
      let (app, response) = answer_crashed call_next s reply crash in
      (app, inr (inr (response, not_ascii)))

  -- On a protected path the context variable is afterwards what it was before, whatever the handler
  -- does with it and however it ends; and without the service token the handler does not run: the
  -- application's state is untouched, and the response has status 401, or status 500 where no service
  -- token is set, or else an exception passes through, as one of the two tokens is not ASCII.
  pub dispatch_guards :
      (call_next : Option InternalContext → WebState H → Outcome R × WebState H) (now : ℕ)
      (path : String) (headers : String → Option String) (s : WebState H)
      → requires_internal_auth path ≡ true
      → ((dispatch call_next now path headers s).1.context ≡ s.context)
        × (headers "x-service-token" ≢ some env.expected_service_token
            → ((dispatch call_next now path headers s).1.app ≡ s.app)
              × IsTurnedAway env json_response headers (dispatch call_next now path headers s).0)
  unfolding dispatch
  dispatch_guards call_next now path headers s protected =
      let reply = authenticate_internal_headers env now headers s.seen in
      let eq : dispatch call_next now path headers s ≡ answer call_next s reply =
        rw protected refl in
      (
        ap (λ r. r.1.context) eq ∙ answer_context call_next s reply,
        λ missing.
            let (app, response) =
              answer-IsTurnedAway call_next s headers reply
                (no_service_token env now headers s.seen missing) in
            (
              ap (λ r. r.1.app) eq ∙ app,
              subst (λ r. IsTurnedAway env json_response headers r.0) (sym eq) response,
            ),
      )
