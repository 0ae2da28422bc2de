-- ===== src/Gateway.antt =====
-- legacy/app/core/ratelimit.py and legacy/app/apps/public.py: what a request to the public API goes
-- through before its handler. The middleware added last is the outermost: AuthMiddleware, then
-- RateLimitMiddleware. The metrics and CORS are in `Apps`.
pub mod Flood
pub mod Gate
mod Tests
use taxlien_gateway.Prelude.{
  ℕ, Bool, true, false, Option, none, some, List, [], ◌∷◌, String, str_of, truthy, or_else, ◌<>◌,
  if◌then◌else◌,
}
use taxlien_gateway.Http.{Request, HttpResponse, Outcome, respond, http_exception, crash}
use taxlien_gateway.Models.Auth.{AuthContext, tier_text}
use taxlien_gateway.Redis.{Redis}
use taxlien_gateway.RateLimit.{is_rate_limited}
use taxlien_gateway.Auth.{Settings, Claims, Verdict, pass, deny, authenticate}
use taxlien_gateway.Api.{World}

-- The text of a JSONResponse with an error.
abbrev pub error_json : String → String → String
error_json code message =
    "{\"error\":{\"code\":\"" <> code <> "\",\"message\":\"" <> message <> "\"}}"

-- An outcome, and the header X-RateLimit-Remaining if it is set.
pub record Answer : Type 0 where
  pub outcome : Outcome
  pub remaining : Option ℕ

abbrev json_response : ℕ → String → String → Outcome
json_response status code message = respond record {
  status_code = status;
  content = error_json code message;
  media_type = some "application/json";
  headers = [];
}

abbrev pub unauthorized : String → Answer
unauthorized message = record {
  outcome = json_response 401 "UNAUTHORIZED" message;
  remaining = none;
}

abbrev pub too_many : ℕ → Answer
too_many remaining = record {
  outcome = json_response 429 "RATE_LIMIT_EXCEEDED" "Too many requests. Please slow down.";
  remaining = some remaining;
}

-- The header is set on what `call_next` returns; an exception that nothing catches has none.
abbrev pub with_remaining : ℕ → Outcome → Answer
with_remaining n (respond r) = record { outcome = respond r; remaining = some n }
with_remaining n (http_exception s d) = record { outcome = http_exception s d; remaining = some n }
with_remaining n crash = record { outcome = crash; remaining = none }

-- `auth_context.user_id or auth_context.worker_id or client_ip`
unfoldable pub identifier_of : AuthContext → Request → String
identifier_of auth req = or_else auth.user_id (or_else auth.worker_id (or_host req.client_host))
  where
    or_host : Option String → String
    or_host none = "unknown"
    or_host (some h) = h

abbrev pub Handler : Type 0 → Type 0
Handler W = AuthContext → Request → W → Outcome × W

module _ (redis : Redis) (settings : Settings) (verify_id_token : String → Option Claims) where
  open redis use {State}

  -- `RateLimitMiddleware.dispatch`; `call_next` is the handler.
  unfoldable pub limit_request :
      ℕ → AuthContext → Request → Handler (World State) → World State → Answer × World State
  limit_request now auth req handler w =
      let ((allowed, remaining), s) =
        is_rate_limited redis now (identifier_of auth req) (tier_text auth.tier) w.redis in
      let (outcome, w') = handler auth req (record w { redis = s }) in
      if allowed
      then (with_remaining remaining outcome, w')
      else (too_many remaining, record w { redis = s })

  -- A request to the public API, from AuthMiddleware on.
  unfoldable pub serve_public :
      ℕ → Request → Handler (World State) → World State → Answer × World State
  serve_public now req handler w = elim (authenticate settings verify_id_token req) [
    | deny message ↦ (unauthorized message, w)
    | pass auth ↦ limit_request now auth req handler w
  ]
