-- ===== src/Gateway/Tests.antt =====
-- The theorems on public requests at concrete requests.
use taxlien_gateway.Prelude.{
  ℕ, ◌+◌, ◌-◌, ◌*◌, ◌≤◌, ◌⊎◌, refl, none, some, Option, [], ◌∷◌, String, empty_dict, arith,
}
use taxlien_gateway.Http.{Request, http_exception}
use taxlien_gateway.Models.Auth.{AuthContext, no_auth}
use taxlien_gateway.Redis.Memory.{Store, memory, empty_store}
use taxlien_gateway.RateLimit.{token, limit_of, is_rate_limited, check, token_bucket, new_tokens}
use taxlien_gateway.RateLimit.Bounds.{untouched, visit}
use taxlien_gateway.Metrics.{no_metrics}
use taxlien_gateway.Auth.{
  Settings, Claims, authenticate, check_worker, check_bearer, check_internal,
}
use taxlien_gateway.Api.{World}
use taxlien_gateway.Gateway.{Handler, identifier_of, limit_request, serve_public}
use taxlien_gateway.Gateway.Gate.{IsTurnedAway, IsHandled, serve_public_cases}
use taxlien_gateway.Gateway.Flood.{Arrival, handled, visits_of, handled-le-burst}

abbrev settings : Settings
settings = record { internal_api_token = "s3cret"; firebase_project_id = none }

abbrev no_claims : String → Option Claims
no_claims t = none

abbrev req : Request
req = record {
  method = "GET";
  path = "/v1/properties";
  headers = empty_dict;
  query_params = [];
  client_host = some "10.0.0.1";
}

abbrev world : World Store
world = record { redis = empty_store; breakers = empty_dict; registry = no_metrics }

abbrev handler : Handler (World Store)
handler auth r w = (http_exception 502 "Upstream service error", w)

serve_public_cases_example :
    IsTurnedAway memory settings no_claims 5 req handler world
    ⊎ ((auth : AuthContext) × IsHandled memory settings no_claims 5 req handler world auth)
serve_public_cases_example = serve_public_cases memory settings no_claims 5 req handler world

abbrev arrival : ℕ → Arrival (World Store)
arrival t = record { now = t; req = req; handler = handler; before = λ w. w }

handled-le-burst_example :
    handled memory settings no_claims (arrival 100 ∷ arrival 300 ∷ []) world * token
    ≤ (limit_of "anonymous").burst * token + (300 - 100) * (limit_of "anonymous").rate
unfolding authenticate check_worker check_bearer check_internal identifier_of visits_of visit
    serve_public limit_request is_rate_limited check token_bucket new_tokens limit_of
handled-le-burst_example =
    handled-le-burst memory settings no_claims no_auth "10.0.0.1" 100
      (arrival 100 ∷ arrival 300 ∷ []) world ((refl, refl), ((refl, refl), tt))
      (omega arith, untouched (λ f. refl), (omega arith, untouched (λ f. refl), tt))
