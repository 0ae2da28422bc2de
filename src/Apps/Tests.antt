-- ===== src/Apps/Tests.antt =====
-- The theorems on the applications at concrete requests, with a matching that knows only templates
-- without parameters.
use taxlien_gateway.Prelude.{
  ℕ, ◌≡◌, ◌⊎◌, inl, inr, refl, Bool, true, false, ◌&&◌, Option, none, some, [], ◌∷◌, String, str_eq,
  eq_iff, starts_with, starts_with_refl, Bool-cases, empty_dict, arith,
}
use taxlien_gateway.Http.{Request, http_exception, crash}
use taxlien_gateway.Metrics.{no_metrics, status_of}
use taxlien_gateway.Redis.Memory.{Store, memory, empty_store}
use taxlien_gateway.Auth.{Settings, Claims, bearer_token}
use taxlien_gateway.Models.Auth.{AuthContext}
use taxlien_gateway.Api.{World, Env}
use taxlien_gateway.ServiceClient.{request_error}
use taxlien_gateway.Apps.Public.{Router, dispatch}
use taxlien_gateway.Apps.Searches.{counted, searches_are_never_answered}
use taxlien_gateway.Gateway.{Handler, unauthorized, serve_public}
use taxlien_gateway.Gateway.Gate.{IsTurnedAway, IsHandled}
use taxlien_gateway.Apps.{
  Cors, serve, create_public_app, create_parcel_internal_app, create_party_internal_app,
}
use taxlien_gateway.Apps.Routes.{
  Template, fixed, parameter, start_of, Matching, find_route, parcel_get_work, search_by_owner,
  parcel_health, party_health,
}
use taxlien_gateway.Apps.Stack.{behind_cors}
use taxlien_gateway.Apps.Counting.{IsCountedOnce, metrics_count_each_answer}
use taxlien_gateway.Apps.Access.{internal_endpoints_need_credential}
use taxlien_gateway.Apps.Unrouted.{tested_paths_are_unrouted}

abbrev is_text : Template → Bool
is_text [] = true
is_text (fixed s ∷ rest) = is_text rest
is_text (parameter name ∷ rest) = false

abbrev matches_text : Template → String → Bool
matches_text t path = is_text t && str_eq path (start_of t)

matches_text-start :
    (t : Template) (path : String)
    → matches_text t path ≡ true
    → starts_with path (start_of t) ≡ true
matches_text-start t path h = elim (Bool-cases (is_text t)) [
  | inl text ↦
      let same = (eq_iff path (start_of t)).0 (rw text at h) in
      rw same (starts_with_refl (start_of t))
  | inr other ↦ absurd (ground (arith, rw other at h))
]

abbrev exact : Matching
exact = record { matches = matches_text; matches-start = matches_text-start }

abbrev settings : Settings
settings = record { internal_api_token = "s3cret"; firebase_project_id = none }

abbrev no_claims : String → Option Claims
no_claims t = none

abbrev no_cors : Cors
no_cors = record { preflight = λ req. none; allow = λ req o. o }

abbrev req_of : String → Request
req_of path = record {
  method = "GET";
  path = path;
  headers = empty_dict;
  query_params = [];
  client_host = some "10.0.0.1";
}

abbrev world : World Store
world = record { redis = empty_store; breakers = empty_dict; registry = no_metrics }

abbrev unavailable : Handler (World Store)
unavailable auth r w = (http_exception 502 "Upstream service error", w)

metrics_count_each_answer_example :
    let within = behind_cors memory settings no_claims no_cors 5 7 unavailable in
    let req = req_of "/v1/usage" in
    let plain = serve_public memory settings no_claims 5 req within world in
    let r = serve memory settings no_claims no_cors 5 7 create_public_app req unavailable world in
    ((r ≡ plain)
      × (IsTurnedAway memory settings no_claims 5 req within world ⊎ (plain.0.outcome ≡ crash)))
    ⊎ ((auth : AuthContext) × IsHandled memory settings no_claims 5 req within world auth
        × (status : ℕ) × (status_of plain.0.outcome ≡ some status)
        × IsCountedOnce 7 auth req status plain.1.registry r.1.registry
        × (r ≡ (plain.0, record plain.1 { registry = r.1.registry })))
metrics_count_each_answer_example =
    metrics_count_each_answer memory settings no_claims no_cors 5 7 (req_of "/v1/usage") unavailable
      world

work_is_found :
    find_route exact create_parcel_internal_app.routes (req_of "/internal/parcel/work")
    ≡ some parcel_get_work
unfolding find_route create_parcel_internal_app
work_is_found = refl

internal_endpoints_need_credential_example :
    let req = req_of "/internal/parcel/work" in
    ((parcel_get_work ≡ parcel_health) ⊎ (parcel_get_work ≡ party_health))
    ⊎ ((message : String) × (serve memory settings no_claims no_cors 5 7 create_parcel_internal_app
            req unavailable world
          ≡ (unauthorized message, world)))
    ⊎ (req.headers "X-Worker-Token" ≡ some "s3cret")
    ⊎ ((claims : Claims) × (no_claims (bearer_token (req.headers "Authorization")) ≡ some claims)
        × (claims.tier ≡ some "internal"))
internal_endpoints_need_credential_example =
    internal_endpoints_need_credential exact memory settings no_claims no_cors 5 7
      create_parcel_internal_app (req_of "/internal/parcel/work") parcel_get_work unavailable world
      (inl refl) work_is_found

tested_paths_are_unrouted_example :
    (find_route exact create_public_app.routes (req_of "/metrics") ≡ none)
    × (find_route exact create_parcel_internal_app.routes (req_of "/metrics") ≡ none)
    × (find_route exact create_party_internal_app.routes (req_of "/metrics") ≡ none)
tested_paths_are_unrouted_example = tested_paths_are_unrouted exact (req_of "/metrics") (inl refl)

abbrev env : Env Store
env = record {
  day = "2026-01-31";
  started = 8;
  ended = 9;
  meanwhile = λ w. w;
  send = λ client call. request_error;
  parser_url = "http://parser";
  ml_url = "http://ml";
}

abbrev router : Router
router = record {
  matching = exact;
  parameter_of = λ req. "";
  unrouted = λ req. http_exception 404 "Not Found";
  json_of = λ req. none;
  report_text = λ report. "{}";
}

search_is_found :
    find_route exact create_public_app.routes (req_of "/v1/search/owner") ≡ some search_by_owner
unfolding find_route create_public_app
search_is_found = refl

searches_are_never_answered_example :
    let req = req_of "/v1/search/owner" in
    let r =
      serve memory settings no_claims no_cors 5 7 create_public_app req
        (dispatch memory env router)
        world in
    (r.1.breakers ≡ world.breakers)
    × ((IsTurnedAway memory settings no_claims 5 req
            (counted memory env router settings no_claims no_cors 5 7)
            world
          × ((status_of r.0.outcome ≡ some 401) ⊎ (status_of r.0.outcome ≡ some 429)))
        ⊎ (status_of r.0.outcome ≡ some 403))
searches_are_never_answered_example =
    searches_are_never_answered memory env router settings no_claims no_cors 5 7
      (req_of "/v1/search/owner") search_by_owner "10.0.0.1" world (inr (inl refl)) search_is_found
      refl refl (λ q o. refl)
