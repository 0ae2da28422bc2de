-- ===== src/Api.antt =====
-- legacy/app/api/v1 and legacy/app/core/authorization.py: the handlers of the public API.
-- A handler runs on the world that the tasks of the process share: Redis, the breakers of the
-- upstream services and the metrics. What upstream services answer, and what other tasks do to the
-- world while a handler waits for one, are in `Env`; between its other steps a handler is taken to
-- run alone.
pub mod Cache
pub mod Refusals
pub mod Reports
mod Tests
use taxlien_gateway.Prelude.{
  ℕ, ◌==◌, Bool, true, false, Option, none, some, List, [], ◌∷◌, ◌++◌, String, str_of, ◌<>◌, truthy,
  or_else, put, if◌then◌else◌,
}
use taxlien_gateway.Http.{Request, HttpResponse, Outcome, respond, http_exception, crash}
use taxlien_gateway.Models.Auth.{Tier, tier_value, AuthContext}
use taxlien_gateway.Redis.{Value, number, text, Redis}
use taxlien_gateway.Breaker.{can_execute}
use taxlien_gateway.Metrics.{Registry}
use taxlien_gateway.ServiceClient.{
  Breakers, ServiceClient, Pairs, Call, default_timeout, Response, Reply, Result, returned,
  circuit_is_open, raised_request_error, raised_timeout, raised_other, breaker_of, request,
}
use taxlien_gateway.Usage.{check_and_increment, get_user_usage}

pub record World (S : Type 0) : Type 0 where
  pub redis : S
  pub breakers : Breakers
  pub registry : Registry

pub record Env (S : Type 0) : Type 0 where
  pub day : String
  pub started : ℕ
  pub ended : ℕ
  pub meanwhile : World S → World S
  pub send : ServiceClient → Call → Reply
  pub parser_url : String
  pub ml_url : String

-- The value of `get_usage`.
pub record UsageReport : Type 0 where
  pub user_id : String
  pub tier : Tier
  pub usage : List (String × ℕ)

abbrev pub text_of : Option Value → Option String
text_of none = none
text_of (some (number n)) = some (str_of n)
text_of (some (text s)) = some s

abbrev pub str_or_empty : Option String → String
str_or_empty none = ""
str_or_empty (some s) = s

-- "X-User-ID" and "X-User-Tier"
abbrev pub user_headers : AuthContext → String → Pairs
user_headers auth tier =
    ("X-User-ID", or_else auth.user_id "anonymous") ∷ ("X-User-Tier", tier) ∷ []

abbrev pub get_call : String → Option Pairs → Pairs → Call
get_call path params headers = record {
  method = "GET";
  path = path;
  params = params;
  json = none;
  headers = some headers;
  timeout = default_timeout;
}

-- `auth.user_id or request.client.host`; `none` is the AttributeError of a missing client.
abbrev pub caller : AuthContext → Request → Option String
caller auth req = if truthy auth.user_id then auth.user_id else req.client_host

abbrev pub cache_key : String → String → String
cache_key parcel_id tier = "cache:prop:" <> parcel_id <> ":" <> tier

abbrev pub response_of : Response → Pairs → HttpResponse
response_of r headers = record {
  status_code = r.status_code;
  content = r.content;
  media_type = r.media_type;
  headers = headers;
}

abbrev pub hit : String → HttpResponse
hit content = record {
  status_code = 200;
  content = content;
  media_type = some "application/json";
  headers = ("X-Cache", "HIT") ∷ [];
}

module _ (redis : Redis) (env : Env (Redis.State redis)) where
  open redis use {State, get, setex}

  abbrev pub W : Type 0
  W = World State

  abbrev pub parser_client : ServiceClient
  parser_client = record { base_url = env.parser_url; service_name = "parser" }

  abbrev pub ml_client : ServiceClient
  ml_client = record { base_url = env.ml_url; service_name = "ml" }

  -- `ServiceClient.request` in the world: other tasks run while it waits, if it is let through.
  unfoldable pub call_upstream : ServiceClient → Call → W → Result × W
  call_upstream client call w =
      let name = client.service_name in
      let others = λ (b : Breakers). env.meanwhile (record w { breakers = b }) in
      let (ok, asked) = can_execute env.started (breaker_of w.breakers name) in
      let (result, breakers) =
        request env.started env.ended (λ b. (others b).breakers) env.send client call w.breakers in
      (
        result,
        record {
          redis = if ok then (others (put w.breakers name asked)).redis else w.redis;
          breakers = breakers;
          registry = if ok then (others (put w.breakers name asked)).registry else w.registry;
        },
      )

  -- legacy/app/core/authorization.py: `none` lets the handler go on.
  unfoldable pub enforce_tier : String → AuthContext → Request → W → Option Outcome × W
  enforce_tier feature auth req w = elim (caller auth req) [
    | none ↦ (some crash, w)
    | some user_id ↦
        let (allowed, s) = check_and_increment redis env.day user_id auth.tier feature w.redis in
        (
          if allowed then none else some (http_exception 403 "TIER_LIMIT_EXCEEDED"),
          record w { redis = s },
        )
  ]

  -- The end of every handler but that of one property: the upstream response, or 502 for whatever
  -- `request` raises.
  abbrev pub relay : String → Result × W → Outcome × W
  relay detail r = elim r.0 [
    | returned x ↦ (respond (response_of x []), r.1)
    | _ ↦ (http_exception 502 detail, r.1)
  ]

  -- What follows `auth.tier.value`, which raises for a tier that is a plain text.
  abbrev pub with_tier : AuthContext → W → (String → Outcome × W) → Outcome × W
  with_tier auth w k = elim (tier_value auth.tier) [ none ↦ (crash, w) | some tier ↦ k tier ]

  -- What follows `Depends(enforce_tier(feature))`.
  abbrev pub after_check : Option Outcome × W → (W → Outcome × W) → Outcome × W
  after_check r k = elim r.0 [ none ↦ k r.1 | some o ↦ (o, r.1) ]

  -- A miss: the response is kept for an hour if its status is 200.
  unfoldable pub store_response : String → Result × W → Outcome × W
  store_response key r = elim r.0 [
    | returned x ↦
        let kept = record r.1 { redis = setex key 3600 x.content r.1.redis } in
        (
          respond (response_of x (("X-Cache", "MISS") ∷ [])),
          if x.status_code == 200 then kept else r.1,
        )
    | _ ↦ (http_exception 502 "Upstream service error", r.1)
  ]

  abbrev pub property_call : String → String → AuthContext → Request → Call
  property_call parcel_id tier auth req =
      get_call ("/api/v1/properties/" <> parcel_id) none
        (user_headers auth tier ++ ("X-Request-ID", str_or_empty (req.headers "X-Request-ID")) ∷ [])

  -- `get_property` after the check
  unfoldable pub find_property : String → AuthContext → Request → W → Outcome × W
  find_property parcel_id auth req w = with_tier auth w λ tier.
      let key = cache_key parcel_id tier in
      let cached = text_of (get w.redis key) in
      let missed =
        store_response key
          (call_upstream parser_client (property_call parcel_id tier auth req) w) in
      if truthy cached then (respond (hit (str_or_empty cached)), w) else missed

  unfoldable pub get_property : String → AuthContext → Request → W → Outcome × W
  get_property parcel_id auth req w =
      after_check (enforce_tier "daily_details" auth req w) (find_property parcel_id auth req)

  unfoldable pub search_properties : AuthContext → Request → W → Outcome × W
  search_properties auth req w = with_tier auth w λ tier. relay "Upstream service error" (
      call_upstream parser_client
        (get_call "/api/v1/properties" (some req.query_params) (user_headers auth tier)) w)

  unfoldable pub search_by_address : AuthContext → Request → W → Outcome × W
  search_by_address auth req w = after_check (enforce_tier "search" auth req w) λ w'.
      with_tier auth w' λ tier. relay "Upstream service error" (
        call_upstream parser_client
          (get_call "/api/v1/search/address" (some req.query_params) (user_headers auth tier)) w')

  unfoldable pub search_by_owner : AuthContext → Request → W → Outcome × W
  search_by_owner auth req w = after_check (enforce_tier "search" auth req w) λ w'.
      with_tier auth w' λ tier. relay "Upstream service error" (
        call_upstream parser_client
          (get_call "/api/v1/search/owner" (some req.query_params) (user_headers auth tier)) w')

  unfoldable pub get_top_list : String → AuthContext → Request → W → Outcome × W
  get_top_list strategy auth req w = after_check (enforce_tier "top_lists" auth req w) λ w'.
      with_tier auth w' λ tier. relay "Upstream ML service error" (
        call_upstream ml_client
          (get_call ("/api/v1/top-lists/" <> strategy) (some req.query_params)
            (user_headers auth tier))
          w')

  abbrev pub batch_call : String → Pairs → Call
  batch_call body headers = record {
    method = "POST";
    path = "/api/v1/predict/batch";
    params = none;
    json = some body;
    headers = some headers;
    timeout = default_timeout;
  }

  -- The body is missing if it is no JSON.
  unfoldable pub get_predictions_batch : Option String → AuthContext → Request → W → Outcome × W
  get_predictions_batch body auth req w = after_check (enforce_tier "ai_analysis" auth req w) λ w'.
      elim body [
        | none ↦ (http_exception 400 "Invalid JSON body", w')
        | some json ↦ with_tier auth w' λ tier. relay "Upstream ML service error" (
            call_upstream ml_client
              (batch_call json
                (user_headers auth tier ++ ("Content-Type", "application/json") ∷ []))
              w')
      ]

  -- `none` is an exception.
  unfoldable pub get_usage : AuthContext → W → Option UsageReport
  get_usage auth w =
      let user_id = or_else auth.user_id "anonymous" in
      elim (get_user_usage redis env.day user_id w.redis) [
        | none ↦ none
        | some usage ↦ some (record { user_id = user_id; tier = auth.tier; usage = usage })
      ]
