-- ===== src/Api/Refusals.antt =====
-- legacy/app/api/v1: requests that the public handlers do not answer with a response of their own.
use taxlien_gateway.Prelude.{
  ◌≡◌, ◌≢◌, ◌⊎◌, inl, inr, refl, false, Option, some, String, eq_iff, arith,
}
use taxlien_gateway.Http.{Request, HttpResponse, Outcome, respond, http_exception}
use taxlien_gateway.Models.Auth.{UserTier, member, AuthContext}
use taxlien_gateway.Redis.{Redis}
use taxlien_gateway.Breaker.{can_execute}
use taxlien_gateway.ServiceClient.{
  Result, returned, circuit_is_open, raised_request_error, raised_timeout, raised_other, breaker_of,
  request,
}
use taxlien_gateway.Usage.Unmetered.{unlisted_feature_is_refused}
use taxlien_gateway.Api.{
  World, Env, caller, call_upstream, relay, enforce_tier, search_properties, search_by_address,
  search_by_owner, get_top_list, get_predictions_batch,
}

search-unlisted :
    ((◌≢◌ {A = String} "search" "daily_search") × (◌≢◌ {A = String} "search" "daily_details"))
search-unlisted = (
  ground (arith, eq_iff "search" "daily_search"),
  ground (arith, eq_iff "search" "daily_details"),
)

module _ (redis : Redis) (env : Env (Redis.State redis)) (auth : AuthContext) (req : Request) where
  open redis use {State}

  enforce_tier-unlisted :
      (feature user_id : String) (w : World State)
      → caller auth req ≡ some user_id
      → feature ≢ "daily_search"
      → feature ≢ "daily_details"
      → enforce_tier redis env feature auth req w
        ≡ (some (http_exception 403 "TIER_LIMIT_EXCEEDED"), w)
  unfolding enforce_tier
  enforce_tier-unlisted feature user_id w e n m = rw (
    enforce_tier,
    e,
    unlisted_feature_is_refused redis env.day user_id auth.tier feature w.redis n m,
  )

  -- The address search, the owner search, the top lists and the batch of predictions refuse every
  -- caller that has a user id or a client host with status 403, whatever the tier, and change
  -- nothing: TIER_LIMITS lists none of the features "search", "top_lists" and "ai_analysis" that
  -- they ask for.
  pub four_handlers_always_refuse :
      (user_id strategy : String) (body : Option String) (w : World State)
      → caller auth req ≡ some user_id
      → let refused : Outcome × World State = (http_exception 403 "TIER_LIMIT_EXCEEDED", w) in
        (search_by_address redis env auth req w ≡ refused)
        × (search_by_owner redis env auth req w ≡ refused)
        × (get_top_list redis env strategy auth req w ≡ refused)
        × (get_predictions_batch redis env body auth req w ≡ refused)
  unfolding search_by_address search_by_owner get_top_list get_predictions_batch
  four_handlers_always_refuse user_id strategy body w e =
      let (a, b) = search-unlisted in
      (
        rw (enforce_tier-unlisted "search" user_id w e a b),
        rw (enforce_tier-unlisted "search" user_id w e a b),
        rw (
            enforce_tier-unlisted "top_lists" user_id w e
              (ground (arith, eq_iff "top_lists" "daily_search"))
              (ground (arith, eq_iff "top_lists" "daily_details"))),
        rw (
            enforce_tier-unlisted "ai_analysis" user_id w e
              (ground (arith, eq_iff "ai_analysis" "daily_search"))
              (ground (arith, eq_iff "ai_analysis" "daily_details"))),
      )

  relay_cases :
      (detail : String) (r : Result × World State)
      → ((x : HttpResponse) × ((relay redis env detail r).0 ≡ respond x))
        ⊎ ((relay redis env detail r).0 ≡ http_exception 502 detail)
  relay_cases detail (returned x, w) = inl (_, refl)
  relay_cases detail (circuit_is_open, w) = inr refl
  relay_cases detail (raised_request_error, w) = inr refl
  relay_cases detail (raised_timeout, w) = inr refl
  relay_cases detail (raised_other, w) = inr refl

  -- For a tier of the enumeration the property search answers with the upstream response, or with
  -- status 502 whatever upstream does: it raises nothing else.
  pub search_properties_answers :
      (t : UserTier) (w : World State)
      → auth.tier ≡ member t
      → ((x : HttpResponse) × ((search_properties redis env auth req w).0 ≡ respond x))
        ⊎ ((search_properties redis env auth req w).0 ≡ http_exception 502 "Upstream service error")
  unfolding search_properties
  search_properties_answers t w e = rw e (relay_cases _ _)

  -- While the breaker of the parser service refuses, the property search of a caller with a tier of
  -- the enumeration answers with status 502 and leaves Redis as it is.
  pub open_circuit_is_502 :
      (t : UserTier) (w : World State)
      → auth.tier ≡ member t
      → (can_execute env.started (breaker_of w.breakers "parser")).0 ≡ false
      → ((search_properties redis env auth req w).0 ≡ http_exception 502 "Upstream service error")
        × ((search_properties redis env auth req w).1.redis ≡ w.redis)
  unfolding search_properties call_upstream request
  open_circuit_is_502 t w e no_go = (rw (e, no_go), rw (e, no_go))
