-- ===== src/Apps/Searches.antt =====
-- legacy/app/apps/public.py with legacy/app/api/v1: what a search, a top list or a batch of
-- predictions through the public application comes to.
use taxlien_gateway.Prelude.{
  ◌≡◌, ◌⊎◌, inl, inr, refl, ap, ◌∙◌, ℕ, Option, none, some, Option-cases, String, arith,
}
use taxlien_gateway.Http.{Request, Outcome, http_exception}
use taxlien_gateway.Models.Auth.{AuthContext, tier_text}
use taxlien_gateway.Metrics.{status_of}
use taxlien_gateway.Redis.{Redis}
use taxlien_gateway.RateLimit.{is_rate_limited}
use taxlien_gateway.Auth.{Settings, Claims}
use taxlien_gateway.Api.{World, Env, caller}
use taxlien_gateway.Api.Refusals.{four_handlers_always_refuse}
use taxlien_gateway.Gateway.{Handler, Answer, identifier_of}
use taxlien_gateway.Gateway.Gate.{IsTurnedAway, serve_public_cases}
use taxlien_gateway.Apps.Routes.{Endpoint, find_route}
use taxlien_gateway.Apps.{Cors, create_public_app, serve}
use taxlien_gateway.Apps.Stack.{behind_cors, metered, public_app_lem}
use taxlien_gateway.Apps.Counting.{with_remaining-outcome}
use taxlien_gateway.Apps.Public.{Router, handler_of, dispatch}

-- The endpoints whose feature has no limit in TIER_LIMITS.
abbrev pub IsUnlisted : Endpoint → Type 0
IsUnlisted e =
    (e ≡ Endpoint.search_by_address)
    ⊎ (e ≡ Endpoint.search_by_owner)
    ⊎ (e ≡ Endpoint.get_top_list)
    ⊎ (e ≡ Endpoint.get_predictions_batch)

caller-known :
    (auth : AuthContext) (req : Request) (host : String)
    → req.client_host ≡ some host
    → (user_id : String) × (caller auth req ≡ some user_id)
caller-known auth req host e = elim (Option-cases (caller auth req)) [
  | inr known ↦ known
  | inl unknown ↦ ground (arith, unknown, e)
]

module _ (redis : Redis) (env : Env (Redis.State redis)) (router : Router) where
  open redis use {State}

  abbrev status : Answer → Option ℕ
  status answer = status_of answer.outcome

  abbrev refused : World State → Outcome × World State
  refused w = (http_exception 403 "TIER_LIMIT_EXCEEDED", w)

  handler_of-refused :
      (e : Endpoint) (auth : AuthContext) (req : Request) (host : String) (w : World State)
      → IsUnlisted e
      → req.client_host ≡ some host
      → handler_of redis env router e auth req w ≡ refused w
  handler_of-refused e auth req host w i from =
      let (user_id, known) = caller-known auth req host from in
      let (address, owner, list, batch) =
        four_handlers_always_refuse redis env auth req user_id (router.parameter_of req)
          (router.json_of req) w known in
      elim i [
        | inl a ↦ rw a address
        | inr (inl b) ↦ rw b owner
        | inr (inr (inl c)) ↦ rw c list
        | inr (inr (inr d)) ↦ rw d batch
      ]

  dispatch-refused :
      (e : Endpoint) (auth : AuthContext) (req : Request) (host : String) (w : World State)
      → IsUnlisted e
      → find_route router.matching create_public_app.routes req ≡ some e
      → req.client_host ≡ some host
      → dispatch redis env router auth req w ≡ refused w
  unfolding dispatch
  dispatch-refused e auth req host w i found from =
      rw (dispatch, found) (handler_of-refused e auth req host w i from)

  module _ (settings : Settings) (verify_id_token : String → Option Claims) (rules : Cors)
      (now duration : ℕ) where
    abbrev within : Handler (World State)
    within =
        behind_cors redis settings verify_id_token rules now duration (dispatch redis env router)

    abbrev pub counted : Handler (World State)
    counted = metered redis settings verify_id_token rules now duration within

    within-refused :
        (e : Endpoint) (auth : AuthContext) (req : Request) (host : String) (w : World State)
        → IsUnlisted e
        → find_route router.matching create_public_app.routes req ≡ some e
        → req.client_host ≡ some host
        → rules.preflight req ≡ none
        → within auth req w ≡ (rules.allow req (refused w).0, w)
    within-refused e auth req host w i found from asked =
        rw (within, behind_cors, asked, dispatch-refused e auth req host w i found from) refl

    -- A request that has a client host, that the routes of the public application lead to the address
    -- search, the owner search, the top lists or the batch of predictions, and that CORSMiddleware
    -- does not answer itself, is turned away with status 401 or 429 or answered with status 403,
    -- whatever its caller's tier; the breakers of the upstream services stay as they are. This is if
    -- CORSMiddleware changes no status of what it lets pass.
    pub searches_are_never_answered :
        (req : Request) (e : Endpoint) (host : String) (w : World State)
        → IsUnlisted e
        → find_route router.matching create_public_app.routes req ≡ some e
        → req.client_host ≡ some host
        → rules.preflight req ≡ none
        → ((q : Request) (o : Outcome) → status_of (rules.allow q o) ≡ status_of o)
        → let r =
            serve redis settings verify_id_token rules now duration create_public_app req
              (dispatch redis env router)
              w in
          (r.1.breakers ≡ w.breakers)
          × ((IsTurnedAway redis settings verify_id_token now req counted w
                × ((status_of r.0.outcome ≡ some 401) ⊎ (status_of r.0.outcome ≡ some 429)))
              ⊎ (status_of r.0.outcome ≡ some 403))
    searches_are_never_answered req e host w i found from asked keeps =
        let same =
          public_app_lem redis settings verify_id_token rules now duration req
            (dispatch redis env router) w in
        elim (serve_public_cases redis settings verify_id_token now req counted w) [
          | inl away ↦ (
            ap (λ r. r.1.breakers) same ∙ ap (λ (u : World State). u.breakers) away.unchanged,
            inl (
              away,
              elim away.refusal [
                | inl (m, _, e) ↦ inl (ap (λ r. status_of r.0.outcome) same ∙ ap status e)
                | inr (_, n, _, _, e) ↦ inr (ap (λ r. status_of r.0.outcome) same ∙ ap status e)
              ],
            ),
          )
          | inr (auth, h) ↦
              let r =
                is_rate_limited redis now (identifier_of auth req) (tier_text auth.tier) w.redis in
              let u : World State = record w { redis = r.1 } in
              let inner = within-refused e auth req host u i found from asked in
              let whole = same ∙ h.answered in
              (
                ap (λ r. r.1.breakers) whole ∙ ap (λ x. x.1.breakers) inner,
                inr (
                    ap (λ r. status_of r.0.outcome) whole
                    ∙ ap status_of (with_remaining-outcome r.0.1 (within auth req u).0)
                    ∙ ap (λ x. status_of x.0) inner
                    ∙ keeps req (refused w).0),
              )
        ]
