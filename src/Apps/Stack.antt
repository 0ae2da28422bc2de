-- ===== src/Apps/Stack.antt =====
-- legacy/app/apps/public.py and legacy/app/core/metrics.py: what the public application's stack of
-- middleware comes to.
use taxlien_gateway.Prelude.{
  ℕ, ◌≡◌, inl, inr, refl, sym, ap, ◌∙◌, Bool-cases, Option, none, some, Option-cases, List, [], ◌∷◌,
  String,
}
use taxlien_gateway.Http.{Request, Outcome, respond, http_exception, crash}
use taxlien_gateway.Models.Auth.{AuthContext, tier_text}
use taxlien_gateway.Metrics.{record_request}
use taxlien_gateway.Redis.{Redis}
use taxlien_gateway.RateLimit.{is_rate_limited}
use taxlien_gateway.Auth.{Settings, Claims, pass, deny, authenticate}
use taxlien_gateway.Api.{World}
use taxlien_gateway.Gateway.{
  Handler, Answer, identifier_of, unauthorized, with_remaining, limit_request, serve_public,
}
use taxlien_gateway.Gateway.Gate.{Verdict-cases, serve_public-pass, serve_public-deny}
use taxlien_gateway.Apps.{
  Cors, Middleware, rate_limit, prometheus, cors, set_remaining, create_public_app, go_through,
  serve,
}

set_remaining_lem :
    (n : ℕ) (o : Outcome)
    → set_remaining n (record { outcome = o; remaining = none }) ≡ with_remaining n o
set_remaining_lem n (respond r) = refl
set_remaining_lem n (http_exception s d) = refl
set_remaining_lem n crash = refl

module _ (redis : Redis) (settings : Settings) (verify_id_token : String → Option Claims)
    (rules : Cors) (now duration : ℕ) where
  open redis use {State}

  -- A handler behind CORSMiddleware.
  abbrev pub behind_cors : Handler (World State) → Handler (World State)
  behind_cors handler auth req w =
      let (outcome, w') = handler auth req w in
      elim (rules.preflight req) [ some o ↦ (o, w) | none ↦ (rules.allow req outcome, w') ]

  abbrev recorded : AuthContext → Request → Outcome × World State → World State
  recorded auth req (outcome, w) = record w {
    registry = record_request duration (some auth) req outcome w.registry;
  }

  -- A handler behind PrometheusMiddleware.
  abbrev pub metered : Handler (World State) → Handler (World State)
  metered handler auth req w = ((handler auth req w).0, recorded auth req (handler auth req w))

  abbrev plain_answer : Outcome × World State → Answer × World State
  plain_answer (outcome, w) = (record { outcome = outcome; remaining = none }, w)

  metered_lem :
      (auth : AuthContext) (req : Request) (handler : Handler (World State)) (w : World State)
      → go_through redis settings verify_id_token rules now duration
          (prometheus ∷ cors ∷ [])
          (some auth)
          req
          handler
          w
        ≡ plain_answer (metered (behind_cors handler) auth req w)
  unfolding go_through
  metered_lem auth req handler w = elim (Option-cases (rules.preflight req)) [
    | inl passed ↦ rw (metered, behind_cors, passed) refl
    | inr (o, answered) ↦ rw (metered, behind_cors, answered) refl
  ]

  -- What RateLimitMiddleware makes of a stack within it that comes to a handler.
  limited_lem :
      (ms : List Middleware) (auth : AuthContext) (req : Request)
      (handler inner : Handler (World State)) (w : World State)
      → ((u : World State)
          → go_through redis settings verify_id_token rules now duration ms
              (some auth)
              req
              handler
              u
            ≡ plain_answer (inner auth req u))
      → go_through redis settings verify_id_token rules now duration
          (rate_limit ∷ ms)
          (some auth)
          req
          handler
          w
        ≡ limit_request redis settings verify_id_token now auth req inner w
  unfolding go_through limit_request
  limited_lem ms auth req handler inner w h =
      let r = is_rate_limited redis now (identifier_of auth req) (tier_text auth.tier) w.redis in
      let u = record w { redis = r.1 } in
      elim (Bool-cases r.0.0) [
        | inr refused ↦ rw (refused, limit_request) refl
        | inl allowed ↦
            rw (allowed, h u, limit_request)
              (ap (λ (a : Answer). (a, (inner auth req u).1))
                (set_remaining_lem r.0.1 (inner auth req u).0))
      ]

  pub auth_deny :
      (ms : List Middleware) (req : Request) (handler : Handler (World State)) (w : World State)
      (m : String)
      → authenticate settings verify_id_token req ≡ deny m
      → go_through redis settings verify_id_token rules now duration
          (Middleware.auth ∷ ms)
          none
          req
          handler
          w
        ≡ (unauthorized m, w)
  unfolding go_through
  auth_deny ms req handler w m denied = rw (go_through, denied)

  pub auth_pass :
      (ms : List Middleware) (req : Request) (handler : Handler (World State)) (w : World State)
      (c : AuthContext)
      → authenticate settings verify_id_token req ≡ pass c
      → go_through redis settings verify_id_token rules now duration
          (Middleware.auth ∷ ms)
          none
          req
          handler
          w
        ≡ go_through redis settings verify_id_token rules now duration ms (some c) req handler w
  unfolding go_through
  auth_pass ms req handler w c passed = rw (go_through, passed)

  -- The stack of the public application is AuthMiddleware, RateLimitMiddleware,
  -- PrometheusMiddleware and CORSMiddleware, in this order: what it does with a request is what
  -- `serve_public` does with a handler behind the latter two.
  pub public_app_lem :
      (req : Request) (handler : Handler (World State)) (w : World State)
      → serve redis settings verify_id_token rules now duration create_public_app req handler w
        ≡ serve_public redis settings verify_id_token now req (metered (behind_cors handler)) w
  unfolding serve create_public_app
  public_app_lem req handler w = elim (Verdict-cases (authenticate settings verify_id_token req)) [
    | inr (m, denied) ↦
        auth_deny (rate_limit ∷ prometheus ∷ cors ∷ []) req handler w m denied
        ∙ sym (
            serve_public-deny redis settings verify_id_token now req (metered (behind_cors handler))
              w m denied)
    | inl (auth, passed) ↦
        auth_pass (rate_limit ∷ prometheus ∷ cors ∷ []) req handler w auth passed
        ∙ limited_lem (prometheus ∷ cors ∷ []) auth req handler (metered (behind_cors handler)) w
            (metered_lem auth req handler)
        ∙ sym (
            serve_public-pass redis settings verify_id_token now req (metered (behind_cors handler))
              w auth passed)
  ]
