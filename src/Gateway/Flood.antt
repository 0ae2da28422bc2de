-- ===== src/Gateway/Flood.antt =====
-- legacy/app/core/ratelimit.py: how many requests of one identity reach a handler.
use taxlien_gateway.Prelude.{
  ℕ, suc, ◌+◌, ◌-◌, ◌*◌, ◌≤◌, ◌≡◌, refl, ap, sym, ◌∙◌, Bool, true, false, Option, List, [], ◌∷◌,
  String, All, Bool-cases, inl, inr, if◌then◌else◌,
}
use taxlien_gateway.Http.{Request, Outcome, respond, http_exception, crash}
use taxlien_gateway.Models.Auth.{AuthContext, tier_text}
use taxlien_gateway.Redis.{Redis}
use taxlien_gateway.RateLimit.{token, is_rate_limited, limit_of}
use taxlien_gateway.RateLimit.Bounds.{Visit, visit, visits, InOrder, last_visit, visits-le-burst}
use taxlien_gateway.Auth.{Settings, Claims, pass, authenticate}
use taxlien_gateway.Api.{World}
use taxlien_gateway.Gateway.{Handler, identifier_of, limit_request, serve_public}

abbrev is_crash : Outcome → Bool
is_crash crash = true
is_crash (respond r) = false
is_crash (http_exception s d) = false

-- A request with its time and its handler, and what happens to the world before it.
pub record Arrival (W : Type 0) : Type 0 where
  pub now : ℕ
  pub req : Request
  pub handler : Handler W
  pub before : W → W

module _ (redis : Redis) (settings : Settings) (verify_id_token : String → Option Claims) where
  open redis use {State}

  abbrev serve : Arrival (World State) → World State → World State
  serve a w = (serve_public redis settings verify_id_token a.now a.req a.handler (a.before w)).1

  -- Whether a handler is reached: one in the place of the request's own, which raises, is heard.
  abbrev reaches : Arrival (World State) → World State → Bool
  reaches a w =
      is_crash
        (serve_public redis settings verify_id_token a.now a.req (λ auth req w'. (crash, w'))
          (a.before w)).0.outcome

  reaches_lem :
      (auth : AuthContext) (a : Arrival (World State)) (w : World State)
      → authenticate settings verify_id_token a.req ≡ pass auth
      → reaches a w
        ≡ (is_rate_limited redis a.now
            (identifier_of auth a.req)
            (tier_text auth.tier)
            (a.before w).redis).0.0
  unfolding serve_public limit_request
  reaches_lem auth a w from =
      elim (Bool-cases
        (is_rate_limited redis a.now (identifier_of auth a.req) (tier_text auth.tier)
          (a.before w).redis).0.0) [
            | inl allowed ↦ rw (serve_public, from, limit_request, allowed)
            | inr refused ↦ rw (serve_public, from, limit_request, refused)
          ]

  -- How many requests of a sequence reach their handlers.
  unfoldable pub handled : List (Arrival (World State)) → World State → ℕ
  handled [] w = 0
  handled (a ∷ arrivals) w =
      let rest = handled arrivals (serve a w) in if reaches a w then suc rest else rest

  -- The visits that the requests pay to the bucket, each with the store that it finds.
  unfoldable pub visits_of : List (Arrival (World State)) → World State → List (Visit State)
  visits_of [] w = []
  visits_of (a ∷ arrivals) w =
      record { now = a.now; between = λ s. (a.before w).redis } ∷ visits_of arrivals (serve a w)

  module _ (auth : AuthContext) (identifier : String) where
    -- The request is authenticated as the caller's.
    abbrev pub IsFrom : Arrival (World State) → Type 0
    IsFrom a =
        (authenticate settings verify_id_token a.req ≡ pass auth)
        × (identifier_of auth a.req ≡ identifier)

    handled-visits :
        (arrivals : List (Arrival (World State))) (w : World State) (s : State)
        → All IsFrom arrivals
        → handled arrivals w
          ≡ visits redis (tier_text auth.tier) identifier (visits_of arrivals w) s
    unfolding handled visits_of visits visit
    handled-visits [] w s ks = refl
    handled-visits (a ∷ arrivals) w s ((from, same), ks) =
        let ih =
          handled-visits arrivals (serve a w)
            (is_rate_limited redis a.now identifier (tier_text auth.tier) (a.before w).redis).1
            ks in
        let reached =
          reaches_lem auth a w from
          ∙ ap
              (λ (i : String).
                (is_rate_limited redis a.now i (tier_text auth.tier) (a.before w).redis).0.0)
              same in
        elim (Bool-cases (reaches a w)) [
          | inl allowed ↦ rw (handled, allowed, visits, visit, sym reached ∙ allowed) (ap suc ih)
          | inr refused ↦ rw (handled, refused, visits, visit, sym reached ∙ refused) ih
        ]

    -- However many requests of one caller arrive, and whatever their handlers and others do, as
    -- long as those leave the caller's bucket alone but for its expiry and times do not go back: the
    -- requests that reach a handler are no more than the tier's burst and what its rate gives
    -- between the start and the last of them.
    pub handled-le-burst :
        (t : ℕ) (arrivals : List (Arrival (World State))) (w : World State)
        → All IsFrom arrivals
        → InOrder redis (tier_text auth.tier) identifier t (visits_of arrivals w) w.redis
        → let limit = limit_of (tier_text auth.tier) in
          let end = last_visit redis (tier_text auth.tier) identifier t (visits_of arrivals w) in
          handled arrivals w * token ≤ limit.burst * token + (end - t) * limit.rate
    handled-le-burst t arrivals w ks o =
        rw (handled-visits arrivals w w.redis ks) (
          visits-le-burst redis (tier_text auth.tier) identifier t (visits_of arrivals w) w.redis o)
