-- ===== src/Gateway/Gate.antt =====
-- legacy/app/apps/public.py: what a request can come to.
use taxlien_gateway.Prelude.{
  ℕ, ◌+◌, ◌≤◌, ◌<◌, ◌≡◌, ◌⊎◌, inl, inr, refl, ap, sym, ◌∙◌, true, false, Option, String, Bool-cases,
  leb, leb→le, not-leb→lt,
}
use taxlien_gateway.Http.{Request}
use taxlien_gateway.Models.Auth.{AuthContext, tier_text}
use taxlien_gateway.Redis.{Redis}
use taxlien_gateway.RateLimit.{token, is_rate_limited}
use taxlien_gateway.RateLimit.Bounds.{Visit, room, visit, visit-allowed, visit-refused}
use taxlien_gateway.Auth.{Settings, Claims, Verdict, pass, deny, authenticate}
use taxlien_gateway.Api.{World}
use taxlien_gateway.Gateway.{
  Handler, Answer, identifier_of, unauthorized, too_many, with_remaining, limit_request,
  serve_public,
}

module _ (redis : Redis) (now : ℕ) (identifier tier : String) where
  open redis use {State}

  -- A request is allowed exactly if the bucket holds a token, and then takes one; a refused request
  -- leaves the bucket as it is.
  is_rate_limited-cases :
      (s : State)
      → let r = is_rate_limited redis now identifier tier s in
        ((token ≤ room redis tier identifier now s)
          × (r.0.0 ≡ true)
          × (room redis tier identifier now r.1 + token ≡ room redis tier identifier now s))
        ⊎ ((room redis tier identifier now s < token) × (r.0.0 ≡ false) × (r.1 ≡ s))
  unfolding visit
  is_rate_limited-cases s =
      let v : Visit State = record { now = now; between = λ t. t } in
      elim (Bool-cases (leb token (room redis tier identifier now s))) [
        | inl full ↦
            let enough = leb→le token _ full in
            let (ok, left) = visit-allowed redis tier identifier v s enough in
            inl (enough, ok, left)
        | inr stop ↦
            let few = not-leb→lt token _ stop in
            let same = visit-refused redis tier identifier v s few in
            inr (few, ap (λ x. x.0) same, ap (λ x. x.1) same)
      ]

pub Verdict-cases :
    (v : Verdict) → ((c : AuthContext) × (v ≡ pass c)) ⊎ ((m : String) × (v ≡ deny m))
Verdict-cases (pass c) = inl (c, refl)
Verdict-cases (deny m) = inr (m, refl)

module _ (redis : Redis) (settings : Settings) (verify_id_token : String → Option Claims) where
  open redis use {State}

  pub serve_public-pass :
      (now : ℕ) (req : Request) (handler : Handler (World State)) (w : World State)
      (auth : AuthContext)
      → authenticate settings verify_id_token req ≡ pass auth
      → serve_public redis settings verify_id_token now req handler w
        ≡ limit_request redis settings verify_id_token now auth req handler w
  unfolding serve_public
  serve_public-pass now req handler w auth e = rw (serve_public, e)

  pub serve_public-deny :
      (now : ℕ) (req : Request) (handler : Handler (World State)) (w : World State) (m : String)
      → authenticate settings verify_id_token req ≡ deny m
      → serve_public redis settings verify_id_token now req handler w ≡ (unauthorized m, w)
  unfolding serve_public
  serve_public-deny now req handler w m e = rw (serve_public, e)

  pub limit_request-allowed :
      (now : ℕ) (req : Request) (handler : Handler (World State)) (w : World State)
      (auth : AuthContext)
      → let r = is_rate_limited redis now (identifier_of auth req) (tier_text auth.tier) w.redis in
        r.0.0 ≡ true
        → limit_request redis settings verify_id_token now auth req handler w ≡ (
          with_remaining r.0.1 (handler auth req (record w { redis = r.1 })).0,
          (handler auth req (record w { redis = r.1 })).1,
        )
  unfolding limit_request
  limit_request-allowed now req handler w auth e = rw (limit_request, e)

  limit_request-refused :
      (now : ℕ) (req : Request) (handler : Handler (World State)) (w : World State)
      (auth : AuthContext)
      → let r = is_rate_limited redis now (identifier_of auth req) (tier_text auth.tier) w.redis in
        r.0.0 ≡ false
        → limit_request redis settings verify_id_token now auth req handler w
          ≡ (too_many r.0.1, record w { redis = r.1 })
  unfolding limit_request
  limit_request-refused now req handler w auth e = rw (limit_request, e)

  -- The request has no context, or its bucket holds no token.
  abbrev pub Refusal : ℕ → Request → World State → Answer → Type 0
  Refusal now req w answer =
      ((m : String) × (authenticate settings verify_id_token req ≡ deny m)
        × (answer ≡ unauthorized m))
      ⊎ ((auth : AuthContext) × (n : ℕ) × (authenticate settings verify_id_token req ≡ pass auth)
          × (room redis (tier_text auth.tier) (identifier_of auth req) now w.redis < token)
          × (answer ≡ too_many n))

  -- The answer does not come from a handler, and nothing changes.
  pub record IsTurnedAway (now : ℕ) (req : Request) (handler : Handler (World State))
      (w : World State) : Type 0 where
    pub unchanged : (serve_public redis settings verify_id_token now req handler w).1 ≡ w
    pub unheard :
        (other : Handler (World State))
        → serve_public redis settings verify_id_token now req other w
          ≡ serve_public redis settings verify_id_token now req handler w
    pub refusal :
        Refusal now req w (serve_public redis settings verify_id_token now req handler w).0

  -- The answer comes from the handler, which finds the world as it was but for the bucket, which
  -- held a token and now holds one less.
  pub record IsHandled (now : ℕ) (req : Request) (handler : Handler (World State)) (w : World State)
      (auth : AuthContext) : Type 0 where
    pub authentic : authenticate settings verify_id_token req ≡ pass auth
    pub admitted :
        (is_rate_limited redis now (identifier_of auth req) (tier_text auth.tier) w.redis).0.0
        ≡ true
    pub taken :
        let identifier = identifier_of auth req in
        let tier = tier_text auth.tier in
        let s = (is_rate_limited redis now identifier tier w.redis).1 in
        room redis tier identifier now s + token ≡ room redis tier identifier now w.redis
    pub answered :
        let ((_, remaining), s) =
          is_rate_limited redis now (identifier_of auth req) (tier_text auth.tier) w.redis in
        let (outcome, w') = handler auth req (record w { redis = s }) in
        serve_public redis settings verify_id_token now req handler w
        ≡ (with_remaining remaining outcome, w')

  -- Every request to the public API is turned away, without any change to Redis, to the breakers or
  -- to the metrics and with an answer that does not depend on the handler: 401 if it is not
  -- authenticated, 429 if it is but the bucket of its caller holds less than a token. Or it is
  -- authenticated, its bucket holds exactly a token less than before, and what its handler does then
  -- is what happens.
  pub serve_public_cases :
      (now : ℕ) (req : Request) (handler : Handler (World State)) (w : World State)
      → IsTurnedAway now req handler w ⊎ ((auth : AuthContext) × IsHandled now req handler w auth)
  unfolding serve_public
  serve_public_cases now req handler w =
      elim (Verdict-cases (authenticate settings verify_id_token req)) [
        | inr (m, denied) ↦ inl record {
          unchanged = rw (serve_public, denied);
          unheard = λ other. rw (serve_public, denied);
          refusal = inl (m, denied, rw (serve_public, denied));
        }
        | inl (auth, passed) ↦
            let identifier = identifier_of auth req in
            let tier = tier_text auth.tier in
            let served = λ (h : Handler (World State)). serve_public-pass now req h w auth passed in
            elim (is_rate_limited-cases redis now identifier tier w.redis) [
              | inl (enough, allowed, left) ↦ inr (
                auth,
                record {
                  authentic = passed;
                  admitted = allowed;
                  taken = left;
                  answered = served handler ∙ limit_request-allowed now req handler w auth allowed;
                },
              )
              | inr (few, refused, same) ↦
                  let answer = λ (h : Handler (World State)).
                    served h ∙ limit_request-refused now req h w auth refused in
                  inl record {
                    unchanged =
                        rw (answer handler) (ap (λ (s : State). record w { redis = s }) same);
                    unheard = λ other. answer other ∙ sym (answer handler);
                    refusal = inr (auth, _, passed, few, ap (λ x. x.0) (answer handler));
                  }
            ]
      ]
