-- ===== src/Apps/Counting.antt =====
-- legacy/app/core/metrics.py in the public application: which requests the metrics count.
use taxlien_gateway.Prelude.{
  ℕ, suc, ◌≡◌, ◌≢◌, ◌⊎◌, inl, inr, refl, sym, ap, ◌∙◌, Option, none, some, Option-cases, String,
  ◌∷◌, eq_refl, eq_iff, arith,
}
use taxlien_gateway.Http.{Request, Outcome, respond, http_exception, crash}
use taxlien_gateway.Models.Auth.{AuthContext, tier_text}
use taxlien_gateway.Metrics.{Registry, Labels, count_request, observe, status_of, record_request}
use taxlien_gateway.Redis.{Redis}
use taxlien_gateway.RateLimit.{is_rate_limited}
use taxlien_gateway.Auth.{Settings, Claims}
use taxlien_gateway.Api.{World}
use taxlien_gateway.Gateway.{Handler, Answer, identifier_of, with_remaining, serve_public}
use taxlien_gateway.Gateway.Gate.{
  IsTurnedAway, IsHandled, serve_public_cases, serve_public-pass, limit_request-allowed,
}
use taxlien_gateway.Apps.{Cors, create_public_app, serve}
use taxlien_gateway.Apps.Stack.{behind_cors, metered, public_app_lem}

abbrev labels_of : AuthContext → Request → ℕ → Labels
labels_of auth req status = record {
  method = req.method;
  endpoint = req.path;
  status = status;
  tier = tier_text auth.tier;
}

-- What the code makes of the registry.
abbrev counted_once : ℕ → AuthContext → Request → ℕ → Registry → Registry
counted_once duration auth req status r =
    observe req.method req.path duration (count_request (labels_of auth req status) r)

-- A registry after a request of this caller that was answered with this status: one more is counted
-- under its method, path, status and tier, its duration is one more observation under its method and
-- path, and nothing else changes.
pub record IsCountedOnce (duration : ℕ) (auth : AuthContext) (req : Request) (status : ℕ)
    (r r' : Registry) : Type 0 where
  pub counted :
      r'.requests (labels_of auth req status) ≡ suc (r.requests (labels_of auth req status))
  pub others :
      (l : Labels)
      → ((l.method ≢ req.method)
          ⊎ (l.endpoint ≢ req.path)
          ⊎ (l.status ≢ status)
          ⊎ (l.tier ≢ tier_text auth.tier))
      → r'.requests l ≡ r.requests l
  pub observed : r'.latencies req.method req.path ≡ duration ∷ r.latencies req.method req.path
  pub other_latencies :
      (m e : String) → ((m ≢ req.method) ⊎ (e ≢ req.path)) → r'.latencies m e ≡ r.latencies m e

counted_once-IsCountedOnce :
    (duration : ℕ) (auth : AuthContext) (req : Request) (status : ℕ) (r : Registry)
    → IsCountedOnce duration auth req status r (counted_once duration auth req status r)
unfolding count_request observe
counted_once-IsCountedOnce duration auth req status r = record {
  counted = ground (arith, eq_refl req.method, eq_refl req.path, eq_refl (tier_text auth.tier));
  others = λ l h. ground (
    arith,
    h,
    eq_iff req.method l.method,
    eq_iff req.path l.endpoint,
    eq_iff (tier_text auth.tier) l.tier,
  );
  observed = ground (arith, eq_refl req.method, eq_refl req.path);
  other_latencies = λ m e h. ground (arith, h, eq_iff req.method m, eq_iff req.path e);
}

unanswered : (o : Outcome) → status_of o ≡ none → o ≡ crash
unanswered (respond r) e = cc
unanswered (http_exception s d) e = cc
unanswered crash e = refl

pub with_remaining-outcome : (n : ℕ) (o : Outcome) → (with_remaining n o).outcome ≡ o
with_remaining-outcome n (respond r) = refl
with_remaining-outcome n (http_exception s d) = refl
with_remaining-outcome n crash = refl

module _ (duration : ℕ) (auth : AuthContext) (req : Request) (o : Outcome) (r : Registry) where
  record_request-none : status_of o ≡ none → record_request duration (some auth) req o r ≡ r
  unfolding record_request
  record_request-none e = rw (record_request, e)

  record_request-some :
      (status : ℕ)
      → status_of o ≡ some status
      → record_request duration (some auth) req o r ≡ counted_once duration auth req status r
  unfolding record_request
  record_request-some status e = rw (record_request, e)

module _ (redis : Redis) (settings : Settings) (verify_id_token : String → Option Claims)
    (rules : Cors) (now duration : ℕ) where
  open redis use {State}

  abbrev within : Handler (World State) → Handler (World State)
  within = behind_cors redis settings verify_id_token rules now duration

  abbrev uncounted : Request → Handler (World State) → World State → Answer × World State
  uncounted req handler w = serve_public redis settings verify_id_token now req (within handler) w

  -- A request that is handled, with and without the metrics.
  handled_both :
      (req : Request) (handler : Handler (World State)) (w : World State) (auth : AuthContext)
      → IsHandled redis settings verify_id_token now req (within handler) w auth
      → (n : ℕ) × (o : Outcome) × (u : World State) × (uncounted req handler w
          ≡ (with_remaining n o, u))
        × (serve redis settings verify_id_token rules now duration create_public_app req handler w
            ≡ (
              with_remaining n o,
              record u { registry = record_request duration (some auth) req o u.registry },
            ))
  handled_both req handler w auth h =
      let r = is_rate_limited redis now (identifier_of auth req) (tier_text auth.tier) w.redis in
      let x = within handler auth req (record w { redis = r.1 }) in
      let counted = metered redis settings verify_id_token rules now duration (within handler) in
      (
        r.0.1,
        x.0,
        x.1,
        h.answered,
        public_app_lem redis settings verify_id_token rules now duration req handler w
            ∙ serve_public-pass redis settings verify_id_token now req counted w auth h.authentic
            ∙ limit_request-allowed redis settings verify_id_token now req counted w auth
                h.admitted,
      )

  -- The metrics of the public application change no answer. A request that is turned away (401, 429)
  -- or whose handler raises is not counted at all. One that is handled otherwise is counted once, in
  -- the counter of its method, path, tier and the status of its answer, with one observation of its
  -- duration, and nothing else changes because of them, in the registry or elsewhere.
  pub metrics_count_each_answer :
      (req : Request) (handler : Handler (World State)) (w : World State)
      → let plain = uncounted req handler w in
        let r =
          serve redis settings verify_id_token rules now duration create_public_app req handler w in
        ((r ≡ plain)
          × (IsTurnedAway redis settings verify_id_token now req (within handler) w
              ⊎ (plain.0.outcome ≡ crash)))
        ⊎ ((auth : AuthContext) × IsHandled redis settings verify_id_token now req
              (within handler)
              w
              auth
            × (status : ℕ) × (status_of plain.0.outcome ≡ some status)
            × IsCountedOnce duration auth req status plain.1.registry r.1.registry
            × (r ≡ (plain.0, record plain.1 { registry = r.1.registry })))
  metrics_count_each_answer req handler w =
      elim (serve_public_cases redis settings verify_id_token now req (within handler) w) [
        | inl away ↦
            let counted =
              metered redis settings verify_id_token rules now duration (within handler) in
            inl (
              public_app_lem redis settings verify_id_token rules now duration req handler w
                  ∙ away.unheard counted,
              inl away,
            )
        | inr (auth, h) ↦
            let (n, o, u, without, with_them) = handled_both req handler w auth h in
            let answered : (uncounted req handler w).0.outcome ≡ o =
              rw without (with_remaining-outcome n o) in
            elim (Option-cases (status_of o)) [
              | inl raised ↦ inl (
                with_them
                    ∙ rw (record_request-none duration auth req o u.registry raised) (sym without),
                inr (answered ∙ unanswered o raised),
              )
              | inr (status, e) ↦ inr (
                auth,
                h,
                status,
                ap status_of answered ∙ e,
                rw (with_them, without, record_request-some duration auth req o u.registry status e)
                    (counted_once-IsCountedOnce duration auth req status u.registry),
                rw (with_them, without) refl,
              )
            ]
      ]
