-- ===== src/Auth/Access.antt =====
-- legacy/app/core/auth.py: who gets where.
use taxlien_gateway.Prelude.{
  ◌≡◌, ◌≢◌, ◌⊎◌, inl, inr, refl, ap, true, Option, none, some, String, eq_iff, starts_with, truthy,
  Bool-cases, Option-cases, arith,
}
use taxlien_gateway.Http.{Request}
use taxlien_gateway.Models.Auth.{
  anonymous, free, internal, Tier, member, tier_is, AuthContext, no_auth,
}
use taxlien_gateway.Auth.{
  Settings, Claims, Verdict, pass, deny, check_worker, is_bearer, bearer_token, of_claims,
  check_bearer, check_internal, authenticate, ◌>>=◌,
}

abbrev context : Verdict → AuthContext
context (pass a) = a
context (deny m) = no_auth

abbrev tier_of : AuthContext → Tier
tier_of c = c.tier

pass-injective : (a c : AuthContext) → pass a ≡ pass c → a ≡ c
pass-injective a c e = ap context e

pass-ne-deny : (c : AuthContext) {m : String} → deny m ≡ pass c → ⊥
pass-ne-deny c e = absurd (ground arith)

bind-pass :
    (v : Verdict) (f : AuthContext → Verdict) (c : AuthContext)
    → (v >>= f) ≡ pass c
    → (a : AuthContext) × (v ≡ pass a) × (f a ≡ pass c)
bind-pass (pass a) f c e = (a, refl, e)
bind-pass (deny m) f c e = cc

module _ (settings : Settings) (verify_id_token : String → Option Claims) (req : Request) where
  check_internal-pass :
      (a c : AuthContext)
      → check_internal settings verify_id_token req a ≡ pass c
      → (a ≡ c) × (starts_with req.path "/internal" ≡ true → tier_is internal c.tier ≡ true)
  unfolding check_internal
  check_internal-pass a c e = elim (Bool-cases (starts_with req.path "/internal")) [
    | inl below ↦ elim (Bool-cases (tier_is internal a.tier)) [
      | inl trusted ↦
          let same = pass-injective a c (rw (below, trusted) at e) in
          (same, λ _. rw same at trusted)
      | inr other ↦ absurd (pass-ne-deny c (rw (below, other) at e))
    ]
    | inr outside ↦
        (pass-injective a c (rw outside at e), λ below. absurd (ground (arith, below, outside)))
  ]

  check_worker-pass :
      (a : AuthContext)
      → check_worker settings req ≡ pass a
      → (req.headers "X-Worker-Token" ≡ some settings.internal_api_token) ⊎ (a ≡ no_auth)
  unfolding check_worker
  check_worker-pass a e = elim (Option-cases (req.headers "X-Worker-Token")) [
    | inl missing ↦ ground (arith, missing)
    | inr (t, given) ↦ ground (arith, given, eq_iff t settings.internal_api_token)
  ]

  anonymous-ne-internal : tier_is internal (member anonymous) ≢ true
  anonymous-ne-internal e = ground arith

  free-ne-internal : tier_is internal (member free) ≢ true
  free-ne-internal e = ground arith

  -- The stages of a request that goes on.
  stages :
      (c : AuthContext)
      → authenticate settings verify_id_token req ≡ pass c
      → (a : AuthContext) × (check_worker settings req ≡ pass a)
        × (check_bearer settings verify_id_token req a ≡ pass c)
        × (starts_with req.path "/internal" ≡ true → tier_is internal c.tier ≡ true)
  unfolding authenticate
  stages c e =
      let (b, e', last) = bind-pass _ (check_internal settings verify_id_token req) c e in
      let (a, first, middle) = bind-pass _ (check_bearer settings verify_id_token req) b e' in
      let (same, guarded) = check_internal-pass b c last in (a, first, rw same at middle, guarded)

  claims_internal :
      (c : AuthContext) (o : Option Claims)
      → of_claims no_auth o ≡ pass c
      → tier_is internal c.tier ≡ true
      → (claims : Claims) × (o ≡ some claims) × (claims.tier ≡ some "internal")
  claims_internal c none e i = absurd (ground arith)
  claims_internal c (some claims) e i = (
    claims,
    refl,
    elim (Option-cases claims.uid) [
      | inl missing ↦ ground (arith, missing)
      | inr (uid, has) ↦ elim (Option-cases claims.tier) [
        | inl default ↦
            (let same =
                pass-injective (record no_auth { user_id = some uid; tier = member free }) c
                  (rw (of_claims, has, default) at e) in
              absurd (free-ne-internal (rw (← ap tier_of same) at i)))
        | inr (t, says) ↦ ground (arith, has, says, eq_iff t "internal")
      ]
    ],
  )

  check_bearer-internal :
      (c : AuthContext)
      → check_bearer settings verify_id_token req no_auth ≡ pass c
      → tier_is internal c.tier ≡ true
      → (claims : Claims) × (verify_id_token (bearer_token (req.headers "Authorization"))
          ≡ some claims)
        × (claims.tier ≡ some "internal")
  unfolding check_bearer
  check_bearer-internal c e i = elim (Bool-cases (is_bearer (req.headers "Authorization"))) [
    | inl bears ↦ elim (Bool-cases (truthy settings.firebase_project_id)) [
      | inl project ↦ claims_internal c _ (rw (bears, project) at e) i
      | inr mock ↦
          let same =
            pass-injective (record no_auth { user_id = some "mock-user-123"; tier = member free }) c
              (rw (bears, mock) at e) in
          absurd (free-ne-internal (rw (← ap tier_of same) at i))
    ]
    | inr no_token ↦
        let same = pass-injective no_auth c (rw no_token at e) in
        absurd (anonymous-ne-internal (rw (← ap tier_of same) at i))
  ]

  -- A request to a path below /internal goes on only with the tier "internal".
  pub internal_is_protected :
      (c : AuthContext)
      → authenticate settings verify_id_token req ≡ pass c
      → starts_with req.path "/internal" ≡ true
      → tier_is internal c.tier ≡ true
  internal_is_protected c e p = let (a, first, middle, guarded) = stages c e in guarded p

  -- A request goes on with the tier "internal" only if its worker token is the one of the settings,
  -- or if the Firebase token that it bears was verified and claims that tier.
  pub internal_needs_credential :
      (c : AuthContext)
      → authenticate settings verify_id_token req ≡ pass c
      → tier_is internal c.tier ≡ true
      → (req.headers "X-Worker-Token" ≡ some settings.internal_api_token)
        ⊎ ((claims : Claims) × (verify_id_token (bearer_token (req.headers "Authorization"))
              ≡ some claims)
            × (claims.tier ≡ some "internal"))
  internal_needs_credential c e i =
      let (a, first, middle, _) = stages c e in
      elim (check_worker-pass a first) [
        | inl token ↦ inl token
        | inr none_given ↦ inr (check_bearer-internal c (rw none_given at middle) i)
      ]

  -- No request goes on both as a user and as a worker.
  pub user_or_worker :
      (c : AuthContext)
      → authenticate settings verify_id_token req ≡ pass c
      → (c.user_id ≡ none) ⊎ (c.worker_id ≡ none)
  unfolding authenticate check_worker check_bearer check_internal
  user_or_worker c e = ground arith
