-- ===== src/Apps/Access.antt =====
-- legacy/app/apps/parcel_internal.py and party_internal.py: who reaches an internal endpoint.
use taxlien_gateway.Prelude.{
  ℕ, ◌≡◌, ◌⊎◌, inl, inr, refl, sym, ap, true, ◌&&◌, Bool-cases, Option, none, some, List, [], ◌∷◌,
  ◌++◌, String, starts_with, starts_with-<>, str_eq,
}
use taxlien_gateway.Http.{Request}
use taxlien_gateway.Redis.{Redis}
use taxlien_gateway.Auth.{Settings, Claims, deny, bearer_token, authenticate}
use taxlien_gateway.Auth.Access.{internal_is_protected, internal_needs_credential}
use taxlien_gateway.Api.{World}
use taxlien_gateway.Gateway.{Handler, unauthorized}
use taxlien_gateway.Gateway.Gate.{Verdict-cases}
use taxlien_gateway.Apps.Routes.{
  Endpoint, Route, fixed, start_of, included, Matching, find_route, internal_router,
  internal_endpoints, parcel_health, party_health, get_route,
}
use taxlien_gateway.Apps.{
  Cors, App, prometheus, create_parcel_internal_app, create_party_internal_app, serve,
}
use taxlien_gateway.Apps.Stack.{auth_deny}

some-injective {ℓ} : {A : Type ℓ} (a b : A) → some a ≡ some b → a ≡ b
some-injective a b e = ap (λ o. elim o [ none ↦ a | some x ↦ x ]) e

module _ (m : Matching) where
  open m use {matches, matches-start}

  -- A route that is found stands below the prefix, or is the one that follows.
  found_below :
      (prefix : String) (rs : List Route) (last : Route) (req : Request) (e : Endpoint)
      → find_route m (included prefix rs ++ last ∷ []) req ≡ some e
      → (e ≡ last.endpoint) ⊎ (starts_with req.path prefix ≡ true)
  unfolding find_route
  found_below prefix [] last req e found =
      elim (Bool-cases (str_eq last.method req.method && matches last.template req.path)) [
        | inl here ↦ inl (sym (some-injective last.endpoint e (rw here at found)))
        | inr other ↦ cc
      ]
  found_below prefix (r ∷ rs) last req e found =
      let t = fixed prefix ∷ r.template in
      elim (Bool-cases (matches t req.path)) [
        | inl here ↦
            inr
              (starts_with-<> req.path prefix (start_of r.template) (matches-start t req.path here))
        | inr other ↦ elim (Bool-cases (str_eq r.method req.method)) [
          | inl same ↦ found_below prefix rs last req e (rw (same, other) at found)
          | inr differs ↦ found_below prefix rs last req e (rw differs at found)
        ]
      ]

  internal_app_routes :
      (app : App)
      → (app ≡ create_parcel_internal_app) ⊎ (app ≡ create_party_internal_app)
      → (health : Endpoint) × ((health ≡ parcel_health) ⊎ (health ≡ party_health))
        × (app.routes ≡ internal_router ++ get_route (fixed "/health" ∷ []) health ∷ [])
  unfolding create_parcel_internal_app create_party_internal_app
  internal_app_routes app (inl e) = (parcel_health, inl refl, rw e refl)
  internal_app_routes app (inr e) = (party_health, inr refl, rw e refl)

  internal_app_found :
      (app : App) (req : Request) (e : Endpoint)
      → (app ≡ create_parcel_internal_app) ⊎ (app ≡ create_party_internal_app)
      → find_route m app.routes req ≡ some e
      → ((e ≡ parcel_health) ⊎ (e ≡ party_health)) ⊎ (starts_with req.path "/internal" ≡ true)
  internal_app_found app req e i found =
      let (health, which, routes) = internal_app_routes app i in
      elim (found_below "/internal" internal_endpoints (get_route (fixed "/health" ∷ []) health) req
        e (rw routes at found)) [ inl same ↦ inl (rw same which) | inr below ↦ inr below ]

module _ (m : Matching) (redis : Redis) (settings : Settings)
    (verify_id_token : String → Option Claims) (rules : Cors) (now duration : ℕ) where
  open redis use {State}

  internal_app_deny :
      (app : App) (req : Request) (handler : Handler (World State)) (w : World State)
      (message : String)
      → (app ≡ create_parcel_internal_app) ⊎ (app ≡ create_party_internal_app)
      → authenticate settings verify_id_token req ≡ deny message
      → serve redis settings verify_id_token rules now duration app req handler w
        ≡ (unauthorized message, w)
  unfolding serve create_parcel_internal_app create_party_internal_app
  internal_app_deny app req handler w message (inl e) denied = rw e (
      auth_deny redis settings verify_id_token rules now duration (prometheus ∷ []) req handler w
        message denied)
  internal_app_deny app req handler w message (inr e) denied = rw e (
      auth_deny redis settings verify_id_token rules now duration (prometheus ∷ []) req handler w
        message denied)

  -- Whatever endpoint an internal application's routes lead a request to: it is the health check, or
  -- the request is answered with status 401, its handler is not reached and nothing changes, or it
  -- bears the worker token of the settings or a Firebase token that was verified and claims the tier
  -- "internal".
  pub internal_endpoints_need_credential :
      (app : App) (req : Request) (e : Endpoint) (handler : Handler (World State)) (w : World State)
      → (app ≡ create_parcel_internal_app) ⊎ (app ≡ create_party_internal_app)
      → find_route m app.routes req ≡ some e
      → ((e ≡ parcel_health) ⊎ (e ≡ party_health))
        ⊎ ((message : String) × (serve redis settings verify_id_token rules now duration app req
                handler w
              ≡ (unauthorized message, w)))
        ⊎ (req.headers "X-Worker-Token" ≡ some settings.internal_api_token)
        ⊎ ((claims : Claims) × (verify_id_token (bearer_token (req.headers "Authorization"))
              ≡ some claims)
            × (claims.tier ≡ some "internal"))
  internal_endpoints_need_credential app req e handler w i found =
      elim (internal_app_found m app req e i found) [
        | inl health ↦ inl health
        | inr below ↦ elim (Verdict-cases (authenticate settings verify_id_token req)) [
          | inr (message, denied) ↦
              inr (inl (message, internal_app_deny app req handler w message i denied))
          | inl (c, passed) ↦ inr (
              inr (
                internal_needs_credential settings verify_id_token req c passed
                  (internal_is_protected settings verify_id_token req c passed below)))
        ]
      ]
