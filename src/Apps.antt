-- ===== src/Apps.antt =====
-- legacy/app/apps: the three applications and what a request to them goes through. Starlette's
-- order is that the middleware added last is the outermost; what CORSMiddleware does is a
-- parameter, and the routes that FastAPI adds for its documentation are left out.
pub mod Routes
pub mod Stack
pub mod Counting
pub mod Access
pub mod Unrouted
pub mod Public
pub mod Internal
pub mod Work
pub mod Searches
mod Tests
mod WorkTests
use taxlien_gateway.Prelude.{
  ◌≡◌, ℕ, Bool, true, false, Option, none, some, List, [], ◌∷◌, ◌++◌, String, ◌<>◌, if◌then◌else◌,
}
use taxlien_gateway.Http.{Request, Outcome, respond, http_exception, crash}
use taxlien_gateway.Models.Auth.{AuthContext, no_auth, tier_text}
use taxlien_gateway.Metrics.{status_of, record_request}
use taxlien_gateway.Redis.{Redis}
use taxlien_gateway.RateLimit.{is_rate_limited}
use taxlien_gateway.Auth.{Settings, Claims, pass, deny, authenticate}
use taxlien_gateway.Api.{World}
use taxlien_gateway.Gateway.{Answer, Handler, identifier_of, unauthorized, too_many}
use taxlien_gateway.Apps.Routes.{
  Route, fixed, included, v1_router, internal_router, public_health, parcel_health, party_health,
  get_route,
}

pub data Middleware : Type 0 where
  cors prometheus rate_limit auth : Middleware

-- A FastAPI application: its middleware, the outermost first, and its routes in order.
pub record App : Type 0 where
  pub middleware : List Middleware
  pub routes : List Route

abbrev fastapi : App
fastapi = record { middleware = []; routes = [] }

abbrev add_middleware : Middleware → App → App
add_middleware m app = record app { middleware = m ∷ app.middleware }

abbrev include_router : List Route → App → App
include_router routes app = record app { routes = app.routes ++ routes }

unfoldable pub create_public_app : App
create_public_app =
    let a = add_middleware cors fastapi in
    let b = add_middleware prometheus a in
    let c = add_middleware rate_limit b in
    let d = add_middleware auth c in
    let e = include_router v1_router d in
    include_router (get_route (fixed "/health" ∷ []) public_health ∷ []) e

unfoldable pub create_parcel_internal_app : App
create_parcel_internal_app =
    let a = add_middleware prometheus fastapi in
    let b = add_middleware auth a in
    let c = include_router internal_router b in
    include_router (get_route (fixed "/health" ∷ []) parcel_health ∷ []) c

unfoldable pub create_party_internal_app : App
create_party_internal_app =
    let a = add_middleware prometheus fastapi in
    let b = add_middleware auth a in
    let c = include_router internal_router b in
    include_router (get_route (fixed "/health" ∷ []) party_health ∷ []) c

-- CORSMiddleware: it answers some requests itself, and adds headers to what others come to.
pub record Cors : Type 0 where
  pub preflight : Request → Option Outcome
  pub allow : Request → Outcome → Outcome

-- `getattr(request.state, "auth", AuthContext())`
abbrev pub auth_of : Option AuthContext → AuthContext
auth_of none = no_auth
auth_of (some c) = c

abbrev pub set_remaining : ℕ → Answer → Answer
set_remaining n a = elim a.outcome [ crash ↦ a | _ ↦ record a { remaining = some n } ]

-- A request at the time `now`, which takes `duration`.
module _ (redis : Redis) (settings : Settings) (verify_id_token : String → Option Claims)
    (cors_rules : Cors) (now duration : ℕ) where
  open redis use {State}

  -- A request on its way through the middleware, with the context that AuthMiddleware has made, if
  -- it has been there, to its handler.
  unfoldable pub go_through :
      List Middleware
      → Option AuthContext
      → Request
      → Handler (World State)
      → World State
      → Answer × World State
  go_through [] context req handler w =
      let (outcome, w') = handler (auth_of context) req w in
      (record { outcome = outcome; remaining = none }, w')
  go_through (cors ∷ ms) context req handler w =
      let (answer, w') = go_through ms context req handler w in
      elim (cors_rules.preflight req) [
        | some outcome ↦ (record { outcome = outcome; remaining = none }, w)
        | none ↦ (record answer { outcome = cors_rules.allow req answer.outcome }, w')
      ]
  go_through (prometheus ∷ ms) context req handler w =
      let (answer, w') = go_through ms context req handler w in
      (
        answer,
        record w' { registry = record_request duration context req answer.outcome w'.registry },
      )
  go_through (rate_limit ∷ ms) context req handler w =
      let c = auth_of context in
      let ((allowed, remaining), s) =
        is_rate_limited redis now (identifier_of c req) (tier_text c.tier) w.redis in
      let (answer, w') = go_through ms context req handler (record w { redis = s }) in
      if allowed
      then (set_remaining remaining answer, w')
      else (too_many remaining, record w { redis = s })
  go_through (auth ∷ ms) context req handler w = elim (authenticate settings verify_id_token req) [
    | deny message ↦ (unauthorized message, w)
    | pass c ↦ go_through ms (some c) req handler w
  ]

  -- A request to an application.
  unfoldable pub serve : App → Request → Handler (World State) → World State → Answer × World State
  serve app req handler w = go_through app.middleware none req handler w
