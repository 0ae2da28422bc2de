-- ===== src/Apps/Work.antt =====
-- legacy/app/apps/parcel_internal.py and party_internal.py: a worker that fetches work and reports it
-- complete, each by a request to an internal application.
use taxlien_gateway.Prelude.{
  ℕ, ◌≡◌, ◌⊎◌, inl, inr, ap, ◌∙◌, true, Option, none, some, [], ◌∷◌, String,
}
use taxlien_gateway.Http.{Request, Outcome, respond}
use taxlien_gateway.Models.Auth.{AuthContext}
use taxlien_gateway.Models.Worker.{WorkTask, WorkResponse}
use taxlien_gateway.Metrics.{record_request}
use taxlien_gateway.Redis.{Redis}
use taxlien_gateway.Redis.Beside.{beside}
use taxlien_gateway.Database.{Database}
use taxlien_gateway.WorkerQueue.{Codec, processing_key}
use taxlien_gateway.WorkerQueue.Complete.{AllTasks}
use taxlien_gateway.WorkerQueue.RoundTrip.{In}
use taxlien_gateway.Auth.{Settings, Claims, pass, authenticate}
use taxlien_gateway.Api.{World}
use taxlien_gateway.Gateway.{Handler, Answer}
use taxlien_gateway.Internal.{worker_of, work, get_work, complete}
use taxlien_gateway.Internal.Dispatch.{handed_out_can_be_completed}
use taxlien_gateway.Apps.Routes.{Endpoint, find_route}
use taxlien_gateway.Apps.{
  App, Cors, prometheus, create_parcel_internal_app, create_party_internal_app, go_through, serve,
}
use taxlien_gateway.Apps.Stack.{auth_pass}
use taxlien_gateway.Apps.Public.{json_ok}
use taxlien_gateway.Apps.Internal.{Reading, Writing, Outside, Beyond, dispatch}

abbrev pub IsInternal : App → Type 0
IsInternal app = (app ≡ create_parcel_internal_app) ⊎ (app ≡ create_party_internal_app)

module _ (redis : Redis) (settings : Settings) (verify_id_token : String → Option Claims)
    (rules : Cors) (now duration : ℕ) where
  open redis use {State}

  -- What PrometheusMiddleware does to the outcome of a handler.
  abbrev recorded : AuthContext → Request → Outcome × World State → Answer × World State
  recorded c req (outcome, w) = (
    record { outcome = outcome; remaining = none },
    record w { registry = record_request duration (some c) req outcome w.registry },
  )

  -- An internal application passes a request with a credential to its router.
  internal_app_pass :
      (app : App) (req : Request) (handler : Handler (World State)) (w : World State)
      (c : AuthContext)
      → IsInternal app
      → authenticate settings verify_id_token req ≡ pass c
      → serve redis settings verify_id_token rules now duration app req handler w
        ≡ recorded c req (handler c req w)
  unfolding serve create_parcel_internal_app create_party_internal_app go_through
  internal_app_pass app req handler w c (inl e) passed = rw e (
      auth_pass redis settings verify_id_token rules now duration (prometheus ∷ []) req handler w c
        passed)
  internal_app_pass app req handler w c (inr e) passed = rw e (
      auth_pass redis settings verify_id_token rules now duration (prometheus ∷ []) req handler w c
        passed)

module _ (redis : Redis) (db : Database) (codec : Codec) (reading : Reading) (writing : Writing)
    (outside : Outside) (settings : Settings) (verify_id_token : String → Option Claims)
    (rules : Cors) where
  abbrev pub held : Redis
  held = beside redis (Beyond (Database.Session db))

  abbrev pub served :
      ℕ → ℕ → App → Request → World (Redis.State held) → Answer × World (Redis.State held)
  served now duration app req w =
      serve held settings verify_id_token rules now duration app req
        (dispatch redis db codec reading writing outside now app) w

  -- Fetching work.
  fetches :
      (app : App) (req : Request) (c : AuthContext) (now : ℕ) (w : World (Redis.State held))
      (r : WorkResponse)
      → (find_route reading.matching app.routes req ≡ some Endpoint.parcel_get_work)
        ⊎ (find_route reading.matching app.routes req ≡ some Endpoint.party_get_work)
      → let got = get_work held codec c (reading.capacity req) (reading.platforms req) w.redis in
        got.0 ≡ work r
        → dispatch redis db codec reading writing outside now app c req w
          ≡ (respond (json_ok (writing.work_text r)), record w { redis = got.1 })
  unfolding dispatch
  fetches app req c now w r (inl found) got = rw (dispatch, found, got)
  fetches app req c now w r (inr found) got = rw (dispatch, found, got)

  completes :
      (app : App) (req : Request) (c : AuthContext) (now : ℕ) (w : World (Redis.State held))
      → (find_route reading.matching app.routes req ≡ some Endpoint.parcel_complete_task)
        ⊎ (find_route reading.matching app.routes req ≡ some Endpoint.party_complete_task)
      → (complete held codec c (reading.task_id req) w.redis).0 ≡ some true
      → (dispatch redis db codec reading writing outside now app c req w).0
        ≡ respond (json_ok (writing.success_text true))
  unfolding dispatch
  completes app req c now w (inl found) done = rw (dispatch, found, done)
  completes app req c now w (inr found) done = rw (dispatch, found, done)

  served_lem :
      (now duration : ℕ) (app : App) (req : Request) (c : AuthContext)
      (w : World (Redis.State held))
      → IsInternal app
      → authenticate settings verify_id_token req ≡ pass c
      → served now duration app req w
        ≡ recorded held settings verify_id_token rules now duration c req
            (dispatch redis db codec reading writing outside now app c req w)
  served_lem now duration app req c w i passed =
      internal_app_pass held settings verify_id_token rules now duration app req
        (dispatch redis db codec reading writing outside now app) w c i passed

  -- Reporting a task complete, where its worker's list allows it.
  served_completion :
      (now duration : ℕ) (app : App) (req : Request) (c : AuthContext)
      (w : World (Redis.State held))
      → IsInternal app
      → authenticate settings verify_id_token req ≡ pass c
      → (find_route reading.matching app.routes req ≡ some Endpoint.parcel_complete_task)
        ⊎ (find_route reading.matching app.routes req ≡ some Endpoint.party_complete_task)
      → (complete held codec c (reading.task_id req) w.redis).0 ≡ some true
      → (served now duration app req w).0.outcome ≡ respond (json_ok (writing.success_text true))
  served_completion now duration app req c w i passed found done =
      ap (λ (a : Answer × World (Redis.State held)). a.0.outcome)
        (served_lem now duration app req c w i passed)
      ∙ completes app req c now w found done

  same_worker :
      (c c' : AuthContext) (i j : String) (s : Redis.State held)
      → worker_of c' ≡ worker_of c
      → i ≡ j
      → (complete held codec c j s).0 ≡ some true
      → (complete held codec c' i s).0 ≡ some true
  unfolding complete
  same_worker c c' i j s same e done = rw (same, e) done

  -- A worker that fetches work through either internal application is answered with it, and can report
  -- each of its tasks complete through either: the second request is answered with success. Both
  -- requests pass AuthMiddleware as the same worker's and are led to the handlers by the routes, the
  -- work is what `get_work` comes to, and the worker's processing list then holds nothing but tasks.
  pub served_work_can_be_completed :
      (app app' : App) (req req' : Request) (c c' : AuthContext) (now now' duration duration' : ℕ)
      (w : World (Redis.State held)) (r : WorkResponse) (t : WorkTask)
      → IsInternal app
      → IsInternal app'
      → authenticate settings verify_id_token req ≡ pass c
      → authenticate settings verify_id_token req' ≡ pass c'
      → worker_of c' ≡ worker_of c
      → (find_route reading.matching app.routes req ≡ some Endpoint.parcel_get_work)
        ⊎ (find_route reading.matching app.routes req ≡ some Endpoint.party_get_work)
      → (find_route reading.matching app'.routes req' ≡ some Endpoint.parcel_complete_task)
        ⊎ (find_route reading.matching app'.routes req' ≡ some Endpoint.party_complete_task)
      → reading.task_id req' ≡ t.task_id
      → let got = get_work held codec c (reading.capacity req) (reading.platforms req) w.redis in
        got.0 ≡ work r
        → In t r.tasks
        → AllTasks held codec (Redis.lrange held got.1 (processing_key (worker_of c)))
        → let first = served now duration app req w in
          let second = served now' duration' app' req' first.1 in
          (first.0.outcome ≡ respond (json_ok (writing.work_text r)))
          × (second.0.outcome ≡ respond (json_ok (writing.success_text true)))
  served_work_can_be_completed app app' req req' c c' now now' duration duration' w r t i i' passed
        passed' same found found' id got among all =
      let first =
        served_lem now duration app req c w i passed
        ∙ ap (recorded held settings verify_id_token rules now duration c req)
            (fetches app req c now w r found got) in
      let done = same_worker c c' (reading.task_id req') t.task_id _ same id (
        handed_out_can_be_completed held codec c (reading.capacity req) (reading.platforms req)
          w.redis r t got among all) in
      let after = (served now duration app req w).1 in
      let state = ap (λ (a : Answer × World (Redis.State held)). a.1.redis) first in
      (
        ap (λ (a : Answer × World (Redis.State held)). a.0.outcome) first,
        served_completion now' duration' app' req' c' after i' passed' found' (rw state done),
      )
