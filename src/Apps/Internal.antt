-- ===== src/Apps/Internal.antt =====
-- legacy/app/apps/parcel_internal.py and party_internal.py: the internal applications with the
-- handlers of their routes, over Redis, a database session and files. What FastAPI reads of a
-- request and writes of a result, and what the router answers itself, are parameters.
use taxlien_gateway.Prelude.{ℕ, Bool, Option, none, some, List, String, Dict}
use taxlien_gateway.Http.{Request, Outcome, respond, http_exception, crash}
use taxlien_gateway.Models.Auth.{AuthContext}
use taxlien_gateway.Models.Worker.{
  ParcelResult, ProxyInfo, SubmitResponse, WorkResponse, WorkerStatus,
}
use taxlien_gateway.Redis.{Redis}
use taxlien_gateway.Redis.Beside.{beside}
use taxlien_gateway.Database.{Database}
use taxlien_gateway.WorkerQueue.{Codec}
use taxlien_gateway.Api.{World}
use taxlien_gateway.Gateway.{Handler}
use taxlien_gateway.Internal.{
  WorkAnswer, work, invalid, raised, get_work, complete, fail_task, worker_heartbeat,
}
use taxlien_gateway.Internal.Party.{
  get_party_work, complete_party_task, fail_party_task, submit_party_results,
}
use taxlien_gateway.Results.{Work, submit_results}
use taxlien_gateway.Proxy
use taxlien_gateway.Proxy.{
  ProxyCall, ProxyReply, ProxyAnswer, proxy, unavailable, create_proxy, rotate_proxy,
}
use taxlien_gateway.RawFiles
use taxlien_gateway.RawFiles.{Upload, Disk, upload_raw_file}
use taxlien_gateway.Apps.Routes.{Endpoint, Matching, find_route}
use taxlien_gateway.Apps.{App}
use taxlien_gateway.Apps.Public.{json_ok}

-- What FastAPI reads of a request: `none` where it answers with `unprocessable` itself, but an absent
-- optional parameter is `some none`.
pub record Reading : Type 0 where
  pub matching : Matching
  pub unrouted : Request → Outcome
  pub unprocessable : Request → Outcome
  pub task_id : Request → String
  pub capacity : Request → Option ℕ
  pub platforms : Request → List String
  pub results : Request → Option (List ParcelResult)
  pub status : Request → Option WorkerStatus
  pub platform : Request → Option String
  pub port : Request → Option ℕ
  pub reason : Request → Option String
  -- the name of an uploaded file and its content
  pub upload : Request → Option (Option String × String)

-- The JSON texts of what the handlers return.
pub record Writing : Type 0 where
  pub work_text : WorkResponse → String
  pub success_text : Bool → String
  pub status_text : String → String
  pub submit_text : SubmitResponse → String
  pub proxy_text : ProxyInfo → String
  pub stored_text : String → String
  pub error_text : String → String

-- What a connection to PostgreSQL and the disk hold, beside Redis.
pub record Beyond (Session : Type 0) : Type 0 where
  pub session : Session
  pub files : Dict String

-- The proxy service, the disk and the texts of exceptions.
pub record Outside : Type 0 where
  pub service_url : String
  pub makes_client : Bool
  pub send : ProxyCall → ProxyReply
  pub refused_status : ℕ → Bool
  pub read_proxy : String → Option ProxyInfo
  pub disk : Disk
  pub task_error : String

module _ (redis : Redis) (db : Database) (codec : Codec) (reading : Reading) (writing : Writing)
    (outside : Outside) (now : ℕ) where
  open db use {Session}
  open reading use {task_id, capacity, platforms, results, status, platform, port, reason, upload}

  abbrev pub store : Redis
  store = beside redis (Beyond Session)

  abbrev pub ServerState : Type 0
  ServerState = World (Redis.State store)

  abbrev pub work_outcome : Request → WorkAnswer → Outcome
  work_outcome req (work r) = respond (json_ok (writing.work_text r))
  work_outcome req invalid = reading.unprocessable req
  work_outcome req raised = crash

  abbrev pub complete_outcome : Option Bool → Outcome
  complete_outcome none = crash
  complete_outcome (some b) = respond (json_ok (writing.success_text b))

  abbrev proxy_outcome : ProxyAnswer → Outcome
  proxy_outcome (proxy info) = respond (json_ok (writing.proxy_text info))
  proxy_outcome (unavailable status detail) = http_exception status detail
  proxy_outcome Proxy.raised = crash

  abbrev upload_outcome : Upload → Outcome
  upload_outcome (RawFiles.ok path) = respond (json_ok (writing.stored_text path))
  upload_outcome (RawFiles.error message) = respond (json_ok (writing.error_text message))
  upload_outcome RawFiles.raised = crash

  -- The state after a handler that works on Redis.
  abbrev pub keep : ServerState → Redis.State store → ServerState
  keep w s = record w { redis = s }

  abbrev submit :
      (AuthContext → List ParcelResult → redis.State → Session → Work redis.State Session)
      → AuthContext
      → Request
      → ServerState
      → Outcome × ServerState
  submit handler auth req w = elim (results req) [
    | none ↦ (reading.unprocessable req, w)
    | some rs ↦
        let r = handler auth rs w.redis.0 w.redis.1.session in
        (
          respond (json_ok (writing.submit_text r.response)),
          keep w (r.queue, record w.redis.1 { session = r.session }),
        )
  ]

  -- `health_check` of each application.
  abbrev pub parcel_health_check : Outcome
  parcel_health_check =
      respond (json_ok "{\"status\":\"ok\",\"service\":\"gateway\",\"app\":\"parcel_internal\"}")

  abbrev pub party_health_check : Outcome
  party_health_check =
      respond (json_ok "{\"status\":\"ok\",\"service\":\"gateway\",\"app\":\"party_internal\"}")

  abbrev with_outcome :
      {A : Type 0} → (A → Outcome) → ServerState → A × Redis.State store → Outcome × ServerState
  with_outcome f w (a, s) = (f a, keep w s)

  abbrev heartbeat : AuthContext → Request → ServerState → Outcome × ServerState
  heartbeat auth req w = elim (status req) [
    | none ↦ (reading.unprocessable req, w)
    | some st ↦ (
      respond (json_ok "{\"acknowledged\":true,\"commands\":[]}"),
      keep w (worker_heartbeat store now auth st w.redis),
    )
  ]

  abbrev made_proxy : Request → Outcome
  made_proxy req = elim (platform req) [
    | none ↦ reading.unprocessable req
    | some p ↦ proxy_outcome (
        create_proxy outside.service_url outside.makes_client outside.send outside.refused_status
          outside.read_proxy p)
  ]

  abbrev rotated_proxy : Request → Outcome
  rotated_proxy req = elim (port req) [
    | none ↦ reading.unprocessable req
    | some n ↦ elim (platform req) [
      | none ↦ reading.unprocessable req
      | some p ↦ proxy_outcome (
          rotate_proxy outside.service_url outside.makes_client outside.send outside.refused_status
            outside.read_proxy n p (reason req))
    ]
  ]

  abbrev stored_upload : Request → ServerState → Outcome × ServerState
  stored_upload req w = elim (upload req) [
    | none ↦ (reading.unprocessable req, w)
    | some (filename, content) ↦
        let (answer, files) = upload_raw_file outside.disk filename content w.redis.1.files in
        (upload_outcome answer, keep w (w.redis.0, record w.redis.1 { files = files }))
  ]

  abbrev pub handler_of : Endpoint → Handler ServerState
  handler_of e auth req w = elim e [
    | Endpoint.parcel_get_work ↦
        with_outcome (work_outcome req) w
          (get_work store codec auth (capacity req) (platforms req) w.redis)
    | Endpoint.party_get_work ↦
        with_outcome (work_outcome req) w
          (get_party_work store codec auth (capacity req) (platforms req) w.redis)
    | Endpoint.parcel_submit_results ↦
        submit (submit_results redis db codec outside.task_error) auth req w
    | Endpoint.party_submit_results ↦
        submit (submit_party_results redis codec db outside.task_error) auth req w
    | Endpoint.parcel_complete_task ↦
        with_outcome complete_outcome w (complete store codec auth (task_id req) w.redis)
    | Endpoint.party_complete_task ↦
        with_outcome complete_outcome w (complete_party_task store codec auth (task_id req) w.redis)
    | Endpoint.parcel_fail_task ↦
        with_outcome (λ s. respond (json_ok (writing.status_text s))) w
          (fail_task store codec auth (task_id req) w.redis)
    | Endpoint.party_fail_task ↦
        with_outcome (λ s. respond (json_ok (writing.status_text s))) w
          (fail_party_task store codec auth (task_id req) w.redis)
    | Endpoint.worker_heartbeat ↦ heartbeat auth req w
    | Endpoint.create_proxy ↦ (made_proxy req, w)
    | Endpoint.rotate_proxy ↦ (rotated_proxy req, w)
    | Endpoint.upload_raw_file ↦ stored_upload req w
    | Endpoint.parcel_health ↦ (parcel_health_check, w)
    | Endpoint.party_health ↦ (party_health_check, w)
    | _ ↦ (reading.unrouted req, w)
  ]

  -- The router of an internal application.
  unfoldable pub dispatch : App → Handler ServerState
  dispatch app auth req w = elim (find_route reading.matching app.routes req) [
    | none ↦ (reading.unrouted req, w)
    | some e ↦ handler_of e auth req w
  ]
