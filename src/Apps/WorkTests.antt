-- ===== src/Apps/WorkTests.antt =====
-- A worker's two requests at concrete applications, with a matching that knows the start of a
-- template only.
use taxlien_gateway.Prelude.{
  ◌≡◌, inl, inr, refl, true, false, Option, none, some, [], ◌∷◌, String, str_eq, str_of,
  starts_with, put, empty_dict, if◌then◌else◌,
}
use taxlien_gateway.Http.{Request, respond, http_exception}
use taxlien_gateway.Models.Auth.{AuthContext, member, internal, no_auth}
use taxlien_gateway.Models.Worker.{WorkResponse}
use taxlien_gateway.Metrics.{no_metrics}
use taxlien_gateway.Redis.Memory.{Store, memory, empty_store}
use taxlien_gateway.Redis.Beside.{beside}
use taxlien_gateway.Database.Memory.{Table, table, empty_table}
use taxlien_gateway.WorkerQueue.{take_raw, pop_priorities, pop_platforms, pop_tasks}
use taxlien_gateway.WorkerQueue.Plain.{task, plain}
use taxlien_gateway.Auth.{
  Settings, Claims, pass, check_worker, check_bearer, check_internal, authenticate,
}
use taxlien_gateway.Api.{World}
use taxlien_gateway.Internal.{work, get_work}
use taxlien_gateway.Proxy.{failed}
use taxlien_gateway.RawFiles.{unopened}
use taxlien_gateway.Apps.{Cors, create_parcel_internal_app, create_party_internal_app}
use taxlien_gateway.Apps.Routes.{
  Matching, start_of, find_route, parcel_get_work, party_complete_task,
}
use taxlien_gateway.Apps.Public.{json_ok}
use taxlien_gateway.Apps.Internal.{Reading, Writing, Outside, Beyond}
use taxlien_gateway.Apps.Work.{served, served_work_can_be_completed}

abbrev by_start : Matching
by_start = record {
  matches = λ t path. starts_with path (start_of t);
  matches-start = λ t path h. h;
}

abbrev reading : Reading
reading = record {
  matching = by_start;
  unrouted = λ req. http_exception 404 "Not Found";
  unprocessable = λ req. http_exception 422 "Unprocessable Entity";
  task_id = λ req. "a";
  capacity = λ req. none;
  platforms = λ req. "qpublic" ∷ [];
  results = λ req. none;
  status = λ req. none;
  platform = λ req. none;
  port = λ req. none;
  reason = λ req. none;
  upload = λ req. none;
}

abbrev writing : Writing
writing = record {
  work_text = λ r. "{\"tasks\":[…]}";
  success_text = λ b. if b then "{\"success\":true}" else "{\"success\":false}";
  status_text = λ s. s;
  submit_text = λ r. "{}";
  proxy_text = λ p. "{}";
  stored_text = λ s. s;
  error_text = λ s. s;
}

abbrev outside : Outside
outside = record {
  service_url = "http://proxy";
  makes_client = true;
  send = λ call. failed;
  refused_status = λ status. false;
  read_proxy = λ body. none;
  disk = record { makes_directory = true; fate = λ path. unopened; io_error = λ path. "denied" };
  task_error = "unreadable";
}

abbrev settings : Settings
settings = record { internal_api_token = "s3cret"; firebase_project_id = none }

abbrev no_claims : String → Option Claims
no_claims t = none

abbrev no_cors : Cors
no_cors = record { preflight = λ req. none; allow = λ req o. o }

abbrev req_of : String → String → Request
req_of method path = record {
  method = method;
  path = path;
  headers = put (put empty_dict "X-Worker-Token" "s3cret") "X-Worker-ID" "w1";
  query_params = [];
  client_host = some "10.0.0.1";
}

abbrev fetch : Request
fetch = req_of "GET" "/internal/parcel/work"

abbrev report : Request
report = req_of "POST" "/internal/party/tasks/a/complete"

abbrev worker : AuthContext
worker = record no_auth { tier = member internal; worker_id = some "w1" }

fetch_passes : authenticate settings no_claims fetch ≡ pass worker
unfolding authenticate check_worker check_bearer check_internal
fetch_passes = refl

report_passes : authenticate settings no_claims report ≡ pass worker
unfolding authenticate check_worker check_bearer check_internal
report_passes = refl

fetch_is_found : find_route by_start create_parcel_internal_app.routes fetch ≡ some parcel_get_work
unfolding find_route create_parcel_internal_app
fetch_is_found = refl

report_is_found :
    find_route by_start create_party_internal_app.routes report ≡ some party_complete_task
unfolding find_route create_party_internal_app
report_is_found = refl

abbrev store : Store
store = record empty_store {
  lists = λ k.
      if str_eq k "queue:qpublic:p2"
      then "b" ∷ "a" ∷ []
      else if str_eq k "processing:w1"
      then "z" ∷ []
      else [];
}

abbrev world : World (Store × Beyond Table)
world = record {
  redis = (store, record { session = empty_table; files = empty_dict });
  breakers = empty_dict;
  registry = no_metrics;
}

abbrev one_task : WorkResponse
one_task = record { tasks = task "a" ∷ []; retry_after = 5 }

answered :
    (get_work (beside memory (Beyond Table)) plain worker none ("qpublic" ∷ []) world.redis).0
    ≡ work one_task
unfolding get_work str_of pop_tasks pop_platforms pop_priorities take_raw
answered = refl

served_work_can_be_completed_example :
    let serve =
      served memory (table (λ p. false)) plain reading writing outside settings no_claims no_cors in
    let first = serve 5 7 create_parcel_internal_app fetch world in
    let second = serve 8 7 create_party_internal_app report first.1 in
    (first.0.outcome ≡ respond (json_ok "{\"tasks\":[…]}"))
    × (second.0.outcome ≡ respond (json_ok "{\"success\":true}"))
unfolding get_work str_of pop_tasks pop_platforms pop_priorities take_raw
served_work_can_be_completed_example =
    served_work_can_be_completed memory (table (λ p. false)) plain reading writing outside settings
      no_claims no_cors create_parcel_internal_app create_party_internal_app fetch report worker
      worker 5 8 7 7 world one_task (task "a") (inl refl) (inr refl) fetch_passes report_passes refl
      (inl fetch_is_found) (inr report_is_found) refl answered (inl refl)
      (("a", refl), (("z", refl), tt))
