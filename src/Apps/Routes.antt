-- ===== src/Apps/Routes.antt =====
-- legacy/app/api and legacy/app/apps: the routes. Which paths a template such as
-- "/v1/properties/{parcel_id}" stands for is FastAPI's and a parameter.
use taxlien_gateway.Prelude.{
  Bool, true, ◌&&◌, Option, none, some, ◌≡◌, List, [], ◌∷◌, ◌++◌, String, str_eq, starts_with, ◌<>◌,
  if◌then◌else◌,
}
use taxlien_gateway.Http.{Request}

-- A template by its pieces: texts, and the parameters between them.
pub data Piece : Type 0 where
  fixed parameter : String → Piece

abbrev pub Template : Type 0
Template = List Piece

-- What stands before the first parameter.
abbrev pub start_of : Template → String
start_of [] = ""
start_of (fixed s ∷ rest) = s <> start_of rest
start_of (parameter name ∷ rest) = ""

-- The functions that the routes lead to. Those of api/internal/parcel and api/internal/party have
-- the same names.
pub data Endpoint : Type 0 where
  get_property search_properties get_predictions_batch search_by_address search_by_owner
        get_top_list get_usage :
      Endpoint
  parcel_get_work parcel_submit_results parcel_complete_task parcel_fail_task : Endpoint
  party_get_work party_submit_results party_complete_task party_fail_task : Endpoint
  worker_heartbeat create_proxy rotate_proxy upload_raw_file : Endpoint
  public_health parcel_health party_health : Endpoint

pub record Route : Type 0 where
  pub method : String
  pub template : Template
  pub endpoint : Endpoint

abbrev pub get_route : Template → Endpoint → Route
get_route template e = record { method = "GET"; template = template; endpoint = e }

abbrev post_route : Template → Endpoint → Route
post_route template e = record { method = "POST"; template = template; endpoint = e }

-- `include_router(router, prefix=…)`, and the prefix of a router itself.
abbrev pub included : String → List Route → List Route
included prefix [] = []
included prefix (r ∷ rs) = record r { template = fixed prefix ∷ r.template } ∷ included prefix rs

abbrev pub v1_router : List Route
v1_router = included "/v1" (
    (get_route (fixed "/properties/" ∷ parameter "parcel_id" ∷ []) get_property
      ∷ get_route (fixed "/properties" ∷ []) search_properties
      ∷ [])
    ++ (post_route (fixed "/predictions/batch" ∷ []) get_predictions_batch ∷ [])
    ++ included "/search" (
        get_route (fixed "/address" ∷ []) search_by_address
        ∷ get_route (fixed "/owner" ∷ []) search_by_owner
        ∷ [])
    ++ included "/top-lists" (get_route (fixed "/" ∷ parameter "strategy" ∷ []) get_top_list ∷ [])
    ++ included "/usage" (get_route [] get_usage ∷ []))

abbrev pub parcel_router : List Route
parcel_router = included "/parcel" (
    (get_route (fixed "/work" ∷ []) parcel_get_work ∷ [])
    ++ (post_route (fixed "/results" ∷ []) parcel_submit_results ∷ [])
    ++ (post_route (fixed "/tasks/" ∷ parameter "task_id" ∷ fixed "/complete" ∷ [])
          parcel_complete_task
        ∷ post_route (fixed "/tasks/" ∷ parameter "task_id" ∷ fixed "/fail" ∷ []) parcel_fail_task
        ∷ []))

abbrev pub party_router : List Route
party_router = included "/party" (
    (get_route (fixed "/work" ∷ []) party_get_work ∷ [])
    ++ (post_route (fixed "/results" ∷ []) party_submit_results ∷ [])
    ++ (post_route (fixed "/tasks/" ∷ parameter "task_id" ∷ fixed "/complete" ∷ [])
          party_complete_task
        ∷ post_route (fixed "/tasks/" ∷ parameter "task_id" ∷ fixed "/fail" ∷ []) party_fail_task
        ∷ []))

abbrev pub internal_endpoints : List Route
internal_endpoints =
    parcel_router
    ++ party_router
    ++ (post_route (fixed "/heartbeat" ∷ []) worker_heartbeat ∷ [])
    ++ (get_route (fixed "/proxy/create" ∷ []) create_proxy
        ∷ post_route (fixed "/proxy/" ∷ parameter "port" ∷ fixed "/rotate" ∷ []) rotate_proxy
        ∷ [])
    ++ (post_route (fixed "/raw-files" ∷ []) upload_raw_file ∷ [])

abbrev pub internal_router : List Route
internal_router = included "/internal" internal_endpoints

-- Which paths a template stands for: they begin with what stands before its first parameter.
pub record Matching : Type 0 where
  pub matches : Template → String → Bool
  pub matches-start :
      (t : Template) (path : String) → matches t path ≡ true → starts_with path (start_of t) ≡ true

-- The first route for a request's method and path. Without one the answer has status 404 or 405.
unfoldable pub find_route : Matching → List Route → Request → Option Endpoint
find_route m [] req = none
find_route m (r ∷ rs) req =
    let rest = find_route m rs req in
    if str_eq r.method req.method && m.matches r.template req.path then some r.endpoint else rest
