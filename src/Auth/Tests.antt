-- ===== src/Auth/Tests.antt =====
-- The authentication theorems at concrete requests.
use taxlien_gateway.Prelude.{◌≡◌, ◌⊎◌, refl, none, some, [], String, put, empty_dict, Option}
use taxlien_gateway.Http.{Request}
use taxlien_gateway.Models.Auth.{AuthContext, member, internal, no_auth}
use taxlien_gateway.Auth.{
  Settings, Claims, pass, bearer_token, check_worker, check_bearer, check_internal, authenticate,
}
use taxlien_gateway.Auth.Access.{internal_needs_credential}

abbrev settings : Settings
settings = record { internal_api_token = "s3cret"; firebase_project_id = none }

abbrev no_claims : String → Option Claims
no_claims t = none

abbrev request_with : String → Request
request_with token = record {
  method = "GET";
  path = "/internal/work";
  headers = put empty_dict "X-Worker-Token" token;
  query_params = [];
  client_host = none;
}

abbrev worker : AuthContext
worker = record no_auth { tier = member internal; worker_id = some "unknown" }

worker_passes : authenticate settings no_claims (request_with "s3cret") ≡ pass worker
unfolding authenticate check_worker check_bearer check_internal
worker_passes = refl

internal_needs_credential_example :
    ((request_with "s3cret").headers "X-Worker-Token" ≡ some "s3cret")
    ⊎ ((claims : Claims) × (no_claims
            (bearer_token ((request_with "s3cret").headers "Authorization"))
          ≡ some claims)
        × (claims.tier ≡ some "internal"))
internal_needs_credential_example =
    internal_needs_credential settings no_claims (request_with "s3cret") worker worker_passes refl
