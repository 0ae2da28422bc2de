-- ===== src/Http.antt =====
-- Requests and responses, as far as the gateway's own code reads and makes them (FastAPI and
-- Starlette are not in the repository).
use taxlien_gateway.Prelude.{ℕ, Option, List, String, Dict}

-- `headers` is keyed by the spelling that the code uses; `client_host` is `request.client.host`,
-- and missing where `request.client` is.
pub record Request : Type 0 where
  pub method : String
  pub path : String
  pub headers : Dict String
  pub query_params : List (String × String)
  pub client_host : Option String

pub record HttpResponse : Type 0 where
  pub status_code : ℕ
  pub content : String
  pub media_type : Option String
  pub headers : List (String × String)

-- What a handler comes to: a response, an `HTTPException` with its status and detail, or an
-- exception that nothing catches, which the server answers with status 500.
pub data Outcome : Type 0 where
  respond : HttpResponse → Outcome
  http_exception : ℕ → String → Outcome
  crash : Outcome
