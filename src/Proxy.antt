-- ===== src/Proxy.antt =====
-- legacy/app/api/internal/proxy.py: workers get proxies from the proxy service.
-- httpx and pydantic are not in the repository: the reply of the proxy service, what
-- `raise_for_status` refuses, and what `ProxyInfo(**response.json())` reads of a body are parameters.
use taxlien_gateway.Prelude.{
  ℕ, ◌*◌, Bool, Option, none, some, List, [], ◌∷◌, String, str_of, ◌<>◌, second, if◌then◌else◌,
}
use taxlien_gateway.Models.Worker.{ProxyInfo}

-- A call of the proxy service; it has no body.
pub record ProxyCall : Type 0 where
  pub method : String
  pub url : String
  pub params : List (String × String)
  pub timeout : ℕ

-- What a call of httpx comes to: a status and a body, an `Exception`, or another exception, such as
-- a cancellation.
pub data ProxyReply : Type 0 where
  replied : ℕ → String → ProxyReply
  failed : ProxyReply
  stopped : ProxyReply

-- What a handler returns, the HTTPException that it raises, or another exception.
pub data ProxyAnswer : Type 0 where
  proxy : ProxyInfo → ProxyAnswer
  unavailable : ℕ → String → ProxyAnswer
  raised : ProxyAnswer

-- `PROXY_SERVICE_URL` is a setting; `makes_client` says that making, entering and leaving
-- `httpx.AsyncClient()`, which stand outside the `try`, raise nothing.
module _ (service_url : String) (makes_client : Bool) (send : ProxyCall → ProxyReply)
    (refused_status : ℕ → Bool) (read_proxy : String → Option ProxyInfo) where
  abbrev pub proxy_unavailable : ProxyAnswer
  proxy_unavailable = unavailable 502 "Proxy service unavailable"

  -- The body of the two `try` blocks after the call, and their `except Exception`, which does not
  -- catch a cancellation.
  abbrev pub read_reply : ProxyReply → ProxyAnswer
  read_reply failed = proxy_unavailable
  read_reply stopped = raised
  read_reply (replied status body) =
      if refused_status status
      then proxy_unavailable
      else elim (read_proxy body) [ none ↦ proxy_unavailable | some info ↦ proxy info ]

  abbrev pub create_call : String → ProxyCall
  create_call platform = record {
    method = "GET";
    url = service_url <> "/create";
    params = ("platform", platform) ∷ [];
    timeout = 10 * second;
  }

  unfoldable pub create_proxy : String → ProxyAnswer
  create_proxy platform = if makes_client then read_reply (send (create_call platform)) else raised

  -- The reason is "banned" where none is given.
  abbrev pub reason_of : Option String → String
  reason_of none = "banned"
  reason_of (some reason) = reason

  abbrev pub rotate_call : ℕ → String → Option String → ProxyCall
  rotate_call port platform reason = record {
    method = "POST";
    url = service_url <> "/rotate/" <> str_of port;
    params = ("platform", platform) ∷ ("reason", reason_of reason) ∷ [];
    timeout = 10 * second;
  }

  -- A port is taken to be a natural number.
  unfoldable pub rotate_proxy : ℕ → String → Option String → ProxyAnswer
  rotate_proxy port platform reason =
      if makes_client then read_reply (send (rotate_call port platform reason)) else raised
