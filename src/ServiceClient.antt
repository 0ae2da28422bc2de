-- ===== src/ServiceClient.antt =====
-- legacy/app/services/http_client.py: the class `ServiceClient`.
-- httpx is not in the repository: the answer of an upstream call is an argument (`Reply`), and so
-- is what other tasks do to the breakers while the call waits.
pub mod Failing
mod Tests
use taxlien_gateway.Prelude.{
  ℕ, ◌*◌, Bool, true, false, Option, none, some, List, String, Dict, put, leb, second,
  if◌then◌else◌,
}
use taxlien_gateway.Breaker.{
  CircuitBreaker, new_breaker, record_success, record_failure, can_execute,
}

abbrev pub Breakers : Type 0
Breakers = Dict CircuitBreaker

pub record ServiceClient : Type 0 where
  pub base_url : String
  pub service_name : String

abbrev pub Pairs : Type 0
Pairs = List (String × String)

-- One call of `request`; a body is its JSON text.
pub record Call : Type 0 where
  pub method : String
  pub path : String
  pub params : Option Pairs
  pub json : Option String
  pub headers : Option Pairs
  pub timeout : ℕ

abbrev pub default_timeout : ℕ
default_timeout = 30 * second

-- What the gateway reads of an httpx response; `media_type` is `headers.get("Content-Type")`.
pub record Response : Type 0 where
  pub status_code : ℕ
  pub content : String
  pub media_type : Option String

-- What httpx gives back: a response, one of the two caught exceptions, or any other.
pub data Reply : Type 0 where
  answered : Response → Reply
  request_error timeout_error other_error : Reply

-- What `request` gives its caller: a response or an exception.
pub data Result : Type 0 where
  returned : Response → Result
  circuit_is_open raised_request_error raised_timeout raised_other : Result

-- `__init__`: a client of a service that has a breaker shares it.
unfoldable pub new_client : String → String → Breakers → ServiceClient × Breakers
new_client base_url service_name breakers = (
  record { base_url = base_url; service_name = service_name },
  elim (breakers service_name) [ none ↦ put breakers service_name new_breaker | some b ↦ breakers ],
)

-- `self.breaker`: the entry that `__init__` has put under the name.
unfoldable pub breaker_of : Breakers → String → CircuitBreaker
breaker_of breakers name = elim (breakers name) [ none ↦ new_breaker | some b ↦ b ]

unfoldable pub settle : ℕ → Reply → CircuitBreaker → Result × CircuitBreaker
settle now (answered r) b =
    (returned r, if leb 500 r.status_code then record_failure now b else record_success b)
settle now request_error b = (raised_request_error, record_failure now b)
settle now timeout_error b = (raised_timeout, record_failure now b)
settle now other_error b = (raised_other, b)

-- `request` at the time `started`, whose answer comes at `ended`; `meanwhile` is what other tasks
-- do to the breakers between the two.
module _ (started ended : ℕ) (meanwhile : Breakers → Breakers)
    (send : ServiceClient → Call → Reply) where
  unfoldable pub request : ServiceClient → Call → Breakers → Result × Breakers
  unfolding breaker_of settle
  request client call breakers =
      let name = client.service_name in
      let (ok, asked) = can_execute started (breaker_of breakers name) in
      if ok
      then (let waited = meanwhile (put breakers name asked) in
          let (result, b) = settle ended (send client call) (breaker_of waited name) in
          (result, put waited name b))
      else (circuit_is_open, put breakers name asked)
