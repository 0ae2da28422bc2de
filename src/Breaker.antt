-- ===== src/Breaker.antt =====
-- legacy/app/services/http_client.py: the class `CircuitBreaker`.
-- `now` is the value of `time.time()`, in microseconds; the timeout is in seconds. The name of the
-- breaker, which only the log lines read, is left out of the state.
pub mod Invariant
pub mod History
pub mod Interleaving
mod Tests
use taxlien_gateway.Prelude.{ℕ, ◌+◌, ◌-◌, ◌*◌, second, Bool, true, false, leb, ltb, if◌then◌else◌}

pub data CircuitState : Type 0 where
  closed open_circuit half_open : CircuitState

pub record CircuitBreaker : Type 0 where
  pub threshold : ℕ
  pub recovery_timeout : ℕ
  pub state : CircuitState
  pub failures : ℕ
  pub last_failure_time : ℕ

-- `__init__` with its defaults
abbrev pub new_breaker : CircuitBreaker
new_breaker = record {
  threshold = 5;
  recovery_timeout = 30;
  state = closed;
  failures = 0;
  last_failure_time = 0;
}

unfoldable pub record_success : CircuitBreaker → CircuitBreaker
record_success b = record b { failures = 0; state = closed }

unfoldable pub record_failure : ℕ → CircuitBreaker → CircuitBreaker
record_failure now b =
    let failures = b.failures + 1 in
    record b {
      failures = failures;
      last_failure_time = now;
      state = if leb b.threshold failures then open_circuit else b.state;
    }

admit_in : CircuitState → ℕ → CircuitBreaker → Bool × CircuitBreaker
admit_in closed now b = (true, b)
admit_in open_circuit now b =
    if ltb (b.recovery_timeout * second) (now - b.last_failure_time)
    then (true, record b { state = half_open })
    else (false, b)
admit_in half_open now b = (true, b)

-- The answer, and the breaker afterwards. A clock that has gone back gives a negative difference
-- in the source and 0 here: both are below the timeout.
unfoldable pub can_execute : ℕ → CircuitBreaker → Bool × CircuitBreaker
unfolding admit_in
can_execute now b = admit_in b.state now b
