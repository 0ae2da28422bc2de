-- ===== src/ServiceClient/Failing.antt =====
-- legacy/app/services/http_client.py: services that fail, and the breakers that clients share.
use taxlien_gateway.Prelude.{
  ℕ, suc, ◌+◌, ◌-◌, ◌*◌, ◌≤◌, ◌≡◌, refl, true, false, List, [], ◌∷◌, String, put, put_self, second,
  length, arith,
}
use taxlien_gateway.Breaker.{closed, open_circuit, CircuitBreaker, record_failure, can_execute}
use taxlien_gateway.ServiceClient.{
  Breakers, ServiceClient, Call, Reply, answered, request_error, timeout_error, other_error,
  circuit_is_open, breaker_of, settle, request,
}

pub breaker_of-put_self :
    (bs : Breakers) (name : String) (b : CircuitBreaker) → breaker_of (put bs name b) name ≡ b
unfolding breaker_of
breaker_of-put_self bs name b = ground (arith, put_self bs name b)

-- A request that the circuit refuses reaches no upstream service: it raises the same exception and
-- leaves the same breakers whatever the service would have answered and other tasks have done.
pub refused_sends_nothing :
    (started ended ended' : ℕ) (meanwhile meanwhile' : Breakers → Breakers)
    (send send' : ServiceClient → Call → Reply) (c : ServiceClient) (call : Call) (bs : Breakers)
    → (can_execute started (breaker_of bs c.service_name)).0 ≡ false
    → ((request started ended meanwhile send c call bs).0 ≡ circuit_is_open)
      × (request started ended meanwhile send c call bs
          ≡ request started ended' meanwhile' send' c call bs)
unfolding request
refused_sends_nothing started ended ended' meanwhile meanwhile' send send' c call bs no_go =
    ground (arith, no_go)

-- A reply that counts as a failure: a status from 500 on, a transport error or a timeout.
abbrev pub Fails : Reply → Type 0
Fails (answered r) = 500 ≤ r.status_code
Fails request_error = Unit
Fails timeout_error = Unit
Fails other_error = ⊥

pub settle-Fails :
    (now : ℕ) (r : Reply) (b : CircuitBreaker) → Fails r → (settle now r b).1 ≡ record_failure now b
unfolding settle
settle-Fails now (answered r) b f = ground arith
settle-Fails now request_error b f = refl
settle-Fails now timeout_error b f = refl
settle-Fails now other_error b f = absurd f

-- One call after another to a service, each with its client, its times and its reply.
pub record Attempt : Type 0 where
  pub client : ServiceClient
  pub call : Call
  pub started : ℕ
  pub ended : ℕ
  pub reply : Reply

pub attempt : Attempt → Breakers → Breakers
attempt a bs = (request a.started a.ended (λ d. d) (λ _ _. a.reply) a.client a.call bs).1

pub attempts : List Attempt → Breakers → Breakers
attempts [] bs = bs
attempts (a ∷ rest) bs = attempts rest (attempt a bs)

-- Every attempt is a call of the service that fails.
abbrev pub AllFail : String → List Attempt → Type 0
AllFail name [] = Unit
AllFail name (a ∷ rest) = (a.client.service_name ≡ name) × Fails a.reply × AllFail name rest

-- When the last of some attempts ended.
abbrev pub last_ended : Attempt → List Attempt → ℕ
last_ended a [] = a.ended
last_ended a (b ∷ rest) = last_ended b rest

can_execute-closed :
    (now : ℕ) (b : CircuitBreaker) → b.state ≡ closed → can_execute now b ≡ (true, b)
unfolding can_execute
can_execute-closed now b e = ground arith

breaker_of-attempt :
    (a : Attempt) (bs : Breakers)
    → (breaker_of bs a.client.service_name).state ≡ closed
    → Fails a.reply
    → breaker_of (attempt a bs) a.client.service_name
      ≡ record_failure a.ended (breaker_of bs a.client.service_name)
unfolding attempt request
breaker_of-attempt a bs e f =
    rw
      (
        attempt,
        request,
        can_execute-closed a.started (breaker_of bs a.client.service_name) e,
        breaker_of-put_self _ a.client.service_name,
        breaker_of-put_self bs a.client.service_name,
      )
      (settle-Fails a.ended a.reply _ f)

breaker_of-attempt_at :
    (a : Attempt) (bs : Breakers) (name : String)
    → a.client.service_name ≡ name
    → (breaker_of bs name).state ≡ closed
    → Fails a.reply
    → breaker_of (attempt a bs) name ≡ record_failure a.ended (breaker_of bs name)
breaker_of-attempt_at a bs name same = rw (← same) (breaker_of-attempt a bs)

-- The breaker after attempts that use up what the threshold leaves.
record IsTripped (t timeout : ℕ) (b : CircuitBreaker) : Type 0 where
  tripped : b.state ≡ open_circuit
  failed_at : b.last_failure_time ≡ t
  recovers : b.recovery_timeout ≡ timeout

attempts_trip :
    (name : String) (a : Attempt) (rest : List Attempt) (bs : Breakers)
    → AllFail name (a ∷ rest)
    → (breaker_of bs name).state ≡ closed
    → (breaker_of bs name).failures + suc (length rest) ≡ (breaker_of bs name).threshold
    → IsTripped
        (last_ended a rest)
        (breaker_of bs name).recovery_timeout
        (breaker_of (attempts (a ∷ rest) bs) name)
unfolding attempts record_failure
attempts_trip name a [] bs (same, f, _) e room =
    let step = breaker_of-attempt_at a bs name same e f in
    record {
      tripped = ground (arith, step);
      failed_at = ground (arith, step);
      recovers = ground (arith, step);
    }
attempts_trip name a (b ∷ rest) bs (same, f, fs) e room =
    let step = breaker_of-attempt_at a bs name same e f in
    let later =
      attempts_trip name b rest (attempt a bs) fs (ground (arith, step)) (ground (arith, step)) in
    record {
      tripped = later.tripped;
      failed_at = later.failed_at;
      recovers = ground (arith, step, later.recovers);
    }

-- Once calls of a service have failed as often in a row as its closed breaker's threshold still
-- allows, through whichever clients, then every client of that service is refused, unless more
-- than the recovery timeout has passed since the last of them ended.
pub failing_service_is_shut_off :
    (name : String) (a : Attempt) (rest : List Attempt) (bs : Breakers) (c : ServiceClient)
    (call : Call) (started ended : ℕ) (meanwhile : Breakers → Breakers)
    (send : ServiceClient → Call → Reply)
    → AllFail name (a ∷ rest)
    → (breaker_of bs name).state ≡ closed
    → (breaker_of bs name).failures + suc (length rest) ≡ (breaker_of bs name).threshold
    → c.service_name ≡ name
    → started - last_ended a rest ≤ (breaker_of bs name).recovery_timeout * second
    → (request started ended meanwhile send c call (attempts (a ∷ rest) bs)).0 ≡ circuit_is_open
unfolding request can_execute
failing_service_is_shut_off name a rest bs c call started ended meanwhile send fs e room same soon =
    let t = attempts_trip name a rest bs fs e room in
    rw same (ground (arith, t.tripped, t.failed_at, t.recovers))
