-- ===== src/Breaker/Interleaving.antt =====
-- legacy/app/services/http_client.py: `ServiceClient.request` awaits the answer between
-- `can_execute` and the recording of its outcome, so calls of one breaker interleave. A system
-- is the breaker, the number of calls in flight, and the clock.
use taxlien_gateway.Prelude.{ℕ, suc, ◌+◌, ◌*◌, ◌≤◌, ◌≡◌, refl, true, false, arith, second}
use taxlien_gateway.Breaker.{
  open_circuit, CircuitBreaker, record_success, record_failure, can_execute,
}
use taxlien_gateway.Breaker.Invariant.{
  IsConsistent, record_success-IsConsistent, record_failure-IsConsistent, can_execute-IsConsistent,
}

pub record System : Type 0 where
  pub breaker : CircuitBreaker
  pub in_flight : ℕ
  pub clock : ℕ

abbrev begun : System → System
begun s = record s { breaker = (can_execute s.clock s.breaker).1; in_flight = s.in_flight + 1 }

abbrev refused : System → System
refused s = record s { breaker = (can_execute s.clock s.breaker).1 }

abbrev answered : ℕ → System → System
answered n s = record s { breaker = record_success s.breaker; in_flight = n }

abbrev broken : ℕ → System → System
broken n s = record s { breaker = record_failure s.clock s.breaker; in_flight = n }

-- The steps other than an answer below 500.
pub data Setback (s u : System) : Type 0 where
  begin : (can_execute s.clock s.breaker).0 ≡ true → u ≡ begun s → Setback s u
  refuse : (can_execute s.clock s.breaker).0 ≡ false → u ≡ refused s → Setback s u
  break : (n : ℕ) → s.in_flight ≡ suc n → u ≡ broken n s → Setback s u
  wait : (d : ℕ) → u ≡ record s { clock = s.clock + d } → Setback s u

pub data Step (s u : System) : Type 0 where
  setback : Setback s u → Step s u
  answer : (n : ℕ) → s.in_flight ≡ suc n → u ≡ answered n s → Step s u

pub data Reach (s : System) : System → Type 0 where
  here : Reach s s
  next : {t u : System} → Reach s t → Step t u → Reach s u

pub data Setbacks (s : System) : System → Type 0 where
  stay : Setbacks s s
  more : {t u : System} → Setbacks s t → Setback t u → Setbacks s u

-- What holds of every reachable system.
pub record IsSound (s : System) : Type 0 where
  pub consistent : IsConsistent s.breaker
  pub past : s.breaker.last_failure_time ≤ s.clock

Setback-IsSound : (s u : System) → Setback s u → IsSound s → IsSound u
Setback-IsSound s u (begin ok e) h = rw e record {
  consistent = can_execute-IsConsistent s.clock s.breaker h.consistent;
  past = unfold can_execute in ground (arith, h.past);
}
Setback-IsSound s u (refuse bad e) h = rw e record {
  consistent = can_execute-IsConsistent s.clock s.breaker h.consistent;
  past = unfold can_execute in ground (arith, h.past);
}
Setback-IsSound s u (break n m e) h = rw e record {
  consistent = record_failure-IsConsistent s.clock s.breaker h.consistent;
  past = unfold record_failure in ground arith;
}
Setback-IsSound s u (wait d e) h = rw e record { consistent = h.consistent; past = omega arith }

Step-IsSound : (s u : System) → Step s u → IsSound s → IsSound u
Step-IsSound s u (setback b) h = Setback-IsSound s u b h
Step-IsSound s u (answer n m e) h = rw e record {
  consistent = record_success-IsConsistent s.breaker h.consistent;
  past = unfold record_success in h.past;
}

-- However calls interleave, the circuit stays closed exactly below its threshold, and its latest
-- failure is never in the future.
pub Reach-IsSound : (s u : System) → Reach s u → IsSound s → IsSound u
Reach-IsSound s u here h = h
Reach-IsSound s u (next {t} r st) h = Step-IsSound t u st (Reach-IsSound s t r h)

-- What an open circuit keeps while it hears of no success.
record IsShielded (s u : System) : Type 0 where
  tripped : u.breaker.state ≡ open_circuit
  later : s.breaker.last_failure_time ≤ u.breaker.last_failure_time
  timeout : u.breaker.recovery_timeout ≡ s.breaker.recovery_timeout
  fewer : u.in_flight ≤ s.in_flight

clock-Setback : (s u : System) → Setback s u → s.clock ≤ u.clock
clock-Setback s u (begin ok e) = rw e (omega arith)
clock-Setback s u (refuse bad e) = rw e (omega arith)
clock-Setback s u (break n m e) = rw e (omega arith)
clock-Setback s u (wait d e) = rw e (omega arith)

Setback-IsShielded :
    (s t u : System)
    → Setback t u
    → IsSound t
    → u.clock ≤ s.breaker.last_failure_time + s.breaker.recovery_timeout * second
    → IsShielded s t
    → IsShielded s u
Setback-IsShielded s t u (begin ok e) p within h =
    absurd (unfold can_execute in ground (arith, h.tripped, h.later, h.timeout, ap_clock e))
  where
    ap_clock : u ≡ begun t → u.clock ≡ t.clock
    ap_clock e = rw e refl
Setback-IsShielded s t u (refuse bad e) p within h =
    rw e (unfold can_execute in ground (arith, h.tripped, h.later, h.timeout, h.fewer))
Setback-IsShielded s t u (break n m e) p within h =
    rw e (unfold record_failure in ground (arith, h.tripped, h.later, h.timeout, h.fewer, p.past))
Setback-IsShielded s t u (wait d e) p within h =
    rw e record { tripped = h.tripped; later = h.later; timeout = h.timeout; fewer = h.fewer }

Setbacks-IsShielded :
    (s u : System)
    → Setbacks s u
    → IsSound s
    → s.breaker.state ≡ open_circuit
    → u.clock ≤ s.breaker.last_failure_time + s.breaker.recovery_timeout * second
    → IsSound u × IsShielded s u
Setbacks-IsShielded s u stay p e within =
    (p, record { tripped = e; later = omega arith; timeout = refl; fewer = omega arith })
Setbacks-IsShielded s u (more {t} r st) p e within =
    let (q, h) = Setbacks-IsShielded s t r p e (omega (arith, clock-Setback t u st)) in
    (Setback-IsSound t u st q, Setback-IsShielded s t u st q within h)

-- From an open circuit, until the recovery timeout has passed since its latest failure, and as long
-- as no call in flight is answered below 500, however calls interleave: the circuit stays open and
-- no call is let through (the calls in flight only get fewer).
pub open_lets_none_through :
    (s u : System)
    → Setbacks s u
    → IsSound s
    → s.breaker.state ≡ open_circuit
    → u.clock ≤ s.breaker.last_failure_time + s.breaker.recovery_timeout * second
    → (u.breaker.state ≡ open_circuit) × (u.in_flight ≤ s.in_flight)
open_lets_none_through s u r p e within =
    let (_, h) = Setbacks-IsShielded s u r p e within in (h.tripped, h.fewer)
