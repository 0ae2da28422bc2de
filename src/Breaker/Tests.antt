-- ===== src/Breaker/Tests.antt =====
-- The breaker's theorems at concrete breakers and histories.
use taxlien_gateway.Prelude.{◌≤◌, ◌<◌, ◌≡◌, refl, ◌↔◌, false, List, ◌∷◌, replicate, arith}
use taxlien_gateway.Breaker.{
  open_circuit, closed, CircuitBreaker, new_breaker, record_failure, can_execute,
}
use taxlien_gateway.Breaker.History.{
  Event, succeeded, failed, asked, replay, streak, replay-closed_iff,
}
use taxlien_gateway.Breaker.Interleaving.{
  System, Setback, break, here, next, setback, stay, more, IsSound, Reach-IsSound,
  open_lets_none_through,
}

abbrev four_failures : List Event
four_failures = replicate 4 (failed 7)

abbrev five_failures : List Event
five_failures = failed 9 ∷ four_failures

replay-closed_iff_example : ((replay five_failures).state ≡ closed) ↔ (streak five_failures < 5)
replay-closed_iff_example = replay-closed_iff five_failures

refused_now : (can_execute 10 (replay five_failures)).0 ≡ false
unfolding can_execute replay
refused_now = refl

-- One success lets the circuit close again.
closes_again : (replay (succeeded ∷ five_failures)).state ≡ closed
unfolding replay
closes_again = refl

-- After the timeout one request is let through, and a failure opens the circuit again.
reopens : (replay (failed 40000000 ∷ asked 31000000 ∷ five_failures)).state ≡ open_circuit
unfolding replay
reopens = refl

abbrev tripped : CircuitBreaker
tripped = record new_breaker { state = open_circuit; failures = 5; last_failure_time = 9 }

abbrev two_waiting : System
two_waiting = record { breaker = tripped; in_flight = 2; clock = 10 }

abbrev one_waiting : System
one_waiting = record { breaker = record_failure 10 tripped; in_flight = 1; clock = 10 }

two_waiting-IsSound : IsSound two_waiting
two_waiting-IsSound = record {
  consistent = record { positive = omega arith; below = λ e. cc; above = λ n. omega arith };
  past = omega arith;
}

breaks : Setback two_waiting one_waiting
breaks = break 1 refl refl

Reach-IsSound_example : IsSound one_waiting
Reach-IsSound_example =
    Reach-IsSound two_waiting one_waiting (next here (setback breaks)) two_waiting-IsSound

open_lets_none_through_example :
    (one_waiting.breaker.state ≡ open_circuit) × (one_waiting.in_flight ≤ two_waiting.in_flight)
open_lets_none_through_example =
    open_lets_none_through two_waiting one_waiting (more stay breaks) two_waiting-IsSound refl
      (omega arith)
