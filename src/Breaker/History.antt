-- ===== src/Breaker/History.antt =====
-- legacy/app/services/http_client.py: the breaker as a function of the calls made so far.
use taxlien_gateway.Prelude.{
  ℕ, suc, ◌+◌, ◌-◌, ◌*◌, ◌≤◌, ◌<◌, ◌≡◌, refl, ◌↔◌, second, false, List, [], ◌∷◌, arith,
}
use taxlien_gateway.Breaker.Invariant.{
  IsConsistent, record_success-IsConsistent, record_failure-IsConsistent, can_execute-IsConsistent,
  closed_of_below,
}
use taxlien_gateway.Breaker.{
  closed, CircuitBreaker, new_breaker, record_success, record_failure, can_execute,
}

pub data Event : Type 0 where
  succeeded : Event
  failed asked : ℕ → Event

unfoldable pub apply : Event → CircuitBreaker → CircuitBreaker
apply succeeded b = record_success b
apply (failed now) b = record_failure now b
apply (asked now) b = (can_execute now b).1

-- A history has its latest event at the head.
unfoldable pub replay : List Event → CircuitBreaker
unfolding apply record_success record_failure can_execute
replay [] = new_breaker
replay (e ∷ h) = apply e (replay h)

-- The specification: the failures since the last success.
abbrev pub streak : List Event → ℕ
streak [] = 0
streak (succeeded ∷ h) = 0
streak (failed now ∷ h) = suc (streak h)
streak (asked now ∷ h) = streak h

-- The time of the latest failure.
abbrev pub last_failed_at : List Event → ℕ
last_failed_at [] = 0
last_failed_at (succeeded ∷ h) = last_failed_at h
last_failed_at (failed now ∷ h) = now
last_failed_at (asked now ∷ h) = last_failed_at h

pub threshold-replay : (h : List Event) → (replay h).threshold ≡ 5
unfolding replay
threshold-replay [] = refl
threshold-replay (succeeded ∷ h) = threshold-replay h
threshold-replay (failed now ∷ h) = threshold-replay h
threshold-replay (asked now ∷ h) = ground (arith, threshold-replay h)

pub recovery_timeout-replay : (h : List Event) → (replay h).recovery_timeout ≡ 30
unfolding replay
recovery_timeout-replay [] = refl
recovery_timeout-replay (succeeded ∷ h) = recovery_timeout-replay h
recovery_timeout-replay (failed now ∷ h) = recovery_timeout-replay h
recovery_timeout-replay (asked now ∷ h) = ground (arith, recovery_timeout-replay h)

pub failures-replay : (h : List Event) → (replay h).failures ≡ streak h
unfolding replay
failures-replay [] = refl
failures-replay (succeeded ∷ h) = refl
failures-replay (failed now ∷ h) = omega (arith, failures-replay h)
failures-replay (asked now ∷ h) = ground (arith, failures-replay h)

pub last_failure_time-replay : (h : List Event) → (replay h).last_failure_time ≡ last_failed_at h
unfolding replay
last_failure_time-replay [] = refl
last_failure_time-replay (succeeded ∷ h) = last_failure_time-replay h
last_failure_time-replay (failed now ∷ h) = refl
last_failure_time-replay (asked now ∷ h) = ground (arith, last_failure_time-replay h)

pub replay-IsConsistent : (h : List Event) → IsConsistent (replay h)
unfolding replay
replay-IsConsistent [] = record {
  positive = omega arith;
  below = λ _. omega arith;
  above = λ n. absurd (n refl);
}
replay-IsConsistent (succeeded ∷ h) = record_success-IsConsistent _ (replay-IsConsistent h)
replay-IsConsistent (failed now ∷ h) = record_failure-IsConsistent now _ (replay-IsConsistent h)
replay-IsConsistent (asked now ∷ h) = can_execute-IsConsistent now _ (replay-IsConsistent h)

-- After any calls from the start, in whatever order successes, failures and requests for admission
-- came, the circuit is closed exactly while fewer than five failures followed the last success.
pub replay-closed_iff : (h : List Event) → ((replay h).state ≡ closed) ↔ (streak h < 5)
replay-closed_iff h =
    let c = replay-IsConsistent h in
    (
      λ e. omega (arith, c.below e, threshold-replay h, failures-replay h),
      λ lt. closed_of_below (replay h) c (omega (arith, threshold-replay h, failures-replay h)),
    )

-- A call is refused only if at least five failures followed the last success, and the latest
-- failure is not more than thirty seconds back.
pub refused_only_after_failures :
    (h : List Event) (now : ℕ)
    → (can_execute now (replay h)).0 ≡ false
    → (5 ≤ streak h) × (now - last_failed_at h ≤ 30 * second)
unfolding can_execute
refused_only_after_failures h now e = ground (
  arith,
  (replay-IsConsistent h).above,
  threshold-replay h,
  recovery_timeout-replay h,
  failures-replay h,
  last_failure_time-replay h,
)

-- If the latest event is a failure, the next call is refused exactly when that failure was at
-- least the fifth in a row and not more than thirty seconds have passed since it. In the state
-- half_open too a single failure is enough.
pub refused_after_failure_iff :
    (h : List Event) (at now : ℕ)
    → ((can_execute now (replay (failed at ∷ h))).0 ≡ false)
      ↔ ((5 ≤ streak h + 1) × (now - at ≤ 30 * second))
unfolding can_execute replay
refused_after_failure_iff h at now = ground (
  arith,
  (replay-IsConsistent h).above,
  threshold-replay h,
  recovery_timeout-replay h,
  failures-replay h,
  last_failure_time-replay h,
)
