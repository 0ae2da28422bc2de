-- ===== src/Breaker/Invariant.antt =====
-- legacy/app/services/http_client.py: what every method of `CircuitBreaker` keeps.
use taxlien_gateway.Prelude.{ℕ, ◌≤◌, ◌<◌, ◌≡◌, ◌≢◌, refl, ◌⊎◌, inl, inr, arith}
use taxlien_gateway.Breaker.{
  CircuitState, closed, open_circuit, half_open, CircuitBreaker, record_success, record_failure,
  can_execute,
}

State-cases : (s : CircuitState) → (s ≡ closed) ⊎ (s ≢ closed)
State-cases closed = inl refl
State-cases open_circuit = inr (λ e. cc)
State-cases half_open = inr (λ e. cc)

-- The circuit is closed exactly below the threshold.
pub record IsConsistent (b : CircuitBreaker) : Type 0 where
  pub positive : 0 < b.threshold
  pub below : b.state ≡ closed → b.failures < b.threshold
  pub above : b.state ≢ closed → b.threshold ≤ b.failures

pub closed_of_below :
    (b : CircuitBreaker) → IsConsistent b → b.failures < b.threshold → b.state ≡ closed
closed_of_below b c lt = elim (State-cases b.state) [
  | inl e ↦ e
  | inr n ↦ absurd (omega (arith, c.above n))
]

pub record_success-IsConsistent :
    (b : CircuitBreaker) → IsConsistent b → IsConsistent (record_success b)
unfolding record_success
record_success-IsConsistent b c = record {
  positive = c.positive;
  below = λ _. c.positive;
  above = λ n. ground arith;
}

pub record_failure-IsConsistent :
    (now : ℕ) (b : CircuitBreaker) → IsConsistent b → IsConsistent (record_failure now b)
unfolding record_failure
record_failure-IsConsistent now b c = record {
  positive = c.positive;
  below = λ e. ground (arith, c.below);
  above = λ n. ground (arith, c.above);
}

pub can_execute-IsConsistent :
    (now : ℕ) (b : CircuitBreaker) → IsConsistent b → IsConsistent (can_execute now b).1
unfolding can_execute
can_execute-IsConsistent now b c = record {
  positive = ground (arith, c.positive);
  below = λ e. ground (arith, c.below);
  above = λ n. ground (arith, c.above);
}
