-- ===== src/RateLimit/Level.antt =====
-- legacy/app/services/ratelimit.py: how the contents of a bucket change with time.
use taxlien_gateway.Prelude.{
  ℕ, ◌+◌, ◌-◌, ◌*◌, ◌≤◌, ◌≡◌, min, second, Option, none, some, String, arith,
}
use taxlien_gateway.Redis.{Value, number, text}
use taxlien_gateway.RateLimit.{token, new_tokens, limit_of}

pub times_mono : (a b r : ℕ) → a ≤ b → a * r ≤ b * r
times_mono a b r h = grind arith

refill : (cap x d d' w r : ℕ) → d' ≤ d + w → min cap (x + d' * r) ≤ min cap (x + d * r) + w * r
refill cap x d d' w r h = omega (arith, times_mono d' (d + w) r h)

-- Waiting refills by the rate at most.
pub new_tokens-later :
    (t t' rate burst : ℕ) (a b : Option Value)
    → t ≤ t'
    → new_tokens t' rate burst a b ≤ new_tokens t rate burst a b + (t' - t) * rate
unfolding new_tokens
new_tokens-later t t' rate burst a none le = refill _ _ _ _ (t' - t) rate (omega arith)
new_tokens-later t t' rate burst a (some (number u)) le =
    refill _ _ (t - u) (t' - u) (t' - t) rate (omega arith)
new_tokens-later t t' rate burst a (some (text s)) le =
    refill _ _ (t - t) (t' - t') (t' - t) rate (omega arith)

pub new_tokens-le-burst :
    (t rate burst : ℕ) (a b : Option Value) → new_tokens t rate burst a b ≤ burst * token
unfolding new_tokens
new_tokens-le-burst t rate burst a b = omega arith

-- A bucket with no state is full.
pub new_tokens-fresh : (t rate burst : ℕ) → new_tokens t rate burst none none ≡ burst * token
unfolding new_tokens
new_tokens-fresh t rate burst = omega arith

-- A bucket that was written just now holds what was written, if that is within the burst.
pub new_tokens-written :
    (t rate burst n : ℕ)
    → n ≤ burst * token
    → new_tokens t rate burst (some (number n)) (some (number t)) ≡ n
unfolding new_tokens
new_tokens-written t rate burst n le =
    let nothing : (t - t) * rate ≡ 0 = grind arith in omega (arith, nothing)

-- A bucket that has been left alone for long enough holds at least what the rate has given.
pub new_tokens-waited :
    (t rate burst u n : ℕ) (a : Option Value)
    → n ≤ (t - u) * rate
    → n ≤ burst * token
    → n ≤ new_tokens t rate burst a (some (number u))
unfolding new_tokens
new_tokens-waited t rate burst u n a h k = omega arith

-- Every limit has a burst of at least one token, and fills an empty bucket within an hour.
pub limit_of_bounds :
    (tier : String)
    → (1 ≤ (limit_of tier).rate)
      × (5 ≤ (limit_of tier).burst)
      × ((limit_of tier).burst * token ≤ 3600 * second * (limit_of tier).rate)
unfolding limit_of
limit_of_bounds tier = ground arith
