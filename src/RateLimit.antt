-- ===== src/RateLimit.antt =====
-- legacy/app/services/ratelimit.py: the token bucket, a script that Redis runs as one command, and
-- the limits of the tiers.
-- Times are microseconds. Tokens are counted in units of which `token` make one, so that a rate of
-- 0.1 tokens per second is 1 unit per microsecond and all amounts are whole; the rounding of
-- floating point numbers is not modelled.
pub mod Level
pub mod Run
pub mod Bounds
pub mod Answers
pub mod Ticking
mod Tests
use taxlien_gateway.Prelude.{
  ℕ, ◌+◌, ◌-◌, ◌*◌, ◌/◌, min, Bool, true, false, Option, none, some, String, str_eq, ◌<>◌, leb,
  if◌then◌else◌,
}
use taxlien_gateway.Redis.{Value, number, text, Redis}

abbrev pub token : ℕ
token = 10000000

-- Lua's `tonumber(x) or d`.
abbrev pub number_or : ℕ → Option Value → ℕ
number_or d none = d
number_or d (some (number n)) = n
number_or d (some (text s)) = d

-- What a bucket holds at a time: full at the start, refilled at the rate, never above the burst.
-- `math.max(0, now - last_updated)` is the difference of ℕ.
unfoldable pub new_tokens : ℕ → ℕ → ℕ → Option Value → Option Value → ℕ
new_tokens now rate burst tokens updated_at =
    let last_tokens = number_or (burst * token) tokens in
    let last_updated = number_or now updated_at in
    let delta = now - last_updated in min (burst * token) (last_tokens + delta * rate)

pub record Limit : Type 0 where
  pub rate : ℕ
  pub burst : ℕ

abbrev pub per_token : ℕ → ℕ → Limit
per_token rate burst = record { rate = rate; burst = burst }

abbrev pub anonymous_limit : Limit
anonymous_limit = per_token 1 5

-- `limits.get(tier, limits["anonymous"])`
unfoldable pub limit_of : String → Limit
limit_of tier =
    if str_eq tier "anonymous"
    then anonymous_limit
    else if str_eq tier "free"
    then per_token 5 10
    else if str_eq tier "starter"
    then per_token 10 20
    else if str_eq tier "premium"
    then per_token 20 50
    else if str_eq tier "internal"
    then per_token 100 100
    else anonymous_limit

abbrev pub rate_key : String → String → String
rate_key tier identifier = "ratelimit:" <> tier <> ":" <> identifier

-- The class `RateLimiter`: whether its script is registered with Redis, which changes nothing there.
pub record RateLimiter : Type 0 where
  pub script : Bool

abbrev pub new_rate_limiter : RateLimiter
new_rate_limiter = record { script = false }

abbrev registered : RateLimiter → RateLimiter
registered limiter = if limiter.script then limiter else record { script = true }

module _ (redis : Redis) where
  open redis use {State, hget, hset, expire}

  -- TOKEN_BUCKET_LUA
  unfoldable pub token_bucket : String → ℕ → ℕ → ℕ → ℕ → State → (Bool × ℕ) × State
  token_bucket key now rate burst requested s =
      let available = new_tokens now rate burst (hget s key "tokens") (hget s key "updated_at") in
      let left = available - requested * token in
      if leb (requested * token) available
      then (
        (true, left / token),
        expire key 3600 (hset key "updated_at" (number now) (hset key "tokens" (number left) s)),
      )
      else ((false, available / token), s)

  -- `RateLimiter.check`, with the limiter that has the script.
  unfoldable pub check :
      RateLimiter → ℕ → String → ℕ → ℕ → ℕ → State → ((Bool × ℕ) × State) × RateLimiter
  check limiter now key rate burst requested s =
      (token_bucket key now rate burst requested s, registered limiter)

  -- The first result says whether the request is allowed.
  unfoldable pub is_rate_limited : ℕ → String → String → State → (Bool × ℕ) × State
  is_rate_limited now identifier tier s =
      let limit = limit_of tier in
      (check new_rate_limiter now (rate_key tier identifier) limit.rate limit.burst 1 s).0
