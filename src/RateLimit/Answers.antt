-- ===== src/RateLimit/Answers.antt =====
-- legacy/app/services/ratelimit.py: what a bucket answers when it is new or has been left alone,
-- and that buckets are apart.
use taxlien_gateway.Prelude.{
  ℕ, suc, zero, ◌-◌, ◌*◌, ◌≤◌, ◌≡◌, ◌≢◌, ◌⊎◌, inl, inr, true, none, some, List, String, NoColon,
  field_inj, <>_cancel_left, min, replicate, arith,
}
use taxlien_gateway.Redis.{number, Redis}
use taxlien_gateway.RateLimit.{token, check, is_rate_limited, limit_of, rate_key}
use taxlien_gateway.RateLimit.Level.{new_tokens-fresh, new_tokens-waited, limit_of_bounds}
use taxlien_gateway.RateLimit.Run.{token_bucket-allowed, token_bucket-other}
use taxlien_gateway.RateLimit.Bounds.{Visit, room, visit, visits, visit-allowed, visit-refused}

rate_key-ne :
    (tier identifier tier' identifier' : String)
    → NoColon tier
    → NoColon tier'
    → (tier ≢ tier') ⊎ (identifier ≢ identifier')
    → rate_key tier identifier ≢ rate_key tier' identifier'
rate_key-ne tier i tier' i' h k (inl n) e =
    n (field_inj tier tier' i i' h k (<>_cancel_left "ratelimit:" _ _ e)).0
rate_key-ne tier i tier' i' h k (inr n) e =
    n (field_inj tier tier' i i' h k (<>_cancel_left "ratelimit:" _ _ e)).1

module _ (redis : Redis) (tier identifier : String) where
  open redis use {State, hget}

  abbrev bucket : String
  bucket = rate_key tier identifier

  -- A request is allowed once the rate has given a token since the bucket's latest update: a client
  -- that waits is let through, whatever the bucket held.
  pub waiting_is_enough :
      (now u : ℕ) (s : State)
      → hget s bucket "updated_at" ≡ some (number u)
      → token ≤ (now - u) * (limit_of tier).rate
      → (is_rate_limited redis now identifier tier s).0.0 ≡ true
  unfolding is_rate_limited check
  waiting_is_enough now u s e waited =
      let limit = limit_of tier in
      let filled =
        new_tokens-waited now limit.rate limit.burst u token (hget s bucket "tokens") waited
          (omega (arith, limit_of_bounds tier)) in
      let (answer, _, _) =
        token_bucket-allowed redis bucket now limit.rate limit.burst 1 s
          (rw e (omega (arith, filled))) in
      rw answer

  -- The run of requests at one moment that the bucket meets alone.
  abbrev pub burst_of : ℕ → ℕ → List (Visit State)
  burst_of now n = replicate n (record { now = now; between = λ s. s })

  visits-burst_of :
      (now n k : ℕ) (s : State)
      → room redis tier identifier now s ≡ k * token
      → visits redis tier identifier (burst_of now n) s ≡ min n k
  unfolding visits
  visits-burst_of now zero k s e = omega arith
  visits-burst_of now (suc n) zero s e =
      let v : Visit State = record { now = now; between = λ s. s } in
      let refused = visit-refused redis tier identifier v s (omega (arith, e)) in
      rw refused (omega (arith, visits-burst_of now n zero s e))
  visits-burst_of now (suc n) (suc k) s e =
      let v : Visit State = record { now = now; between = λ s. s } in
      let (ok, left) = visit-allowed redis tier identifier v s (omega (arith, e)) in
      rw ok (
        omega (
          arith,
          visits-burst_of now n k (visit redis tier identifier v s).1 (omega (arith, left, e)),
        ))

  -- Of n requests at one moment that find no state of their bucket, exactly the tier's burst is
  -- allowed, or all n if they are fewer.
  pub fresh_burst :
      (now n : ℕ) (s : State)
      → ((f : String) → hget s bucket f ≡ none)
      → visits redis tier identifier (burst_of now n) s ≡ min n (limit_of tier).burst
  fresh_burst now n s gone =
      let limit = limit_of tier in
      visits-burst_of now n limit.burst s
        (rw (gone "tokens", gone "updated_at") (new_tokens-fresh now limit.rate limit.burst))

-- A request leaves every other bucket as it is: one of another tier, or of another identifier.
-- Tiers hold no ":", as those of `UserTier` do.
pub other_bucket_untouched :
    (redis : Redis) (now : ℕ) (tier identifier tier' identifier' f : String) (s : Redis.State redis)
    → NoColon tier
    → NoColon tier'
    → (tier ≢ tier') ⊎ (identifier ≢ identifier')
    → Redis.hget redis
        (is_rate_limited redis now identifier tier s).1
        (rate_key tier' identifier')
        f
      ≡ Redis.hget redis s (rate_key tier' identifier') f
unfolding is_rate_limited check
other_bucket_untouched redis now tier identifier tier' identifier' f s h k differ =
    let limit = limit_of tier in
    token_bucket-other redis (rate_key tier identifier) now limit.rate limit.burst 1 s
      (rate_key tier' identifier') f (rate_key-ne tier identifier tier' identifier' h k differ)
