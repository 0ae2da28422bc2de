-- ===== src/RateLimit/Run.antt =====
-- legacy/app/services/ratelimit.py: what one check does to a bucket, and sequences of checks.
use taxlien_gateway.Prelude.{
  ℕ, ◌-◌, ◌*◌, ◌/◌, ◌≤◌, ◌<◌, ◌≡◌, ◌≢◌, inl, inr, refl, true, false, some, String, eq_refl,
  eq-false_of_ne, leb, le→leb, lt→leb, Bool-cases,
}
use taxlien_gateway.Redis.{number, Redis}
use taxlien_gateway.RateLimit.{token, new_tokens, token_bucket}

module _ (redis : Redis) where
  open redis use {State, hget, hset, expire, hget-hset, hget-expire}

  -- The units in a bucket.
  abbrev pub level : String → ℕ → ℕ → ℕ → State → ℕ
  level key now rate burst s =
      new_tokens now rate burst (hget s key "tokens") (hget s key "updated_at")

  -- An allowed check takes its tokens and sets the time of the bucket.
  pub token_bucket-allowed :
      (key : String) (now rate burst n : ℕ) (s : State)
      → n * token ≤ level key now rate burst s
      → let r = token_bucket redis key now rate burst n s in
        let left = level key now rate burst s - n * token in
        (r.0 ≡ (true, left / token))
        × (hget r.1 key "tokens" ≡ some (number left))
        × (hget r.1 key "updated_at" ≡ some (number now))
  unfolding token_bucket
  token_bucket-allowed key now rate burst n s le =
      rw (le→leb (n * token) (level key now rate burst s) le)
        (refl, simp (hget-expire, hget-hset, eq_refl), simp (hget-expire, hget-hset, eq_refl))

  -- A refused check changes nothing.
  pub token_bucket-refused :
      (key : String) (now rate burst n : ℕ) (s : State)
      → level key now rate burst s < n * token
      → token_bucket redis key now rate burst n s ≡ ((false, level key now rate burst s / token), s)
  unfolding token_bucket
  token_bucket-refused key now rate burst n s lt =
      rw (lt→leb (n * token) (level key now rate burst s) lt)

  -- Nor does a check touch another bucket.
  pub token_bucket-other :
      (key : String) (now rate burst n : ℕ) (s : State) (other field : String)
      → key ≢ other
      → hget (token_bucket redis key now rate burst n s).1 other field ≡ hget s other field
  unfolding token_bucket
  token_bucket-other key now rate burst n s other field ne =
      elim (Bool-cases (leb (n * token) (level key now rate burst s))) [
        | inl pass ↦ rw pass (simp (hget-expire, hget-hset, eq-false_of_ne ne))
        | inr stop ↦ rw stop
      ]
