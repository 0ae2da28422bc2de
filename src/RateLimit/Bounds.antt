-- ===== src/RateLimit/Bounds.antt =====
-- legacy/app/services/ratelimit.py: how many requests a bucket lets through.
use taxlien_gateway.Prelude.{
  ℕ, suc, ◌+◌, ◌-◌, ◌*◌, ◌≤◌, ◌<◌, ◌≡◌, inl, inr, refl, second, Bool, true, false, none, some, List,
  [], ◌∷◌, String, leb, Bool-cases, leb→le, not-leb→lt, if◌then◌else◌, arith,
}
use taxlien_gateway.Redis.{number, Redis}
use taxlien_gateway.RateLimit.{token, token_bucket, check, is_rate_limited, limit_of, rate_key}
use taxlien_gateway.RateLimit.Level.{
  new_tokens-later, new_tokens-le-burst, new_tokens-fresh, new_tokens-written, new_tokens-waited,
  limit_of_bounds, times_mono,
}
use taxlien_gateway.RateLimit.Run.{level, token_bucket-allowed, token_bucket-refused}

-- A request at a time, and what happens to the store between the one before and it.
pub record Visit (S : Type 0) : Type 0 where
  pub now : ℕ
  pub between : S → S

module _ (redis : Redis) (tier identifier : String) where
  open redis use {State, hget}

  abbrev pub key : String
  key = rate_key tier identifier

  abbrev pub room : ℕ → State → ℕ
  room now s = level redis key now (limit_of tier).rate (limit_of tier).burst s

  -- The store after one request, and whether it was allowed.
  unfoldable pub visit : Visit State → State → Bool × State
  visit v s =
      let (answer, s') = is_rate_limited redis v.now identifier tier (v.between s) in (answer.0, s')

  -- How many of the requests are allowed.
  unfoldable pub visits : List (Visit State) → State → ℕ
  visits [] s = 0
  visits (v ∷ vs) s = let rest = visits vs (visit v s).1 in if (visit v s).0 then suc rest else rest

  -- Between two requests the bucket is left alone, or it expires, which takes an hour since its
  -- latest update. Times do not go back.
  pub data Spared (now : ℕ) (s s' : State) : Type 0 where
    untouched : ((f : String) → hget s' key f ≡ hget s key f) → Spared now s s'
    expired :
        (u : ℕ)
        → hget s key "updated_at" ≡ some (number u)
        → 3600 * second ≤ now - u
        → ((f : String) → hget s' key f ≡ none)
        → Spared now s s'

  abbrev pub InOrder : ℕ → List (Visit State) → State → Type 0
  InOrder t [] s = Unit
  InOrder t (v ∷ vs) s = (t ≤ v.now) × Spared v.now s (v.between s) × InOrder v.now vs (visit v s).1

  abbrev pub last_visit : ℕ → List (Visit State) → ℕ
  last_visit t [] = t
  last_visit t (v ∷ vs) = last_visit v.now vs

  last_visit-ge :
      (t : ℕ) (vs : List (Visit State)) (s : State) → InOrder t vs s → t ≤ last_visit t vs
  last_visit-ge t [] s o = omega arith
  last_visit-ge t (v ∷ vs) s (le, _, o) = omega (arith, last_visit-ge v.now vs (visit v s).1 o)

  -- A bucket that expires was full: its expiry changes nothing.
  pub room-Spared : (now : ℕ) (s s' : State) → Spared now s s' → room now s' ≡ room now s
  room-Spared now s s' (untouched same) = rw (same "tokens", same "updated_at")
  room-Spared now s s' (expired u e old gone) =
      let rate = (limit_of tier).rate in
      let burst = (limit_of tier).burst in
      let full = new_tokens-fresh now rate burst in
      let enough = times_mono (3600 * second) (now - u) rate old in
      let filled =
        new_tokens-waited now rate burst u (burst * token) (hget s key "tokens")
          (omega (arith, enough, (limit_of_bounds tier).2)) (omega arith) in
      let capped = new_tokens-le-burst now rate burst (hget s key "tokens") (some (number u)) in
      rw (gone "tokens", gone "updated_at", e) (omega (arith, full, filled, capped))

  visit_lem :
      (v : Visit State) (s : State)
      → let limit = limit_of tier in
        let r = token_bucket redis key v.now limit.rate limit.burst 1 (v.between s) in
        visit v s ≡ (r.0.0, r.1)
  unfolding visit is_rate_limited check
  visit_lem v s = refl

  pub visit-allowed :
      (v : Visit State) (s : State)
      → token ≤ room v.now (v.between s)
      → ((visit v s).0 ≡ true) × (room v.now (visit v s).1 + token ≡ room v.now (v.between s))
  visit-allowed v s enough =
      let limit = limit_of tier in
      let (answer, tokens, updated) =
        token_bucket-allowed redis key v.now limit.rate limit.burst 1 (v.between s)
          (omega (arith, enough)) in
      let capped =
        new_tokens-le-burst v.now limit.rate limit.burst (hget (v.between s) key "tokens")
          (hget (v.between s) key "updated_at") in
      (
        rw (visit_lem v s, answer),
        rw (visit_lem v s, tokens, updated)
            (omega (
              arith,
              enough,
              capped,
              new_tokens-written v.now limit.rate limit.burst (room v.now (v.between s) - 1 * token)
                  (omega (arith, capped)),
            )),
      )

  pub visit-refused :
      (v : Visit State) (s : State)
      → room v.now (v.between s) < token
      → visit v s ≡ (false, v.between s)
  visit-refused v s lt =
      let limit = limit_of tier in
      rw (
        visit_lem v s,
        token_bucket-refused redis key v.now limit.rate limit.burst 1 (v.between s)
            (omega (arith, lt)),
      )

  -- After a request that is let through only if the bucket holds a token, the rest of the run can
  -- use what is left: the step of `visits-le`.
  visits-le_step :
      (v : Visit State) (vs : List (Visit State)) (s : State) (more : ℕ)
      → visits vs (visit v s).1 * token ≤ room v.now (visit v s).1 + more
      → visits (v ∷ vs) s * token ≤ room v.now (v.between s) + more
  unfolding visits
  visits-le_step v vs s more ih = elim (Bool-cases (leb token (room v.now (v.between s)))) [
    | inl pass ↦
        let (ok, left) = visit-allowed v s (leb→le token _ pass) in rw ok (omega (arith, left, ih))
    | inr stop ↦ let e = visit-refused v s (not-leb→lt token _ stop) in rw e (rw e at ih)
  ]

  -- Over any requests of one identifier in the order of time, with the bucket otherwise left alone
  -- but for its expiry, the requests allowed are no more than what the bucket held at the start and
  -- what the tier's rate has given since.
  pub visits-le :
      (t : ℕ) (vs : List (Visit State)) (s : State)
      → InOrder t vs s
      → visits vs s * token ≤ room t s + (last_visit t vs - t) * (limit_of tier).rate
  visits-le t [] s o = unfold visits in omega arith
  visits-le t (v ∷ vs) s (le, spared, o) =
      let rate = (limit_of tier).rate in
      let burst = (limit_of tier).burst in
      let step =
        visits-le_step v vs s ((last_visit v.now vs - v.now) * rate)
          (visits-le v.now vs (visit v s).1 o) in
      let same = room-Spared v.now s (v.between s) spared in
      let later =
        new_tokens-later t v.now rate burst (hget s key "tokens") (hget s key "updated_at") le in
      let ordered = last_visit-ge v.now vs (visit v s).1 o in
      let sum =
        times_mono ((last_visit v.now vs - v.now) + (v.now - t)) (last_visit v.now vs - t) rate
          (omega (arith, ordered)) in
      omega (arith, step, same, later, sum)

  -- Over any requests of one identifier in the order of time, with the bucket otherwise left alone
  -- but for its expiry, no more requests are allowed than the tier's burst and what its rate gives
  -- between the start and the last of them.
  pub visits-le-burst :
      (t : ℕ) (vs : List (Visit State)) (s : State)
      → InOrder t vs s
      → visits vs s * token
        ≤ (limit_of tier).burst * token + (last_visit t vs - t) * (limit_of tier).rate
  visits-le-burst t vs s o =
      let limit = limit_of tier in
      omega (
        arith,
        visits-le t vs s o,
        new_tokens-le-burst t limit.rate limit.burst (hget s key "tokens")
            (hget s key "updated_at"),
      )
