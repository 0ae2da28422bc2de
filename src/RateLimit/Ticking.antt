-- ===== src/RateLimit/Ticking.antt =====
-- legacy/app/services/ratelimit.py: the bucket that the script keeps by two fields, against a bucket
-- that is refilled all the time.
use taxlien_gateway.Prelude.{
  ℕ, zero, suc, ◌+◌, ◌-◌, ◌*◌, ◌/◌, ◌≤◌, ◌≡◌, inl, inr, refl, sym, ◌∙◌, min, Bool, true, false,
  none, some, List, [], ◌∷◌, map, String, leb, Bool-cases, leb→le, not-leb→lt, if◌then◌else◌, arith,
}
use taxlien_gateway.Redis.{number, Redis}
use taxlien_gateway.RateLimit.{token, new_tokens, check, is_rate_limited, limit_of, rate_key}
use taxlien_gateway.RateLimit.Level.{new_tokens-le-burst, new_tokens-written}
use taxlien_gateway.RateLimit.Run.{token_bucket-allowed, token_bucket-refused}
use taxlien_gateway.RateLimit.Bounds.{
  Visit, room, Spared, untouched, expired, InOrder, visit, room-Spared,
}

-- A request takes a token if there is one; the answer shows the whole tokens that are left.
abbrev pub ask : ℕ → (Bool × ℕ) × ℕ
ask x = if leb token x then ((true, (x - token) / token), x - token) else ((false, x / token), x)

-- The reference: every microsecond adds the rate, up to the capacity.
module _ (rate cap : ℕ) where
  abbrev pub tick : ℕ → ℕ
  tick x = min cap (x + rate)

  unfoldable pub ticks : ℕ → ℕ → ℕ
  ticks zero x = x
  ticks (suc n) x = ticks n (tick x)

  -- The answers to requests at these times, from what the bucket holds at the time t.
  abbrev pub ticking_answers : ℕ → ℕ → List ℕ → List (Bool × ℕ)
  ticking_answers t x [] = []
  ticking_answers t x (now ∷ times) =
      let (answer, y) = ask (ticks (now - t) x) in answer ∷ ticking_answers now y times

  ticks_lem : (n x : ℕ) → x ≤ cap → ticks n x ≡ min cap (x + n * rate)
  unfolding ticks
  ticks_lem zero x h = omega (arith, h)
  ticks_lem (suc n) x h = ticks_lem n (tick x) (omega arith) ∙ omega arith

times_add : (a b r : ℕ) → (a + b) * r ≡ a * r + b * r
times_add a b r = grind arith

module _ (redis : Redis) (tier identifier : String) where
  open redis use {State, hget}

  abbrev key : String
  key = rate_key tier identifier

  abbrev rate : ℕ
  rate = (limit_of tier).rate

  abbrev cap : ℕ
  cap = (limit_of tier).burst * token

  -- The bucket has no state, or was last updated at some time before.
  pub data IsPast (t : ℕ) (s : State) : Type 0 where
    fresh : hget s key "tokens" ≡ none → hget s key "updated_at" ≡ none → IsPast t s
    updated : (u : ℕ) → u ≤ t → hget s key "updated_at" ≡ some (number u) → IsPast t s

  -- The answers of the code, with what remains.
  abbrev pub answers : List (Visit State) → State → List (Bool × ℕ)
  answers [] s = []
  answers (v ∷ vs) s =
      let (answer, s') = is_rate_limited redis v.now identifier tier (v.between s) in
      answer ∷ answers vs s'

  sooner :
      (t u : ℕ) → u ≤ t → (t' : ℕ) → t ≤ t' → (t' - u) * rate ≡ (t' - t) * rate + (t - u) * rate
  sooner t u h t' le =
      let split : (t' - u) ≡ (t' - t) + (t - u) = omega arith in rw split (times_add _ _ rate)

  room-le-cap : (t : ℕ) (s : State) → room redis tier identifier t s ≤ cap
  room-le-cap t s =
      new_tokens-le-burst t rate (limit_of tier).burst (hget s key "tokens")
        (hget s key "updated_at")

  room_lem :
      (t t' : ℕ) (s : State)
      → t ≤ t'
      → IsPast t s
      → room redis tier identifier t' s ≡ min cap (room redis tier identifier t s + (t' - t) * rate)
  unfolding new_tokens
  room_lem t t' s le (fresh a b) = rw (a, b) (omega arith)
  room_lem t t' s le (updated u h e) = rw e (omega (arith, sooner t u h t' le))

  room-later :
      (t t' : ℕ) (s : State)
      → t ≤ t'
      → IsPast t s
      → room redis tier identifier t' s ≡ ticks rate cap (t' - t) (room redis tier identifier t s)
  room-later t t' s le past =
      room_lem t t' s le past ∙ sym (ticks_lem rate cap (t' - t) _ (room-le-cap t s))

  IsPast-Spared :
      (t t' : ℕ) (s s' : State)
      → t ≤ t'
      → IsPast t s
      → Spared redis tier identifier t' s s'
      → IsPast t' s'
  IsPast-Spared t t' s s' le (fresh a b) (untouched same) =
      fresh (same "tokens" ∙ a) (same "updated_at" ∙ b)
  IsPast-Spared t t' s s' le (updated u h e) (untouched same) =
      updated u (omega arith) (same "updated_at" ∙ e)
  IsPast-Spared t t' s s' le past (expired u e old gone) = fresh (gone "tokens") (gone "updated_at")

  -- One request, of a store that holds x.
  answered :
      (now : ℕ) (s : State)
      → IsPast now s
      → let x = room redis tier identifier now s in
        let r = is_rate_limited redis now identifier tier s in
        (r.0 ≡ (ask x).0) × (room redis tier identifier now r.1 ≡ (ask x).1) × IsPast now r.1
  unfolding is_rate_limited check
  answered now s past = elim (Bool-cases (leb token (room redis tier identifier now s))) [
    | inl pass ↦
        let burst = (limit_of tier).burst in
        let (answer, tokens, updated_at) =
          token_bucket-allowed redis key now rate burst 1 s (omega (arith, leb→le token _ pass)) in
        let below = room-le-cap now s in
        let left =
          new_tokens-written now rate burst (room redis tier identifier now s - 1 * token)
            (omega (arith, below)) in
        (
          rw (answer, pass),
          rw (tokens, updated_at, pass) (omega (arith, left)),
          updated now (omega arith) updated_at,
        )
    | inr stop ↦
        let e =
          token_bucket-refused redis key now rate (limit_of tier).burst 1 s
            (omega (arith, not-leb→lt token _ stop)) in
        rw (e, stop) (refl, refl, past)
  ]

  -- Over any requests of one identifier in the order of time, with the bucket otherwise left alone
  -- but for its expiry, and last written at some time before them if at all, the code gives the
  -- answers, and shows the whole tokens left, of a bucket that is refilled every microsecond by the
  -- tier's rate up to its burst, from what the bucket held at the start.
  pub answers-eq-ticking_answers :
      (t : ℕ) (vs : List (Visit State)) (s : State)
      → InOrder redis tier identifier t vs s
      → IsPast t s
      → answers vs s
        ≡ ticking_answers rate cap t (room redis tier identifier t s) (map (λ v. v.now) vs)
  answers-eq-ticking_answers t [] s o past = refl
  answers-eq-ticking_answers t (v ∷ vs) s (le, spared, o) past =
      let past' = IsPast-Spared t v.now s (v.between s) le past spared in
      let (answer, left, after) = answered v.now (v.between s) past' in
      let rest =
        answers-eq-ticking_answers v.now vs
          (is_rate_limited redis v.now identifier tier (v.between s)).1 (unfold visit in o) after in
      let held =
        room-Spared redis tier identifier v.now s (v.between s) spared
        ∙ room-later t v.now s le past in
      rw (answer, rest, left, held)
