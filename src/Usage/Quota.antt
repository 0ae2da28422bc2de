-- ===== src/Usage/Quota.antt =====
-- legacy/app/services/usage.py: how often a metered feature is allowed.
use taxlien_gateway.Prelude.{
  ℕ, suc, ◌+◌, ◌-◌, ◌==◌, ◌≡◌, ap, min, true, false, some, List, [], ◌∷◌, String, str_eq, eq_refl,
  length, pos, ltb, ltb→lt, not-ltb→le, ◌∙◌, All, Bool-cases, inl, inr, if◌then◌else◌, arith,
}
use taxlien_gateway.Models.Auth.{Tier}
use taxlien_gateway.Redis.{number, counted, Redis}
use taxlien_gateway.Usage.{limit_for, usage_key, check_and_increment}

suc-eq_zero : (n : ℕ) → (suc n == 0) ≡ false
suc-eq_zero n = ground arith

module _ (redis : Redis) (day user_id : String) (tier : Tier) (feature : String) where
  open redis use {
    State, get, ttl, exists, incr, expire, incr-result, get-incr, ttl-incr, get-expire, ttl-expire,
    exists-incr,
  }

  abbrev pub key : String
  key = usage_key user_id feature day

  -- The store after a metered call that finds the count c.
  abbrev pub after : ℕ → State → State
  after c s = if c + 1 == 1 then expire key 86400 (incr key s).1 else (incr key s).1

  -- One call of a metered feature: it is counted, and allowed up to the limit.
  pub check_and_increment-metered :
      (limit c : ℕ) (s : State)
      → limit_for tier feature ≡ pos (suc limit)
      → counted (get s key) ≡ some c
      → check_and_increment redis day user_id tier feature s
        ≡ (if ltb (suc limit) (c + 1) then false else true, after c s)
  unfolding check_and_increment
  check_and_increment-metered limit c s e h = rw (e, suc-eq_zero limit, incr-result key s c h)

  pub get-after :
      (c : ℕ) (s : State) (j : String)
      → counted (get s key) ≡ some c
      → get (after c s) j ≡ (if str_eq key j then some (number (c + 1)) else get s j)
  get-after c s j h = elim (Bool-cases (c + 1 == 1)) [
    | inl first ↦ rw (first, get-expire) (get-incr key j s c h)
    | inr later ↦ rw later (get-incr key j s c h)
  ]

  pub counted-after :
      (c : ℕ) (s : State)
      → counted (get s key) ≡ some c
      → counted (get (after c s) key) ≡ some (c + 1)
  counted-after c s h = rw (get-after c s key h, eq_refl key)

  -- The store after calls of the feature, each with what happens to the store before it.
  unfoldable pub calls : List (State → State) → State → State
  calls [] s = s
  calls (f ∷ fs) s = calls fs (check_and_increment redis day user_id tier feature (f s)).1

  -- How many of them are allowed.
  unfoldable pub allowed : List (State → State) → State → ℕ
  allowed [] s = 0
  allowed (f ∷ fs) s =
      let (ok, s') = check_and_increment redis day user_id tier feature (f s) in
      let rest = allowed fs s' in if ok then suc rest else rest

  -- What happens in between leaves the counter alone.
  abbrev pub Spares : (State → State) → Type 0
  Spares f = (s : State) → counted (get (f s) key) ≡ counted (get s key)

  pub counted-calls :
      (limit c : ℕ) (fs : List (State → State)) (s : State)
      → limit_for tier feature ≡ pos (suc limit)
      → All Spares fs
      → counted (get s key) ≡ some c
      → counted (get (calls fs s) key) ≡ some (c + length fs)
  unfolding calls
  counted-calls limit c [] s e k h = rw h (ap some (omega arith))
  counted-calls limit c (f ∷ fs) s e (k, ks) h =
      let h' = k s ∙ h in
      rw (check_and_increment-metered limit c (f s) e h') (
        counted-calls limit (c + 1) fs (after c (f s)) e ks (counted-after c (f s) h')
        ∙ ap some (omega arith))

  -- Of the calls of a metered feature on one day, by a user who has made c calls of it before and
  -- whose counter nothing else changes, exactly so many are allowed as the limit leaves, or all if
  -- they are fewer.
  pub allowed-eq-quota :
      (limit c : ℕ) (fs : List (State → State)) (s : State)
      → limit_for tier feature ≡ pos (suc limit)
      → All Spares fs
      → counted (get s key) ≡ some c
      → allowed fs s ≡ min (length fs) (suc limit - c)
  unfolding allowed
  allowed-eq-quota limit c [] s e k h = omega arith
  allowed-eq-quota limit c (f ∷ fs) s e (k, ks) h =
      let h' = k s ∙ h in
      let rest =
        allowed-eq-quota limit (c + 1) fs (after c (f s)) e ks (counted-after c (f s) h') in
      rw (check_and_increment-metered limit c (f s) e h')
        (elim (Bool-cases (ltb (suc limit) (c + 1))) [
          | inl over ↦ rw over (omega (arith, rest, ltb→lt _ _ over))
          | inr under ↦ rw under (omega (arith, rest, not-ltb→le _ _ under))
        ])
