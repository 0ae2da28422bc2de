-- ===== src/Usage/Report.antt =====
-- legacy/app/services/usage.py: what the usage report shows, and which counters are apart.
use taxlien_gateway.Prelude.{
  ℕ, suc, ◌+◌, ◌≡◌, ◌≢◌, refl, ◌∙◌, Option, none, some, List, [], ◌∷◌, String, eq_iff,
  eq-false_of_ne, ◌<>◌, <>_cancel_left, <>_cancel_right, length, pos, All, arith,
}
use taxlien_gateway.Models.Auth.{Tier}
use taxlien_gateway.Redis.{Value, number, text, counted, Redis}
use taxlien_gateway.Usage.{limit_for, usage_key, int_of, get_user_usage}
use taxlien_gateway.Usage.Quota.{
  check_and_increment-metered, after, get-after, counted-after, calls, counted-calls, Spares,
}

-- Counters of two users differ, for one feature and day; so do those of two features of a user.
pub usage_key-ne_user :
    (u v feature day : String) → u ≢ v → usage_key u feature day ≢ usage_key v feature day
usage_key-ne_user u v feature day n e =
    n (<>_cancel_right u v (":" <> feature <> ":" <> day) (<>_cancel_left "usage:" _ _ e))

pub usage_key-ne_feature : (u f g day : String) → f ≢ g → usage_key u f day ≢ usage_key u g day
usage_key-ne_feature u f g day n e = n (
    <>_cancel_right f g (":" <> day)
      (<>_cancel_left ":" _ _ (<>_cancel_left u _ _ (<>_cancel_left "usage:" _ _ e))))

int_of-counted : (o : Option Value) (n : ℕ) → counted o ≡ some n → int_of o ≡ some n
int_of-counted none n h = h
int_of-counted (some (number m)) n h = h
int_of-counted (some (text s)) n h = cc

module _ (redis : Redis) (day user_id : String) (tier : Tier) (feature : String) where
  open redis use {State, get}

  -- Metered calls leave every other counter, and every other string key, as it is.
  pub get-calls_other :
      (limit c : ℕ) (fs : List (State → State)) (s : State) (j : String)
      → limit_for tier feature ≡ pos (suc limit)
      → All (Spares redis day user_id tier feature) fs
      → counted (get s (usage_key user_id feature day)) ≡ some c
      → usage_key user_id feature day ≢ j
      → All (λ f. (t : State) → get (f t) j ≡ get t j) fs
      → get (calls redis day user_id tier feature fs s) j ≡ get s j
  unfolding calls
  get-calls_other limit c [] s j e ks h n os = refl
  get-calls_other limit c (f ∷ fs) s j e (k, ks) h n (o, os) =
      let h' = k s ∙ h in
      let next = after redis day user_id tier feature c (f s) in
      rw (check_and_increment-metered redis day user_id tier feature limit c (f s) e h') (
        get-calls_other limit (c + 1) fs next j e ks
          (counted-after redis day user_id tier feature c (f s) h') n os
        ∙ get-after redis day user_id tier feature c (f s) j h'
        ∙ rw (eq-false_of_ne n) (o s))

  -- Metered calls of one feature leave the counter of another user as it is, if the caller's own
  -- counter holds a number and nothing that happens between the calls changes either counter.
  pub other_user_unaffected :
      (limit c : ℕ) (fs : List (State → State)) (s : State) (other : String)
      → limit_for tier feature ≡ pos (suc limit)
      → All (Spares redis day user_id tier feature) fs
      → counted (get s (usage_key user_id feature day)) ≡ some c
      → user_id ≢ other
      → All
          (λ f.
            (t : State)
            → get (f t) (usage_key other feature day) ≡ get t (usage_key other feature day))
          fs
      → get (calls redis day user_id tier feature fs s) (usage_key other feature day)
        ≡ get s (usage_key other feature day)
  other_user_unaffected limit c fs s other e ks h n os =
      get-calls_other limit c fs s (usage_key other feature day) e ks h
        (usage_key-ne_user user_id other feature day n) os

search-ne-details : ◌≢◌ {A = String} "daily_details" "daily_search"
search-ne-details = ground (arith, eq_iff "daily_details" "daily_search")

module _ (redis : Redis) (day user_id : String) (tier : Tier) where
  open redis use {State, get}

  -- The usage report counts every call of a metered feature, the refused ones too: after n calls of
  -- daily_details it shows n more of them, and of daily_search what it showed before, if both
  -- counters hold numbers and nothing that happens between the calls changes them.
  pub usage_counts_calls :
      (limit a b : ℕ) (fs : List (State → State)) (s : State)
      → limit_for tier "daily_details" ≡ pos (suc limit)
      → All (Spares redis day user_id tier "daily_details") fs
      → All
          (λ f.
            (t : State)
            → get (f t) (usage_key user_id "daily_search" day)
              ≡ get t (usage_key user_id "daily_search" day))
          fs
      → counted (get s (usage_key user_id "daily_search" day)) ≡ some a
      → counted (get s (usage_key user_id "daily_details" day)) ≡ some b
      → get_user_usage redis day user_id (calls redis day user_id tier "daily_details" fs s)
        ≡ some (("daily_search", a) ∷ ("daily_details", b + length fs) ∷ [])
  unfolding get_user_usage
  usage_counts_calls limit a b fs s e ks os ha hb =
      let same =
        get-calls_other redis day user_id tier "daily_details" limit b fs s
          (usage_key user_id "daily_search" day) e ks hb
          (usage_key-ne_feature user_id "daily_details" "daily_search" day search-ne-details) os in
      let more = counted-calls redis day user_id tier "daily_details" limit b fs s e ks hb in
      rw (same, get_user_usage, int_of-counted _ a ha, int_of-counted _ (b + length fs) more)
