-- ===== src/Usage/Unmetered.antt =====
-- legacy/app/services/usage.py: the calls that are allowed or refused without being counted.
use taxlien_gateway.Prelude.{◌≡◌, ◌≢◌, false, String, eq-false_of_ne, pos, arith}
use taxlien_gateway.Models.Auth.{Tier, tier_text}
use taxlien_gateway.Redis.{Redis}
use taxlien_gateway.Usage.{limit_for, check_and_increment}

limit_for-unlisted :
    (tier : Tier) (feature : String)
    → feature ≢ "daily_search"
    → feature ≢ "daily_details"
    → limit_for tier feature ≡ pos 0
unfolding limit_for
limit_for-unlisted tier feature n m =
    let s = eq-false_of_ne n in let d = eq-false_of_ne m in ground (arith, s, d)

limit_for-unknown :
    (tier : Tier) (feature : String)
    → tier_text tier ≡ "enterprise"
    → limit_for tier feature ≡ pos 0
unfolding limit_for
limit_for-unknown tier feature e = rw e

module _ (redis : Redis) (day user_id : String) (tier : Tier) (feature : String) where
  open redis use {State}

  -- A feature that TIER_LIMITS does not list is refused to every tier, and nothing is counted.
  pub unlisted_feature_is_refused :
      (s : State)
      → feature ≢ "daily_search"
      → feature ≢ "daily_details"
      → check_and_increment redis day user_id tier feature s ≡ (false, s)
  unfolding check_and_increment
  unlisted_feature_is_refused s n m = rw (limit_for-unlisted tier feature n m)

  -- The tier "enterprise" is refused every feature, and nothing is counted.
  pub enterprise_is_refused :
      (s : State)
      → tier_text tier ≡ "enterprise"
      → check_and_increment redis day user_id tier feature s ≡ (false, s)
  unfolding check_and_increment
  enterprise_is_refused s e = rw (limit_for-unknown tier feature e)
