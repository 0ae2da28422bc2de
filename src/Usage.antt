-- ===== src/Usage.antt =====
-- legacy/app/services/usage.py: daily quotas. The day, `date.today().isoformat()`, is handed in.
pub mod Quota
pub mod Unmetered
pub mod Report
mod Tests
use taxlien_gateway.Prelude.{
  ℕ, ◌==◌, Bool, true, false, Option, none, some, List, [], ◌∷◌, String, str_eq, ◌<>◌, ℤ, pos,
  negsuc, ltb_ℤ, beq_ℤ, if◌then◌else◌,
}
use taxlien_gateway.Models.Auth.{Tier, tier_text}
use taxlien_gateway.Redis.{Value, number, text, Redis}

-- A row of TIER_LIMITS.
abbrev limits : ℤ → ℤ → String → Option ℤ
limits search details feature =
    if str_eq feature "daily_search"
    then some search
    else if str_eq feature "daily_details"
    then some details
    else none

-- TIER_LIMITS; -1 is for no limit. A tier is looked up by its text.
tier_limits : String → Option (String → Option ℤ)
tier_limits tier =
    if str_eq tier "anonymous"
    then some (limits (pos 5) (pos 10))
    else if str_eq tier "free"
    then some (limits (pos 20) (pos 50))
    else if str_eq tier "starter"
    then some (limits (pos 1000) (pos 2000))
    else if str_eq tier "premium"
    then some (limits (negsuc 0) (negsuc 0))
    else if str_eq tier "internal"
    then some (limits (negsuc 0) (negsuc 0))
    else none

abbrev feature_limit : Option (String → Option ℤ) → String → Option ℤ
feature_limit none feature = none
feature_limit (some row) feature = row feature

abbrev int_or_zero : Option ℤ → ℤ
int_or_zero none = pos 0
int_or_zero (some n) = n

-- `TIER_LIMITS.get(tier, {}).get(feature, 0)`
unfoldable pub limit_for : Tier → String → ℤ
unfolding tier_limits
limit_for tier feature = int_or_zero (feature_limit (tier_limits (tier_text tier)) feature)

-- `_get_key`
abbrev pub usage_key : String → String → String → String
usage_key user_id feature day = "usage:" <> user_id <> ":" <> feature <> ":" <> day

-- `int(val) if val else 0`; `none` is a ValueError
abbrev pub int_of : Option Value → Option ℕ
int_of none = some 0
int_of (some (number n)) = some n
int_of (some (text s)) = if str_eq s "" then some 0 else none

module _ (redis : Redis) (day : String) where
  open redis use {State, get, incr, expire}

  -- The answer says whether the call is allowed.
  unfoldable pub check_and_increment : String → Tier → String → State → Bool × State
  check_and_increment user_id tier feature s =
      let limit = limit_for tier feature in
      if beq_ℤ limit (negsuc 0)
      then (true, s)
      else if beq_ℤ limit (pos 0)
      then (false, s)
      else (let key = usage_key user_id feature day in
          let (current, counted) = incr key s in
          let s' = if current == 1 then expire key 86400 counted else counted in
          (if ltb_ℤ limit (pos current) then false else true, s'))

  -- The two entries of the result, by feature; `none` is a ValueError.
  unfoldable pub get_user_usage : String → State → Option (List (String × ℕ))
  get_user_usage user_id s =
      let count = λ (feature : String). int_of (get s (usage_key user_id feature day)) in
      elim (count "daily_search") [
        | none ↦ none
        | some searches ↦ elim (count "daily_details") [
          | none ↦ none
          | some details ↦ some (("daily_search", searches) ∷ ("daily_details", details) ∷ [])
        ]
      ]
