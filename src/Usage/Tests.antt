-- ===== src/Usage/Tests.antt =====
-- The quotas' theorems at concrete calls.
use taxlien_gateway.Prelude.{
  ◌-◌, ◌≡◌, ◌≢◌, refl, min, some, List, [], ◌∷◌, String, eq_iff, pos, length, arith,
}
use taxlien_gateway.Models.Auth.{member, free}
use taxlien_gateway.Redis.Memory.{Store, memory, empty_store}
use taxlien_gateway.Usage.{tier_limits, limit_for, get_user_usage}
use taxlien_gateway.Usage.Quota.{calls, allowed, allowed-eq-quota}
use taxlien_gateway.Usage.Report.{usage_counts_calls}

abbrev day : String
day = "2026-01-31"

abbrev two_calls : List (Store → Store)
two_calls = (λ s. s) ∷ (λ s. s) ∷ []

search_limit : limit_for (member free) "daily_search" ≡ pos 20
unfolding limit_for tier_limits
search_limit = refl

details_limit : limit_for (member free) "daily_details" ≡ pos 50
unfolding limit_for tier_limits
details_limit = refl

allowed-eq-quota_example :
    allowed memory day "u1" (member free) "daily_search" two_calls empty_store
    ≡ min (length two_calls) (20 - 0)
allowed-eq-quota_example =
    allowed-eq-quota memory day "u1" (member free) "daily_search" 19 0 two_calls empty_store
      search_limit (λ s. refl, (λ s. refl, tt)) refl

usage_counts_calls_example :
    get_user_usage memory day "u1"
      (calls memory day "u1" (member free) "daily_details" two_calls empty_store)
    ≡ some (("daily_search", 0) ∷ ("daily_details", 2) ∷ [])
usage_counts_calls_example =
    usage_counts_calls memory day "u1" (member free) 49 0 0 two_calls empty_store details_limit
      (λ s. refl, (λ s. refl, tt)) (λ s. refl, (λ s. refl, tt)) refl refl

u1-ne-u2 : ◌≢◌ {A = String} "u1" "u2"
u1-ne-u2 = ground (arith, eq_iff "u1" "u2")
