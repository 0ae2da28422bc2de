-- ===== src/Api/Reports.antt =====
-- legacy/app/api/v1/usage.py against legacy/app/core/authorization.py: whom the usage report is
-- about.
use taxlien_gateway.Prelude.{
  ℕ, suc, ◌+◌, ◌≡◌, ◌≢◌, refl, ap, none, some, Option-cases, inl, inr, ◌∙◌, [], ◌∷◌, String, pos,
  NoColon, field_inj, <>_cancel_left, arith,
}
use taxlien_gateway.Http.{Request}
use taxlien_gateway.Models.Auth.{AuthContext}
use taxlien_gateway.Redis.{Redis, counted}
use taxlien_gateway.Usage.{limit_for, usage_key, int_of, check_and_increment, get_user_usage}
use taxlien_gateway.Usage.Quota.{calls, counted-calls}
use taxlien_gateway.Usage.Report.{get-calls_other}
use taxlien_gateway.Api.{World, Env, enforce_tier, get_usage}

-- Counters of two users without ":" in their names differ, whatever the features.
usage_key-ne_users :
    (u v f g day : String) → NoColon u → NoColon v → u ≢ v → usage_key u f day ≢ usage_key v g day
usage_key-ne_users u v f g day h k n e = n (field_inj u v _ _ h k (<>_cancel_left "usage:" _ _ e)).0

anonymous-NoColon : NoColon "anonymous"
anonymous-NoColon = ground arith

module _ (redis : Redis) (day : String) where
  open redis use {State, get}

  get_user_usage-agree :
      (user_id : String) (s t : State)
      → ((f : String) → get t (usage_key user_id f day) ≡ get s (usage_key user_id f day))
      → get_user_usage redis day user_id t ≡ get_user_usage redis day user_id s
  unfolding get_user_usage
  get_user_usage-agree user_id s t h =
      let k = usage_key user_id "daily_search" day in
      let searches : int_of (get t k) ≡ int_of (get s k) = ap int_of (h "daily_search") in
      elim (Option-cases (int_of (get s k))) [
        | inl e ↦ rw (get_user_usage, searches ∙ e, get_user_usage, e)
        | inr (a, e) ↦ rw (get_user_usage, searches ∙ e, get_user_usage, e, h "daily_details")
      ]

module _ (redis : Redis) (env : Env (Redis.State redis)) (auth : AuthContext) (req : Request) where
  open redis use {State, get}

  enforce_tier-counted :
      (feature host : String) (w : World State)
      → auth.user_id ≡ none
      → req.client_host ≡ some host
      → (enforce_tier redis env feature auth req w).1
        ≡ record w { redis = (check_and_increment redis env.day host auth.tier feature w.redis).1 }
  unfolding enforce_tier
  enforce_tier-counted feature host w no_user from = rw (enforce_tier, no_user, from) refl

  get_usage-agree :
      (w : World State) (s : State)
      → auth.user_id ≡ none
      → get_user_usage redis env.day "anonymous" s
        ≡ get_user_usage redis env.day "anonymous" w.redis
      → get_usage redis env auth (record w { redis = s }) ≡ get_usage redis env auth w
  unfolding get_usage
  get_usage-agree w s no_user same = rw (get_usage, no_user, same) refl

  -- If a caller has no user id but a client host, the host has no ":" and is not called "anonymous",
  -- the caller's tier has a positive limit for a feature, and the counter of the host for it holds a
  -- number, then the check of the feature adds one to that counter, but the usage report of the caller
  -- is the same as before: it is that of the user "anonymous".
  pub anonymous_calls_are_not_reported :
      (feature host : String) (limit c : ℕ) (w : World State)
      → auth.user_id ≡ none
      → req.client_host ≡ some host
      → NoColon host
      → host ≢ "anonymous"
      → limit_for auth.tier feature ≡ pos (suc limit)
      → counted (get w.redis (usage_key host feature env.day)) ≡ some c
      → let w' = (enforce_tier redis env feature auth req w).1 in
        (counted (get w'.redis (usage_key host feature env.day)) ≡ some (c + 1))
        × (get_usage redis env auth w' ≡ get_usage redis env auth w)
  unfolding calls
  anonymous_calls_are_not_reported feature host limit c w no_user from simple other metered h =
      let s = (check_and_increment redis env.day host auth.tier feature w.redis).1 in
      let kept = get_user_usage-agree redis env.day "anonymous" w.redis s (λ f.
        get-calls_other redis env.day host auth.tier feature limit c ((λ t. t) ∷ []) w.redis
          (usage_key "anonymous" f env.day) metered ((λ t. refl), tt) h
          (usage_key-ne_users host "anonymous" feature f env.day simple anonymous-NoColon other)
          ((λ t. refl), tt)) in
      let checked = enforce_tier-counted feature host w no_user from in
      let more =
        counted-calls redis env.day host auth.tier feature limit c ((λ t. t) ∷ []) w.redis metered
          ((λ t. refl), tt) h in
      (rw checked more, rw checked (get_usage-agree w s no_user kept))
