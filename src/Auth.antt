-- ===== src/Auth.antt =====
-- legacy/app/core/auth.py: `AuthMiddleware`. The settings (legacy/app/core/config.py is not in the
-- repository) and the verification of a Firebase token are parameters.
pub mod Access
mod Tests
use taxlien_gateway.Prelude.{
  ℕ, Bool, true, false, ◌&&◌, not, Option, none, some, String, str_eq, starts_with, truthy,
  drop_chars, if◌then◌else◌,
}
use taxlien_gateway.Http.{Request}
use taxlien_gateway.Models.Auth.{
  UserTier, anonymous, free, internal, Tier, member, claimed, tier_is, AuthContext, no_auth,
}

pub record Settings : Type 0 where
  pub internal_api_token : String
  pub firebase_project_id : Option String

-- What the code reads of a verified token; `uid` is missing if the token has none (KeyError). A
-- tier that is claimed is a text.
pub record Claims : Type 0 where
  pub uid : Option String
  pub tier : Option String

-- The context of a request that goes on, or the message of a response with status 401.
pub data Verdict : Type 0 where
  pass : AuthContext → Verdict
  deny : String → Verdict

infixl 5 ◌>>=◌
abbrev pub ◌>>=◌ : Verdict → (AuthContext → Verdict) → Verdict
pass c >>= f = f c
deny m >>= f = deny m

abbrev pub text_is : Option String → String → Bool
text_is none t = false
text_is (some s) t = str_eq s t

-- `headers.get(name, default)`
abbrev pub get_or : Option String → String → String
get_or none d = d
get_or (some s) d = s

-- 1. the worker token
unfoldable pub check_worker : Settings → Request → Verdict
check_worker settings req =
    let token = req.headers "X-Worker-Token" in
    let worker = get_or (req.headers "X-Worker-ID") "unknown" in
    if truthy token
    then (if text_is token settings.internal_api_token
        then pass (record no_auth { tier = member internal; worker_id = some worker })
        else deny "Invalid worker token")
    else pass no_auth

-- `auth_header and auth_header.startswith("Bearer ")`
abbrev pub is_bearer : Option String → Bool
is_bearer none = false
is_bearer (some s) = starts_with s "Bearer "

-- `auth_header[7:]`
abbrev pub bearer_token : Option String → String
bearer_token none = ""
bearer_token (some s) = drop_chars 7 s

abbrev pub claimed_tier : Option String → Tier
claimed_tier none = member free
claimed_tier (some s) = claimed s

abbrev pub of_claims : AuthContext → Option Claims → Verdict
of_claims c none = deny "Invalid or expired session"
of_claims c (some claims) = elim claims.uid [
  | none ↦ deny "Invalid or expired session"
  | some uid ↦ pass (record c { user_id = some uid; tier = claimed_tier claims.tier })
]

module _ (settings : Settings) (verify_id_token : String → Option Claims) where
  -- 2. the Firebase token
  unfoldable pub check_bearer : Request → AuthContext → Verdict
  check_bearer req c =
      let header = req.headers "Authorization" in
      if is_bearer header && tier_is anonymous c.tier
      then (if truthy settings.firebase_project_id
          then of_claims c (verify_id_token (bearer_token header))
          else pass (record c { user_id = some "mock-user-123"; tier = member free }))
      else pass c

  -- the protection of the /internal routes
  unfoldable pub check_internal : Request → AuthContext → Verdict
  check_internal req c =
      if starts_with req.path "/internal" && not (tier_is internal c.tier)
      then deny "Internal access required"
      else pass c

  -- `dispatch`, up to the call of the next middleware
  unfoldable pub authenticate : Request → Verdict
  authenticate req = check_worker settings req >>= check_bearer req >>= check_internal req
