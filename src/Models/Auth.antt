-- ===== src/Models/Auth.antt =====
-- legacy/app/models/auth.py
use taxlien_gateway.Prelude.{Bool, Option, none, some, List, [], String, str_eq}

pub data UserTier : Type 0 where
  anonymous free starter premium enterprise internal : UserTier

-- The value of the member of `UserTier(str, Enum)`.
abbrev pub value : UserTier → String
value anonymous = "anonymous"
value free = "free"
value starter = "starter"
value premium = "premium"
value enterprise = "enterprise"
value internal = "internal"

-- What `AuthContext.tier` holds: a member of the enumeration, or the plain text of a token's
-- claim, since an assignment to the field is not validated.
pub data Tier : Type 0 where
  member : UserTier → Tier
  claimed : String → Tier

-- `t.value if hasattr(t, "value") else str(t)`. A member equals its value and hashes like it, so
-- this is also what `==` and dictionaries see of a tier.
abbrev pub tier_text : Tier → String
tier_text (member t) = value t
tier_text (claimed s) = s

-- `tier == UserTier.…`
abbrev pub tier_is : UserTier → Tier → Bool
tier_is t u = str_eq (tier_text u) (value t)

-- `tier.value`: a plain text has no such attribute (AttributeError).
abbrev pub tier_value : Tier → Option String
tier_value (member t) = some (value t)
tier_value (claimed s) = none

pub record AuthContext : Type 0 where
  pub user_id : Option String
  pub tier : Tier
  pub scopes : List String
  pub worker_id : Option String

-- `AuthContext()`
abbrev pub no_auth : AuthContext
no_auth = record { user_id = none; tier = member anonymous; scopes = []; worker_id = none }
