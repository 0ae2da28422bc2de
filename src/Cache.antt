-- ===== src/Cache.antt =====
-- legacy/app/services/cache.py: the class `CacheService`, which no handler calls.
-- JSON and MD5 are parameters: `Codec` has the law of a JSON round trip.
pub mod RoundTrip
mod Tests
use taxlien_gateway.Prelude.{
  ℕ, ◌≡◌, Bool, true, Option, none, some, String, truthy, ◌<>◌, if◌then◌else◌,
}
use taxlien_gateway.Redis.{Value, Redis}
use taxlien_gateway.Api.{text_of}

pub record JsonCodec : Type 1 where
  pub Json : Type 0
  -- `json.dumps`
  pub dumps : Json → String
  -- `json.loads`; `none` is an exception
  pub loads : String → Option Json
  pub loads-dumps : (v : Json) → loads (dumps v) ≡ some v
  -- A JSON text is not empty.
  pub truthy-dumps : (v : Json) → truthy (some (dumps v)) ≡ true

-- What `get` comes to: a hit, a miss, or an exception of `json.loads`.
pub data Lookup (A : Type 0) : Type 0 where
  hit : A → Lookup A
  miss unreadable : Lookup A

-- The digest is that of the parameters' JSON text with sorted keys; there is none where the
-- parameters are missing or empty.
unfoldable pub generate_key : (String → String) → String → String → Option String → String
generate_key md5 prefix identifier param_str =
    let param_hash : String =
      if truthy param_str then elim param_str [ none ↦ "raw" | some s ↦ md5 s ] else "raw" in
    "cache:" <> prefix <> ":" <> identifier <> ":" <> param_hash

module _ (redis : Redis) (codec : JsonCodec) where
  open redis use {State, get as redis_get, setex}
  open codec use {Json, dumps, loads}

  unfoldable pub get : String → State → Lookup Json
  get key s =
      let cached = text_of (redis_get s key) in
      let found : Lookup Json = elim cached [
        | none ↦ miss
        | some raw ↦ elim (loads raw) [ none ↦ unreadable | some v ↦ hit v ]
      ] in
      if truthy cached then found else miss

  abbrev pub default_ttl : ℕ
  default_ttl = 3600

  unfoldable pub set : String → Json → ℕ → State → State
  set key value ttl s = setex key ttl (dumps value) s
