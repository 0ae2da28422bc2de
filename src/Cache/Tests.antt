-- ===== src/Cache/Tests.antt =====
-- The theorem on the cache at a concrete value, with a format that puts one letter before a text.
use taxlien_gateway.Prelude.{◌≡◌, ◌≢◌, ◌<◌, ◌≤◌, refl, Option, none, some, String, eq_iff, arith}
use taxlien_gateway.Redis.{Redis}
use taxlien_gateway.Redis.Memory.{memory, empty_store}
use taxlien_gateway.Cache.{JsonCodec, hit, miss, get, set}
use taxlien_gateway.Cache.RoundTrip.{get-set}

abbrev unquote : String → Option String
unquote String.[] = none
unquote (String.◌∷◌ c s) = some s

abbrev quoted : JsonCodec
quoted = record {
  Json = String;
  dumps = λ s. String.◌∷◌ "j" s;
  loads = unquote;
  loads-dumps = λ s. refl;
  truthy-dumps = λ s. refl;
}

a-ne-b : ◌≢◌ {A = String} "a" "b"
a-ne-b = ground (arith, eq_iff "a" "b")

get-set_example :
    let s' = set memory quoted "a" "value" 60 empty_store in
    (59 < 60 → get memory quoted "a" (Redis.elapse memory 59 s') ≡ hit "value")
    × (60 ≤ 59 → get memory quoted "a" (Redis.elapse memory 59 s') ≡ miss)
    × (Redis.get memory s' "b" ≡ none)
    × (Redis.ttl memory s' "b" ≡ none)
get-set_example = get-set memory quoted "a" "b" "value" 60 59 empty_store a-ne-b
