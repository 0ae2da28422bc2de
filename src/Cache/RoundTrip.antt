-- ===== src/Cache/RoundTrip.antt =====
-- legacy/app/services/cache.py: what is got after a value was set.
use taxlien_gateway.Prelude.{
  ℕ, ◌≡◌, ◌≢◌, ◌<◌, ◌≤◌, ◌∙◌, true, none, some, String, eq_refl, eq-false_of_ne, le→leb, lt→leb,
  truthy,
}
use taxlien_gateway.Redis.{text, Redis}
use taxlien_gateway.Cache.{JsonCodec, hit, miss, get, set}

module _ (redis : Redis) (codec : JsonCodec) where
  open redis use {State, get as redis_get, ttl, elapse, get-setex, ttl-setex, get-elapse}
  open codec use {Json, dumps, loads, loads-dumps, truthy-dumps}

  get-text :
      (key raw : String) (v : Json) (s : State)
      → redis_get s key ≡ some (text raw)
      → truthy (some raw) ≡ true
      → loads raw ≡ some v
      → get redis codec key s ≡ hit v
  get-text key raw v s kept full read = unfold get in rw (kept, full, read)

  get-none : (key : String) (s : State) → redis_get s key ≡ none → get redis codec key s ≡ miss
  get-none key s gone = unfold get in rw gone

  -- A value that is set is got back under its key until its time to live is over, and is gone from
  -- then on; what is kept under other keys stays as it was at the time.
  pub get-set :
      (key other : String) (v : Json) (life n : ℕ) (s : State)
      → key ≢ other
      → let s' = set redis codec key v life s in
        (n < life → get redis codec key (elapse n s') ≡ hit v)
        × (life ≤ n → get redis codec key (elapse n s') ≡ miss)
        × (redis_get s' other ≡ redis_get s other)
        × (ttl s' other ≡ ttl s other)
  unfolding set
  get-set key other v life n s apart =
      let raw = dumps v in
      let s' = redis.setex key life raw s in
      let lives : ttl s' key ≡ some life = ttl-setex key key life raw s ∙ rw (eq_refl key) in
      let kept : redis_get s' key ≡ some (text raw) =
        get-setex key key life raw s ∙ rw (eq_refl key) in
      (
        λ lt.
            get-text key raw v (elapse n s')
              (get-elapse key n s' ∙ rw (lives, lt→leb life n lt) kept) (truthy-dumps v)
              (loads-dumps v),
        λ le. get-none key (elapse n s') (get-elapse key n s' ∙ rw (lives, le→leb life n le)),
        get-setex key other life raw s ∙ rw (eq-false_of_ne apart),
        ttl-setex key other life raw s ∙ rw (eq-false_of_ne apart),
      )
