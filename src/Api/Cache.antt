-- ===== src/Api/Cache.antt =====
-- legacy/app/api/v1/properties.py: the cache of property responses.
use taxlien_gateway.Prelude.{◌==◌, ◌≡◌, ◌≢◌, refl, false, some, [], ◌∷◌, String, eq_refl, arith}
use taxlien_gateway.Http.{HttpResponse, respond}
use taxlien_gateway.Redis.{text, Redis}
use taxlien_gateway.ServiceClient.{Response, Result, returned}
use taxlien_gateway.Api.{World, Env, response_of, store_response}

abbrev pub miss : Response → HttpResponse
miss x = response_of x (("X-Cache", "MISS") ∷ [])

module _ (redis : Redis) where
  open redis use {State, get, get-setex}

  module _ (env : Env State) where
    -- A miss with status 200 is kept under its key.
    pub store_response-kept :
        (key : String) (r : Result × World State) (x : Response)
        → (store_response redis env key r).0 ≡ respond (miss x)
        → x.status_code ≡ 200
        → get (store_response redis env key r).1.redis key ≡ some (text x.content)
    unfolding store_response
    store_response-kept key (returned y, w) x e ok =
        let same : y.status_code ≡ 200 = ground arith in
        rw (same, get-setex key key 3600 y.content w.redis, eq_refl key) (ground arith)
    store_response-kept key (_, w) x e ok = cc

    -- An answer that is no miss with status 200 is not kept.
    pub store_response-other :
        (key : String) (r : Result × World State)
        → ((x : Response) → r.0 ≡ returned x → x.status_code ≢ 200)
        → (store_response redis env key r).1 ≡ r.1
    unfolding store_response
    store_response-other key (returned y, w) n =
        let other : (y.status_code == 200) ≡ false = ground (arith, n y refl) in rw other
    store_response-other key (_, w) n = refl
