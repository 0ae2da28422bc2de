-- ===== src/Redis/Beside.antt =====
-- Redis with other state beside it: the commands act on the first part of a pair. An application
-- whose handlers also have a database and files is served over such a store.
use taxlien_gateway.Prelude.{◌≡◌, Option, none, [], String}
use taxlien_gateway.Redis.{Redis}

module _ (redis : Redis) (D : Type 0) where
  open redis use {State}

  pub beside-rpoplpush-empty :
      (k l : String) (s : State) (d : D)
      → redis.lrange s k ≡ []
      → ◌≡◌ {A = Option String × (State × D)}
          ((redis.rpoplpush k l s).0, ((redis.rpoplpush k l s).1, d))
          (none, (s, d))
  beside-rpoplpush-empty k l s d e = rw (redis.rpoplpush-empty k l s e)

  abbrev pub beside : Redis
  beside = record {
    State = State × D;
    get = λ s k. redis.get s.0 k;
    hget = λ s k f. redis.hget s.0 k f;
    lrange = λ s k. redis.lrange s.0 k;
    ttl = λ s k. redis.ttl s.0 k;
    exists = λ s k. redis.exists s.0 k;
    setex = λ k t v s. (redis.setex k t v s.0, s.1);
    incr = λ k s. ((redis.incr k s.0).0, ((redis.incr k s.0).1, s.1));
    hset = λ k f v s. (redis.hset k f v s.0, s.1);
    lpush = λ k v s. (redis.lpush k v s.0, s.1);
    rpoplpush = λ k l s. ((redis.rpoplpush k l s.0).0, ((redis.rpoplpush k l s.0).1, s.1));
    lrem = λ k v s. (redis.lrem k v s.0, s.1);
    expire = λ k t s. (redis.expire k t s.0, s.1);
    elapse = λ n s. (redis.elapse n s.0, s.1);
    get-setex = λ k j t v s. redis.get-setex k j t v s.0;
    ttl-setex = λ k j t v s. redis.ttl-setex k j t v s.0;
    incr-result = λ k s n h. redis.incr-result k s.0 n h;
    get-incr = λ k j s n h. redis.get-incr k j s.0 n h;
    ttl-incr = λ k j s. redis.ttl-incr k j s.0;
    hget-hset = λ k f j g v s. redis.hget-hset k f j g v s.0;
    ttl-hset = λ k f j v s. redis.ttl-hset k f j v s.0;
    lrange-lpush = λ k j v s. redis.lrange-lpush k j v s.0;
    rpoplpush-empty = λ k l s h. beside-rpoplpush-empty k l s.0 s.1 h;
    rpoplpush-result = λ k l v vs s h. redis.rpoplpush-result k l v vs s.0 h;
    lrange-rpoplpush = λ k l j v vs s h e. redis.lrange-rpoplpush k l j v vs s.0 h e;
    lrange-lrem = λ k j v s. redis.lrange-lrem k j v s.0;
    get-expire = λ k j t s. redis.get-expire k j t s.0;
    hget-expire = λ k j f t s. redis.hget-expire k j f t s.0;
    exists-incr = λ k s. redis.exists-incr k s.0;
    exists-hset = λ k f v s. redis.exists-hset k f v s.0;
    ttl-expire = λ k j t s h. redis.ttl-expire k j t s.0 h;
    get-elapse = λ j n s. redis.get-elapse j n s.0;
    hget-elapse = λ j f n s. redis.hget-elapse j f n s.0;
    ttl-elapse = λ j n s. redis.ttl-elapse j n s.0;
  }
