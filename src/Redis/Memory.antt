-- ===== src/Redis/Memory.antt =====
-- A store in memory that has the laws of `Redis`: it shows that they can hold together.
use taxlien_gateway.Prelude.{
  ℕ, ◌+◌, ◌≡◌, ◌≢◌, refl, Bool, true, false, Option, none, some, List, [], ◌∷◌, ◌++◌, ◌||◌, String,
  str_eq, eq_iff, Dict, put, empty_dict, if◌then◌else◌, arith, eq_refl,
}
use taxlien_gateway.Redis.{Value, number, text, counted, erase_first, expires, left_after, Redis}

pub record Store : Type 0 where
  pub strings : Dict Value
  pub hashes : String → Dict Value
  pub lists : String → List String
  pub ttls : Dict ℕ
  pub live : String → Bool

abbrev pub empty_store : Store
empty_store = record {
  strings = empty_dict;
  hashes = λ k f. none;
  lists = λ k. [];
  ttls = empty_dict;
  live = λ k. false;
}

-- The last item of a list and those before it.
abbrev pub unsnoc : List String → Option (List String × String)
unsnoc [] = none
unsnoc (x ∷ xs) = elim (unsnoc xs) [ none ↦ some ([], x) | some (ys, y) ↦ some (x ∷ ys, y) ]

pub unsnoc-append : (vs : List String) (v : String) → unsnoc (vs ++ v ∷ []) ≡ some (vs, v)
unsnoc-append [] v = refl
unsnoc-append (x ∷ xs) v = rw (unsnoc-append xs v)

-- The number that INCR stores.
abbrev pub next_count : Option Value → ℕ
next_count none = 1
next_count (some (number n)) = n + 1
next_count (some (text s)) = 1

pub next_count_lem : (o : Option Value) (n : ℕ) → counted o ≡ some n → next_count o ≡ n + 1
next_count_lem none n h = ground arith
next_count_lem (some (number m)) n h = ground arith
next_count_lem (some (text s)) n h = cc

-- A key that is written to is there.
abbrev pub revive : String → Store → String → Bool
revive k s j = str_eq k j || s.live j

pub revive_self : (k : String) (s : Store) → revive k s k ≡ true
revive_self k s = rw (eq_refl k)

abbrev pub move : String → String → Option (List String × String) → Store → Option String × Store
move k l none s = (none, s)
move k l (some (vs, v)) s =
    let popped = λ (j : String). if str_eq k j then vs else s.lists j in
    (some v, record s { lists = λ j. if str_eq l j then v ∷ popped j else popped j })

pub move-empty :
    (k l : String) (s : Store) → s.lists k ≡ [] → move k l (unsnoc (s.lists k)) s ≡ (none, s)
move-empty k l s e = rw e

pub move-result :
    (k l v : String) (vs : List String) (s : Store)
    → s.lists k ≡ vs ++ v ∷ []
    → (move k l (unsnoc (s.lists k)) s).0 ≡ some v
move-result k l v vs s e = rw (e, unsnoc-append vs v)

pub lists-move :
    (k l j v : String) (vs : List String) (s : Store)
    → k ≢ l
    → s.lists k ≡ vs ++ v ∷ []
    → (move k l (unsnoc (s.lists k)) s).1.lists j
      ≡ (if str_eq k j then vs else if str_eq l j then v ∷ s.lists j else s.lists j)
lists-move k l j v vs s n e = rw (e, unsnoc-append vs v) (ground (arith, eq_iff k j, eq_iff l j, n))

pub get-count :
    (k j : String) (s : Store) (n : ℕ)
    → counted (s.strings k) ≡ some n
    → put s.strings k (number (next_count (s.strings k))) j
      ≡ (if str_eq k j then some (number (n + 1)) else s.strings j)
get-count k j s n e = rw (next_count_lem (s.strings k) n e)

abbrev pub memory : Redis
memory = record {
  State = Store;
  get = λ s k. s.strings k;
  hget = λ s k f. s.hashes k f;
  lrange = λ s k. s.lists k;
  ttl = λ s k. s.ttls k;
  exists = λ s k. s.live k;
  setex = λ k t v s. record s {
    strings = put s.strings k (text v);
    live = revive k s;
    ttls = put s.ttls k t;
  };
  incr = λ k s.
      let n = next_count (s.strings k) in
      (n, record s { strings = put s.strings k (number n); live = revive k s });
  hset = λ k f v s. record s {
    live = revive k s;
    hashes =
        λ j g. if str_eq k j then (if str_eq f g then some v else s.hashes j g) else s.hashes j g;
  };
  lpush = λ k v s. record s {
    live = revive k s;
    lists = λ j. if str_eq k j then v ∷ s.lists j else s.lists j;
  };
  rpoplpush = λ k l s. move k l (unsnoc (s.lists k)) s;
  lrem = λ k v s. record s {
    lists = λ j. if str_eq k j then erase_first v (s.lists j) else s.lists j;
  };
  expire = λ k t s. record s { ttls = put s.ttls k t };
  elapse = λ n s. record s {
    strings = λ k. if expires (s.ttls k) n then none else s.strings k;
    hashes = λ k f. if expires (s.ttls k) n then none else s.hashes k f;
    lists = λ k. if expires (s.ttls k) n then [] else s.lists k;
    ttls = λ k. left_after (s.ttls k) n;
    live = λ k. if expires (s.ttls k) n then false else s.live k;
  };
  get-setex = λ k j t v s. refl;
  ttl-setex = λ k j t v s. refl;
  incr-result = λ k s n e. next_count_lem (s.strings k) n e;
  get-incr = get-count;
  ttl-incr = λ k j s. refl;
  hget-hset = λ k f j g v s. refl;
  ttl-hset = λ k f j v s. refl;
  lrange-lpush = λ k j v s. refl;
  rpoplpush-empty = move-empty;
  rpoplpush-result = move-result;
  lrange-rpoplpush = lists-move;
  lrange-lrem = λ k j v s. refl;
  get-expire = λ k j t s. refl;
  hget-expire = λ k j f t s. refl;
  exists-incr = revive_self;
  exists-hset = λ k f v s. revive_self k s;
  ttl-expire = λ k j t s e. refl;
  get-elapse = λ j n s. refl;
  hget-elapse = λ j f n s. refl;
  ttl-elapse = λ j n s. refl;
}
