-- ===== src/Redis.antt =====
-- The Redis commands that the gateway issues, as an interface. Redis is not in the repository: the
-- components take a value of `Redis` as a parameter, and its laws state documented behaviour of
-- the commands. A command that fails (a lost connection, a key of another type) is not modelled.
pub mod Memory
pub mod Beside
use taxlien_gateway.Prelude.{
  ℕ, ◌+◌, ◌-◌, ◌≡◌, ◌≢◌, Bool, true, false, Option, none, some, List, [], ◌∷◌, ◌++◌, String, str_eq,
  leb, if◌then◌else◌,
}

-- What a string key or a field of a hash holds: the text of a number, or another text.
pub data Value : Type 0 where
  number : ℕ → Value
  text : String → Value

-- What INCR starts from: a missing key counts as 0, and a text that is no number is refused.
abbrev pub counted : Option Value → Option ℕ
counted none = some 0
counted (some (number n)) = some n
counted (some (text s)) = none

-- LREM with count 1: the first occurrence from the head goes.
abbrev pub erase_first : String → List String → List String
erase_first v [] = []
erase_first v (x ∷ xs) = if str_eq x v then xs else x ∷ erase_first v xs

-- Whether a key with this time to live, in seconds, is gone after n seconds.
abbrev pub expires : Option ℕ → ℕ → Bool
expires none n = false
expires (some t) n = leb t n

-- What is left of a time to live after n seconds.
abbrev pub left_after : Option ℕ → ℕ → Option ℕ
left_after none n = none
left_after (some t) n = if leb t n then none else some (t - n)

pub record Redis : Type 1 where
  pub State : Type 0
  -- What the reading commands show: GET, HMGET, LRANGE 0 -1, TTL and EXISTS.
  pub get : State → String → Option Value
  pub hget : State → String → String → Option Value
  pub lrange : State → String → List String
  pub ttl : State → String → Option ℕ
  pub exists : State → String → Bool
  pub setex : String → ℕ → String → State → State
  pub incr : String → State → ℕ × State
  pub hset : String → String → Value → State → State
  pub lpush : String → String → State → State
  pub rpoplpush : String → String → State → Option String × State
  pub lrem : String → String → State → State
  pub expire : String → ℕ → State → State
  -- the passing of seconds
  pub elapse : ℕ → State → State
  pub get-setex :
      (k j : String) (t : ℕ) (v : String) (s : State)
      → get (setex k t v s) j ≡ (if str_eq k j then some (text v) else get s j)
  pub ttl-setex :
      (k j : String) (t : ℕ) (v : String) (s : State)
      → ttl (setex k t v s) j ≡ (if str_eq k j then some t else ttl s j)
  pub incr-result :
      (k : String) (s : State) (n : ℕ) → counted (get s k) ≡ some n → (incr k s).0 ≡ n + 1
  pub get-incr :
      (k j : String) (s : State) (n : ℕ)
      → counted (get s k) ≡ some n
      → get (incr k s).1 j ≡ (if str_eq k j then some (number (n + 1)) else get s j)
  pub ttl-incr : (k j : String) (s : State) → ttl (incr k s).1 j ≡ ttl s j
  pub hget-hset :
      (k f j g : String) (v : Value) (s : State)
      → hget (hset k f v s) j g
        ≡ (if str_eq k j then (if str_eq f g then some v else hget s j g) else hget s j g)
  pub ttl-hset : (k f j : String) (v : Value) (s : State) → ttl (hset k f v s) j ≡ ttl s j
  pub lrange-lpush :
      (k j v : String) (s : State)
      → lrange (lpush k v s) j ≡ (if str_eq k j then v ∷ lrange s j else lrange s j)
  pub rpoplpush-empty : (k l : String) (s : State) → lrange s k ≡ [] → rpoplpush k l s ≡ (none, s)
  pub rpoplpush-result :
      (k l v : String) (vs : List String) (s : State)
      → lrange s k ≡ vs ++ v ∷ []
      → (rpoplpush k l s).0 ≡ some v
  pub lrange-rpoplpush :
      (k l j v : String) (vs : List String) (s : State)
      → k ≢ l
      → lrange s k ≡ vs ++ v ∷ []
      → lrange (rpoplpush k l s).1 j
        ≡ (if str_eq k j then vs else if str_eq l j then v ∷ lrange s j else lrange s j)
  pub lrange-lrem :
      (k j v : String) (s : State)
      → lrange (lrem k v s) j ≡ (if str_eq k j then erase_first v (lrange s j) else lrange s j)
  pub get-expire : (k j : String) (t : ℕ) (s : State) → get (expire k t s) j ≡ get s j
  pub hget-expire : (k j f : String) (t : ℕ) (s : State) → hget (expire k t s) j f ≡ hget s j f
  pub exists-incr : (k : String) (s : State) → exists (incr k s).1 k ≡ true
  pub exists-hset : (k f : String) (v : Value) (s : State) → exists (hset k f v s) k ≡ true
  pub ttl-expire :
      (k j : String) (t : ℕ) (s : State)
      → exists s k ≡ true
      → ttl (expire k t s) j ≡ (if str_eq k j then some t else ttl s j)
  pub get-elapse :
      (j : String) (n : ℕ) (s : State)
      → get (elapse n s) j ≡ (if expires (ttl s j) n then none else get s j)
  pub hget-elapse :
      (j f : String) (n : ℕ) (s : State)
      → hget (elapse n s) j f ≡ (if expires (ttl s j) n then none else hget s j f)
  pub ttl-elapse : (j : String) (n : ℕ) (s : State) → ttl (elapse n s) j ≡ left_after (ttl s j) n
