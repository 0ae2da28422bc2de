-- ===== src/Lifecycle/Manager.antt =====
-- legacy/app/core/redis.py: the class `RedisManager`. The clients that `from_url` makes are numbers
-- in the order in which they are made; the client library is not in the repository.
use taxlien_gateway.Prelude.{ℕ, suc, ◌≡◌, refl, ◌∙◌, Option, none, some, List, [], ◌∷◌}

-- The client that the manager holds, the number of the next one, and those that were closed.
pub record Manager : Type 0 where
  pub redis : Option ℕ
  pub made : ℕ
  pub closed : List ℕ

abbrev pub new_manager : Manager
new_manager = record { redis = none; made = 0; closed = [] }

-- How an attempt to connect goes: `from_url` raises, the client does not answer `ping`, or it does.
pub data Attempt : Type 0 where
  bad_url unreachable reachable : Attempt

-- What a call gives: a client, or an exception.
pub data Given : Type 0 where
  client : ℕ → Given
  raised : Given

abbrev hold_new : Manager → Manager
hold_new m = record m { redis = some m.made; made = suc m.made }

-- The client is held before it is asked for an answer; the exception is raised again.
unfoldable pub connect : Attempt → Manager → Given × Manager
connect bad_url m = (raised, m)
connect unreachable m = (raised, hold_new m)
connect reachable m = (client m.made, hold_new m)

-- A client that is closed stays held.
unfoldable pub disconnect : Manager → Manager
disconnect m = elim m.redis [ none ↦ m | some c ↦ record m { closed = c ∷ m.closed } ]

unfoldable pub get_redis : Attempt → Manager → Given × Manager
unfolding connect
get_redis attempt m = elim m.redis [ some c ↦ (client c, m) | none ↦ connect attempt m ]

-- What may happen to the manager after the start.
pub data Event : Type 0 where
  asked : Attempt → Event
  disconnected : Event

unfoldable pub happen : Event → Manager → Manager
unfolding get_redis disconnect
happen (asked attempt) m = (get_redis attempt m).1
happen disconnected m = disconnect m

unfoldable pub happen_all : List Event → Manager → Manager
happen_all [] m = m
happen_all (e ∷ es) m = happen_all es (happen e m)

happen-holds :
    (e : Event) (m : Manager) (c : ℕ)
    → m.redis ≡ some c
    → ((happen e m).redis ≡ some c) × ((happen e m).made ≡ m.made)
unfolding happen
happen-holds (asked attempt) m c h = (rw (get_redis, h), rw (get_redis, h))
happen-holds disconnected m c h = (rw (disconnect, h) h, rw (disconnect, h))

-- Once the manager holds a client it holds it for ever, and no other is made: every later
-- `get_redis` gives this client, without an attempt to reach it, also after its first `ping` failed
-- and after it was closed.
pub held_client_is_kept :
    (es : List Event) (m : Manager) (c : ℕ) (attempt : Attempt)
    → m.redis ≡ some c
    → let end = happen_all es m in (get_redis attempt end ≡ (client c, end)) × (end.made ≡ m.made)
unfolding happen_all
held_client_is_kept [] m c attempt h = (unfold get_redis in rw h, refl)
held_client_is_kept (e ∷ es) m c attempt h =
    let (still, same) = happen-holds e m c h in
    let (given, count) = held_client_is_kept es (happen e m) c attempt still in
    (given, count ∙ same)
