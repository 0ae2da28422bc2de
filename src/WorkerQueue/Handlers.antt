-- ===== src/WorkerQueue/Handlers.antt =====
-- legacy/app/services/worker_queue.py: the handlers that run at the same time in the applications and
-- in all the gateway's processes. Each awaits its commands one by one, any of them has its turn
-- next, and any of them may be cancelled or die with its process before its next command.
use taxlien_gateway.Prelude.{◌≡◌, String, List, [], ◌∷◌, ◌++◌, All, All-append, append-All}
use taxlien_gateway.Redis.{Redis}
use taxlien_gateway.WorkerQueue.{Codec}
use taxlien_gateway.WorkerQueue.Contents.{taken, given}
use taxlien_gateway.WorkerQueue.Workers.{System}
use taxlien_gateway.WorkerQueue.Operations.{Operation}
use taxlien_gateway.WorkerQueue.Programs.{
  Program, done, raised, lpush, rpoplpush, lrange, lrem, program,
}

-- Redis, with the texts that RPOPLPUSH has handed to handlers, the latest first.
pub record Shared (S : Type 0) : Type 0 where
  pub system : System S
  pub handed : List String

-- That, and what is left of the handlers that run.
pub record Config (S : Type 0) : Type 0 where
  pub shared : Shared S
  pub running : List Program

module _ (redis : Redis) where
  open redis use {State}

  abbrev pub with_store : State → System State → System State
  with_store s u = record u { store = s }

  -- The next command of a program.
  abbrev pub command : Program → Shared State → Program × Shared State
  command (done a) u = (done a, u)
  command raised u = (raised, u)
  command (lpush k v p) u = (
    p,
    record u {
      system = record u.system {
        store = redis.lpush k v u.system.store;
        pushed = v ∷ u.system.pushed;
      };
    },
  )
  command (rpoplpush k l f) u =
      let (raw, s') = redis.rpoplpush k l u.system.store in
      (f raw, record { system = with_store s' u.system; handed = given raw ++ u.handed })
  command (lrange k f) u = (f (redis.lrange u.system.store k), u)
  command (lrem k v p) u = (
    p,
    record u {
      system = record u.system {
        store = redis.lrem k v u.system.store;
        completed = taken v (redis.lrange u.system.store k) ++ u.system.completed;
      };
    },
  )

  abbrev pub idle : State → Config State
  idle start = record {
    shared = record { system = record { store = start; pushed = []; completed = [] }; handed = [] };
    running = [];
  }

-- `Admits` says which operations may start.
module _ (redis : Redis) (codec : Codec) (Admits : Operation → Type 0) where
  open redis use {State}

  -- An operation starts; a handler issues its next command; a handler is gone.
  pub data Turn (c d : Config State) : Type 0 where
    starts :
        (o : Operation)
        → Admits o
        → d ≡ record c { running = program redis codec o ∷ c.running }
        → Turn c d
    issues :
        (before after : List Program) (p : Program)
        → c.running ≡ before ++ p ∷ after
        → d ≡ record c {
          shared = (command redis p c.shared).1;
          running = before ++ (command redis p c.shared).0 ∷ after;
        }
        → Turn c d
    stops :
        (before after : List Program) (p : Program)
        → c.running ≡ before ++ p ∷ after
        → d ≡ record c { running = before ++ after }
        → Turn c d

  pub data Turns (c : Config State) : Config State → Type 0 where
    no_turn : Turns c c
    turn : {d e : Config State} → Turns c d → Turn d e → Turns c e

  -- What holds of Redis, `Inv`, while every program is `Fine`: an invariant of all turns, if the
  -- programs of the operations are fine and a command of a fine program keeps both.
  module _ (Inv : Shared State → Type 0) (Fine : Program → Type 0)
      (begin : (o : Operation) → Admits o → Fine (program redis codec o))
      (keeps : (p : Program) (u : Shared State)
        → Fine p
        → Inv u
        → Inv (command redis p u).1 × Fine (command redis p u).0) where
    abbrev Holds : Config State → Type 0
    Holds c = Inv c.shared × All Fine c.running

    Turn-Holds : (c d : Config State) → Holds c → Turn c d → Holds d
    Turn-Holds c d (i, w) (starts o k e) = rw e (i, (begin o k, w))
    Turn-Holds c d (i, w) (issues before after p e f) =
        let (ws, (fine, ws')) = All-append Fine before (p ∷ after) (rw e at w) in
        let (i', fine') = keeps p c.shared fine i in
        rw f (i', append-All Fine before ((command redis p c.shared).0 ∷ after) ws (fine', ws'))
    Turn-Holds c d (i, w) (stops before after p e f) =
        let (ws, (fine, ws')) = All-append Fine before (p ∷ after) (rw e at w) in
        rw f (i, append-All Fine before after ws ws')

    Turns-Holds : (c d : Config State) → Holds c → Turns c d → Holds d
    Turns-Holds c d h no_turn = h
    Turns-Holds c d h (turn {d = e} ts t) = Turn-Holds e d (Turns-Holds c e h ts) t

    pub Turns-Inv :
        (start : State) (d : Config State)
        → Inv (idle redis start).shared
        → Turns (idle redis start) d
        → Inv d.shared
    Turns-Inv start d h ts = (Turns-Holds (idle redis start) d (h, tt) ts).0
