-- ===== src/WorkerQueue/Custody.antt =====
-- legacy/app/services/worker_queue.py: what becomes of the tasks that were handed to a worker, while
-- any handlers run that complete none for it.
use taxlien_gateway.Prelude.{
  ℕ, All, ℕ, ◌≡◌, ◌≢◌, inl, inr, refl, ◌∙◌, Bool-cases, Option, List, [], ◌∷◌, ◌++◌, String, str_eq,
  eq-false_of_ne,
}
use taxlien_gateway.Redis.{Redis}
use taxlien_gateway.WorkerQueue.{Codec, processing_key}
use taxlien_gateway.WorkerQueue.Loop.{snoc-cases, queue_key-ne-processing_key}
use taxlien_gateway.WorkerQueue.Others.{processing_key-ne}
use taxlien_gateway.WorkerQueue.Operations.{Operation, pushing, popping, completing}
use taxlien_gateway.WorkerQueue.Shapes.{pop_program-all, complete_program-all}
use taxlien_gateway.WorkerQueue.Handlers.{Shared, Config, command, idle, Turns, Turns-Inv}
use taxlien_gateway.WorkerQueue.Programs.{
  Program, done, raised, lpush, rpoplpush, lrange, lrem, push_program, program,
}

module _ (redis : Redis) (codec : Codec) (worker_id : String) where
  open redis use {State}

  -- No completion for this worker.
  abbrev pub Leaves : Operation → Type 0
  Leaves (pushing t) = Unit
  Leaves (popping other platforms capacity) = Unit
  Leaves (completing other task_id) = other ≢ worker_id

  abbrev key : String
  key = processing_key worker_id

  -- A program that takes nothing from the worker's list.
  abbrev Spares : Program → Type 0
  Spares (done a) = Unit
  Spares raised = Unit
  Spares (lpush k v p) = Spares p
  Spares (rpoplpush k l f) = (k ≢ key) × (k ≢ l) × ((raw : Option String) → Spares (f raw))
  Spares (lrange k f) = (raws : List String) → Spares (f raws)
  Spares (lrem k v p) = (k ≢ key) × Spares p

  always :
      (platforms : List String)
      → All (λ platform. All (λ (p : ℕ). Unit {0}) (1 ∷ 2 ∷ 3 ∷ 4 ∷ [])) platforms
  always [] = tt
  always (p ∷ ps) = ((tt, (tt, (tt, (tt, tt)))), always ps)

  program-Spares : (o : Operation) → Leaves o → Spares (program redis codec o)
  unfolding push_program
  program-Spares (pushing t) h = tt
  program-Spares (popping other platforms capacity) h =
      pop_program-all redis codec Spares (λ a. tt) tt other capacity (λ platform p. Unit)
        (λ platform p f i w. (
          queue_key-ne-processing_key platform worker_id p,
          queue_key-ne-processing_key platform other p,
          w,
        ))
        platforms (always platforms)
  program-Spares (completing other task_id) h =
      complete_program-all redis codec Spares (λ a. tt) tt other task_id (λ f w. w)
        (λ raw. (processing_key-ne other worker_id h, tt))

  -- The worker's list is what it was, behind what was handed out since.
  abbrev pub Extends : List String → State → Type 0
  Extends old s = (since : List String) × (redis.lrange s key ≡ since ++ old)

  module _ (old : List String) where
    keeps-lpush : (k v : String) (s : State) → Extends old s → Extends old (redis.lpush k v s)
    keeps-lpush k v s (since, e) = elim (Bool-cases (str_eq k key)) [
      | inl same ↦ (v ∷ since, redis.lrange-lpush k key v s ∙ rw same (rw e))
      | inr other ↦ (since, redis.lrange-lpush k key v s ∙ rw other e)
    ]

    keeps-lrem :
        (k v : String) (s : State) → k ≢ key → Extends old s → Extends old (redis.lrem k v s)
    keeps-lrem k v s n (since, e) = (since, redis.lrange-lrem k key v s ∙ rw (eq-false_of_ne n) e)

    keeps-rpoplpush :
        (k l : String) (s : State)
        → k ≢ key
        → k ≢ l
        → Extends old s
        → Extends old (redis.rpoplpush k l s).1
    keeps-rpoplpush k l s n m (since, e) = elim (snoc-cases (redis.lrange s k)) [
      | inl nothing ↦ (since, rw (redis.rpoplpush-empty k l s nothing) e)
      | inr (vs, v, is) ↦
          let moved = redis.lrange-rpoplpush k l key v vs s m is in
          elim (Bool-cases (str_eq l key)) [
            | inl same ↦ (v ∷ since, moved ∙ rw (eq-false_of_ne n, same) (rw e))
            | inr other ↦ (since, moved ∙ rw (eq-false_of_ne n, other) e)
          ]
    ]

    command-Extends :
        (p : Program) (u : Shared State)
        → Spares p
        → Extends old u.system.store
        → Extends old (command redis p u).1.system.store × Spares (command redis p u).0
    command-Extends (done a) u w h = (h, tt)
    command-Extends raised u w h = (h, tt)
    command-Extends (lpush k v p) u w h = (keeps-lpush k v u.system.store h, w)
    command-Extends (rpoplpush k l f) u (n, m, w) h =
        (keeps-rpoplpush k l u.system.store n m h, w (redis.rpoplpush k l u.system.store).0)
    command-Extends (lrange k f) u w h = (h, w (redis.lrange u.system.store k))
    command-Extends (lrem k v p) u (n, w) h = (keeps-lrem k v u.system.store n h, w)

  -- From a moment at which no handler runs, whatever handlers then push, pop and complete, however
  -- their commands interleave and wherever handlers are cancelled or die: unless one completes a task
  -- for this worker, all that the worker's processing list held is there at the end, in the same
  -- order, behind what was handed to the worker since.
  pub held_tasks_stay :
      (start : State) (d : Config State)
      → Turns redis codec Leaves (idle redis start) d
      → Extends (redis.lrange start (processing_key worker_id)) d.shared.system.store
  held_tasks_stay start d ts =
      let old = redis.lrange start key in
      Turns-Inv redis codec Leaves (λ u. Extends old u.system.store) Spares program-Spares
        (command-Extends old) start d ([], refl) ts
