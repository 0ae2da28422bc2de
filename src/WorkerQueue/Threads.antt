-- ===== src/WorkerQueue/Threads.antt =====
-- legacy/app/services/worker_queue.py: what the handlers that run at the same time can do to the lists
-- in use, taken together.
use taxlien_gateway.Prelude.{ℕ, ◌≡◌, refl, Option, List, ◌++◌, String, Among, Distinct, of_list}
use taxlien_gateway.Models.Worker.{WorkTask}
use taxlien_gateway.Redis.{Redis}
use taxlien_gateway.WorkerQueue.{Codec, push_task, queue_key, processing_key}
use taxlien_gateway.WorkerQueue.Contents.{all_texts}
use taxlien_gateway.WorkerQueue.Workers.{
  System, push, move, remove, Reach, here, next, Reach-trans, tasks_are_conserved,
}
use taxlien_gateway.WorkerQueue.Operations.{Operation, pushing, popping, completing, Keeps}
use taxlien_gateway.WorkerQueue.Shapes.{pop_program-all, complete_program-all}
use taxlien_gateway.WorkerQueue.Handlers.{Shared, Config, command, idle, Turns, Turns-Inv}
use taxlien_gateway.WorkerQueue.Programs.{
  Program, done, raised, lpush, rpoplpush, lrange, lrem, push_program, program,
}

module _ (redis : Redis) (codec : Codec) (keys : List String) where
  open redis use {State}

  -- A program pushes, moves and removes by steps of `Workers` only, whatever its commands answer.
  abbrev IsWithin : Program → Type 0
  IsWithin (done a) = Unit
  IsWithin raised = Unit
  IsWithin (lpush k v p) =
      ((t : WorkTask) × (k ≡ queue_key t.platform t.priority)
        × (v ≡ codec.dumps t)
        × Among (queue_key t.platform t.priority) keys)
      × IsWithin p
  IsWithin (rpoplpush k l f) =
      ((platform : String) × (priority : ℕ) × (worker_id : String) × (k
          ≡ queue_key platform priority)
        × (l ≡ processing_key worker_id)
        × Among (queue_key platform priority) keys
        × Among (processing_key worker_id) keys)
      × ((raw : Option String) → IsWithin (f raw))
  IsWithin (lrange k f) = (raws : List String) → IsWithin (f raws)
  IsWithin (lrem k v p) =
      ((worker_id : String) × (k ≡ processing_key worker_id)
        × Among (processing_key worker_id) keys)
      × IsWithin p

  program-IsWithin : (o : Operation) → Keeps redis codec keys o → IsWithin (program redis codec o)
  unfolding push_program
  program-IsWithin (pushing t) i = ((t, refl, refl, i), tt)
  program-IsWithin (popping worker_id platforms capacity) (j, is) =
      pop_program-all redis codec IsWithin (λ a. tt) tt worker_id capacity
        (λ platform p. Among (queue_key platform p) keys)
        (λ platform p f i h. ((platform, p, worker_id, refl, refl, i, j), h)) platforms is
  program-IsWithin (completing worker_id task_id) j =
      complete_program-all redis codec IsWithin (λ a. tt) tt worker_id task_id (λ f h. h)
        (λ raw. ((worker_id, refl, j), tt))

  -- A command is a step of `Workers`, or none.
  command-Reach :
      (p : Program) (u : Shared State)
      → IsWithin p
      → Reach redis codec keys u.system (command redis p u).1.system
  unfolding push_task
  command-Reach (done a) u w = here
  command-Reach raised u w = here
  command-Reach (lpush k v p) u ((t, at, text, i), w) = next here (push t i (rw (at, text)))
  command-Reach (rpoplpush k l f) u ((platform, priority, worker_id, from, to, i, j), w) =
      next here (move platform priority worker_id i j (rw (from, to)))
  command-Reach (lrange k f) u w = here
  command-Reach (lrem k v p) u ((worker_id, at, i), w) = next here (remove worker_id v i (rw at))

  command-IsWithin : (p : Program) (u : Shared State) → IsWithin p → IsWithin (command redis p u).0
  command-IsWithin (done a) u w = tt
  command-IsWithin raised u w = tt
  command-IsWithin (lpush k v p) u (i, w) = w
  command-IsWithin (rpoplpush k l f) u (i, w) = w (redis.rpoplpush k l u.system.store).0
  command-IsWithin (lrange k f) u w = w (redis.lrange u.system.store k)
  command-IsWithin (lrem k v p) u (i, w) = w

  command-keeps :
      {s : System State} (p : Program) (u : Shared State)
      → IsWithin p
      → Reach redis codec keys s u.system
      → Reach redis codec keys s (command redis p u).1.system × IsWithin (command redis p u).0
  command-keeps p u w r =
      (Reach-trans redis codec keys r (command-Reach p u w), command-IsWithin p u w)

  -- From a moment at which no handler runs, however many then push, pop and complete on the lists in
  -- use, whose keys are distinct, however their commands interleave, and wherever handlers are
  -- cancelled or die: as bags, what these lists hold and what the completions took out together are
  -- what the lists held at the start and what was pushed since.
  pub handlers_conserve_tasks :
      (start : State) (d : Config State)
      → Distinct keys
      → Turns redis codec (Keeps redis codec keys) (idle redis start) d
      → of_list (d.shared.system.completed ++ all_texts redis keys d.shared.system.store)
        ≡ of_list (d.shared.system.pushed ++ all_texts redis keys start)
  handlers_conserve_tasks start d distinct ts =
      let s = (idle redis start).shared.system in
      let r =
        Turns-Inv redis codec (Keeps redis codec keys) (λ u. Reach redis codec keys s u.system)
          IsWithin program-IsWithin command-keeps start d here ts in
      tasks_are_conserved redis codec keys s d.shared.system distinct r refl refl
