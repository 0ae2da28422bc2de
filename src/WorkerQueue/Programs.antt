-- ===== src/WorkerQueue/Programs.antt =====
-- legacy/app/services/worker_queue.py: the operations as programs that await one Redis command after
-- another, which is where other handlers get their turn.
use taxlien_gateway.Prelude.{
  ℕ, ◌≡◌, ◌∙◌, inl, inr, refl, Bool, true, false, Option, none, some, List, [], ◌∷◌, String, leb,
  length, if◌then◌else◌, Bool-cases, Option-cases,
}
use taxlien_gateway.Models.Worker.{WorkTask}
use taxlien_gateway.Redis.{Redis}
use taxlien_gateway.WorkerQueue.{
  Codec, queue_key, processing_key, push_task, take_raw, pop_priorities, priorities, pop_platforms,
  pop_tasks, find_task, complete_task,
}
use taxlien_gateway.WorkerQueue.Operations.{Operation, pushing, popping, completing}

-- What an operation returns.
pub data Answer : Type 0 where
  pushed : Answer
  popped : List WorkTask → Answer
  completed : Bool → Answer

-- What is left of a running operation: its next command, and how it goes on with the command's
-- result; or that it has returned or raised.
pub data Program : Type 0 where
  done : Answer → Program
  raised : Program
  lpush : String → String → Program → Program
  rpoplpush : String → String → (Option String → Program) → Program
  lrange : String → (List String → Program) → Program
  lrem : String → String → Program → Program

module _ (redis : Redis) (codec : Codec) where
  open redis use {State}

  unfoldable pub push_program : WorkTask → Program
  push_program task = lpush (queue_key task.platform task.priority) (codec.dumps task) (done pushed)

  module _ (worker_id : String) (capacity : ℕ) where
    -- The inner loop, and what comes after it.
    unfoldable pub priorities_program :
        String → List ℕ → List WorkTask → (List WorkTask → Program) → Program
    priorities_program platform [] tasks after = after tasks
    priorities_program platform (priority ∷ more) tasks after =
        let step : Program =
          rpoplpush (queue_key platform priority) (processing_key worker_id) (λ raw.
            elim (take_raw redis codec raw tasks) [
              | none ↦ raised
              | some tasks' ↦ priorities_program platform more tasks' after
            ]) in
        if leb capacity (length tasks) then after tasks else step

    unfoldable pub platforms_program : List String → List WorkTask → Program
    platforms_program [] tasks = done (popped tasks)
    platforms_program (platform ∷ more) tasks =
        let step : Program =
          priorities_program platform (priorities redis codec worker_id capacity) tasks
            (λ tasks'. platforms_program more tasks') in
        if leb capacity (length tasks) then done (popped tasks) else step

  unfoldable pub pop_program : String → List String → ℕ → Program
  pop_program worker_id platforms capacity = platforms_program worker_id capacity platforms []

  unfoldable pub complete_program : String → String → Program
  complete_program worker_id task_id =
      let key = processing_key worker_id in
      lrange key (λ raws. elim (find_task redis codec task_id raws) [
        | none ↦ raised
        | some none ↦ done (completed false)
        | some (some raw) ↦ lrem key raw (done (completed true))
      ])

  abbrev pub program : Operation → Program
  program (pushing t) = push_program t
  program (popping worker_id platforms capacity) = pop_program worker_id platforms capacity
  program (completing worker_id task_id) = complete_program worker_id task_id

  -- A program that no other interrupts: what it returns, or `none` if it raises.
  unfoldable pub run : Program → State → Option Answer × State
  run (done a) s = (some a, s)
  run raised s = (none, s)
  run (lpush k v p) s = run p (redis.lpush k v s)
  run (rpoplpush k l f) s = let (raw, s') = redis.rpoplpush k l s in run (f raw) s'
  run (lrange k f) s = run (f (redis.lrange s k)) s
  run (lrem k v p) s = run p (redis.lrem k v s)

  abbrev answering : {A : Type 0} → (A → Answer) → Option A × State → Option Answer × State
  answering f (none, s) = (none, s)
  answering f (some a, s) = (some (f a), s)

  -- What the code does in one piece.
  abbrev pub perform : Operation → State → Option Answer × State
  perform (pushing t) s = (some pushed, push_task redis codec t s)
  perform (popping worker_id platforms capacity) s =
      answering popped (pop_tasks redis codec worker_id platforms capacity s)
  perform (completing worker_id task_id) s =
      answering completed (complete_task redis codec worker_id task_id s)

  module _ (worker_id : String) (capacity : ℕ) where
    -- What is left to do once the loop over the priorities is over.
    continue : (List WorkTask → Program) → Option (List WorkTask) × State → Option Answer × State
    continue after (none, s) = (none, s)
    continue after (some tasks, s) = run (after tasks) s

    run-priorities_program :
        (platform : String) (ps : List ℕ) (tasks : List WorkTask) (after : List WorkTask → Program)
        (s : State)
        → run (priorities_program worker_id capacity platform ps tasks after) s
          ≡ continue after (pop_priorities redis codec worker_id capacity platform ps tasks s)
    unfolding run priorities_program pop_priorities continue
    run-priorities_program platform [] tasks after s = refl
    run-priorities_program platform (p ∷ ps) tasks after s =
        elim (Bool-cases (leb capacity (length tasks))) [
          | inl full ↦ rw full
          | inr space ↦
              let (raw, s') = redis.rpoplpush (queue_key platform p) (processing_key worker_id) s in
              elim (Option-cases (take_raw redis codec raw tasks)) [
                | inl bad ↦ rw (space, run, bad, continue)
                | inr (tasks', read) ↦
                    rw (space, run, read) (run-priorities_program platform ps tasks' after s')
              ]
        ]

    run-platforms_program :
        (platforms : List String) (tasks : List WorkTask) (s : State)
        → run (platforms_program worker_id capacity platforms tasks) s
          ≡ continue
              (λ tasks'. done (popped tasks'))
              (pop_platforms redis codec worker_id capacity platforms tasks s)
    unfolding run platforms_program pop_platforms continue
    run-platforms_program [] tasks s = refl
    run-platforms_program (p ∷ more) tasks s = elim (Bool-cases (leb capacity (length tasks))) [
      | inl full ↦ rw full
      | inr space ↦
          let four = priorities redis codec worker_id capacity in
          let r = pop_priorities redis codec worker_id capacity p four tasks s in
          let first =
            run-priorities_program p four tasks (platforms_program worker_id capacity more) s in
          elim (Option-cases r.0) [
            | inl bad ↦ rw (space, first, bad, continue)
            | inr (tasks', read) ↦
                rw (space, first, read, continue) (run-platforms_program more tasks' r.1)
          ]
    ]

  continue-done :
      (worker_id : String) (capacity : ℕ) (r : Option (List WorkTask) × State)
      → continue worker_id capacity (λ tasks. done (popped tasks)) r ≡ answering popped r
  unfolding continue run
  continue-done worker_id capacity (none, s) = refl
  continue-done worker_id capacity (some tasks, s) = refl

  -- Each operation, as a program that awaits its commands one by one, does what the code does in one
  -- piece where no other handler comes between: it returns the same, or raises as well, and leaves
  -- the same store.
  run-program : (o : Operation) (s : State) → run (program o) s ≡ perform o s
  unfolding run push_program push_task pop_program pop_tasks complete_program complete_task
  run-program (pushing t) s = refl
  run-program (popping worker_id platforms capacity) s =
      run-platforms_program worker_id capacity platforms [] s ∙ continue-done worker_id capacity _
  run-program (completing worker_id task_id) s =
      elim (Option-cases
        (find_task redis codec task_id (redis.lrange s (processing_key worker_id)))) [
          | inl bad ↦ rw (run, bad, complete_task, answering)
          | inr (o, found) ↦ elim (Option-cases o) [
            | inl missing ↦ rw (run, found, missing, complete_task, answering)
            | inr (raw, hit) ↦ rw (run, found, hit, complete_task, answering)
          ]
        ]
