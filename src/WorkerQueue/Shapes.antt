-- ===== src/WorkerQueue/Shapes.antt =====
-- legacy/app/services/worker_queue.py: what holds of the programs of the operations, if it holds of
-- each of their commands.
use taxlien_gateway.Prelude.{
  ℕ, inl, inr, Bool-cases, true, Option, Option-cases, List, [], ◌∷◌, String, leb, length, All,
}
use taxlien_gateway.Models.Worker.{WorkTask}
use taxlien_gateway.Redis.{Redis}
use taxlien_gateway.WorkerQueue.{Codec, queue_key, processing_key, take_raw, priorities, find_task}
use taxlien_gateway.WorkerQueue.Programs.{
  Answer, completed, Program, done, raised, rpoplpush, lrange, lrem, priorities_program,
  platforms_program, pop_program, complete_program,
}

module _ (redis : Redis) (codec : Codec) (Q : Program → Type 0)
    (returns : (a : Answer) → Q (done a)) (raises : Q raised) (worker_id : String) where
  module _ (capacity : ℕ) (Allowed : String → ℕ → Type 0)
      (moves : (platform : String) (p : ℕ) (f : Option String → Program)
        → Allowed platform p
        → ((raw : Option String) → Q (f raw))
        → Q (rpoplpush (queue_key platform p) (processing_key worker_id) f)) where
    priorities_program-all :
        (platform : String) (ps : List ℕ) (ts : List WorkTask) (after : List WorkTask → Program)
        → All (Allowed platform) ps
        → ((ts' : List WorkTask) → Q (after ts'))
        → Q (priorities_program redis codec worker_id capacity platform ps ts after)
    unfolding priorities_program
    priorities_program-all platform [] ts after i h = h ts
    priorities_program-all platform (p ∷ ps) ts after (i, is) h =
        elim (Bool-cases (leb capacity (length ts))) [
          | inl full ↦ rw full (h ts)
          | inr space ↦ rw space (
              moves platform p _ i (λ raw. elim (Option-cases (take_raw redis codec raw ts)) [
                | inl bad ↦ rw bad raises
                | inr (ts', read) ↦ rw read (priorities_program-all platform ps ts' after is h)
              ]))
        ]

    platforms_program-all :
        (platforms : List String) (ts : List WorkTask)
        → All (λ platform. All (Allowed platform) (1 ∷ 2 ∷ 3 ∷ 4 ∷ [])) platforms
        → Q (platforms_program redis codec worker_id capacity platforms ts)
    unfolding platforms_program
    platforms_program-all [] ts i = returns _
    platforms_program-all (p ∷ more) ts (i, is) = elim (Bool-cases (leb capacity (length ts))) [
      | inl full ↦ rw full (returns _)
      | inr space ↦ rw space (
          priorities_program-all p (priorities redis codec worker_id capacity) ts
            (platforms_program redis codec worker_id capacity more) i
            (λ ts'. platforms_program-all more ts' is))
    ]

    pub pop_program-all :
        (platforms : List String)
        → All (λ platform. All (Allowed platform) (1 ∷ 2 ∷ 3 ∷ 4 ∷ [])) platforms
        → Q (pop_program redis codec worker_id platforms capacity)
    unfolding pop_program
    pop_program-all platforms is = platforms_program-all platforms [] is

  pub complete_program-all :
      (task_id : String)
      → ((f : List String → Program)
          → ((raws : List String) → Q (f raws))
          → Q (lrange (processing_key worker_id) f))
      → ((raw : String) → Q (lrem (processing_key worker_id) raw (done (completed true))))
      → Q (complete_program redis codec worker_id task_id)
  unfolding complete_program
  complete_program-all task_id reads removes = reads _ (λ raws.
      elim (Option-cases (find_task redis codec task_id raws)) [
        | inl bad ↦ rw bad raises
        | inr (o, found) ↦ elim (Option-cases o) [
          | inl missing ↦ rw (found, missing) (returns _)
          | inr (raw, hit) ↦ rw (found, hit) (removes raw)
        ]
      ])
