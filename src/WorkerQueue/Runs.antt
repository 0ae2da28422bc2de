-- ===== src/WorkerQueue/Runs.antt =====
-- legacy/app/services/worker_queue.py: an operation that no other interrupts as a run of the steps of
-- `Workers`.
use taxlien_gateway.Prelude.{
  none, some, ℕ, inl, inr, refl, List, [], ◌∷◌, ◌++◌, String, Among, All, leb, length, Bool-cases,
  Option-cases,
}
use taxlien_gateway.Models.Worker.{WorkTask}
use taxlien_gateway.Redis.{Redis}
use taxlien_gateway.WorkerQueue.{
  Codec, queue_key, processing_key, push_task, take_raw, pop_priorities, priorities, pop_platforms,
  pop_tasks, find_task, complete_task,
}
use taxlien_gateway.WorkerQueue.Contents.{taken}
use taxlien_gateway.WorkerQueue.Workers.{System, push, move, remove, Reach, here, next, Reach-trans}

module _ (redis : Redis) (codec : Codec) (keys : List String) where
  open redis use {State, lrange, rpoplpush, lrem}

  -- The keys of a platform's four queues are in use.
  abbrev pub InUse : String → Type 0
  InUse platform = All (λ p. Among (queue_key platform p) keys) (1 ∷ 2 ∷ 3 ∷ 4 ∷ [])

  module _ (worker_id : String) (capacity : ℕ) (j : Among (processing_key worker_id) keys) where
    pop_priorities-Reach :
        (platform : String) (ps : List ℕ) (ts : List WorkTask) (s : System State)
        → All (λ p. Among (queue_key platform p) keys) ps
        → Reach redis codec keys s (record s {
          store = (pop_priorities redis codec worker_id capacity platform ps ts s.store).1;
        })
    unfolding pop_priorities
    pop_priorities-Reach platform [] ts s i = here
    pop_priorities-Reach platform (p ∷ ps) ts s (i, is) =
        let moved = rpoplpush (queue_key platform p) (processing_key worker_id) s.store in
        let s' = record s { store = moved.1 } in
        let one : Reach redis codec keys s s' = next here (move platform p worker_id i j refl) in
        elim (Bool-cases (leb capacity (length ts))) [
          | inl full ↦ rw full here
          | inr space ↦ elim (Option-cases (take_raw redis codec moved.0 ts)) [
            | inl raised ↦ rw (space, raised) one
            | inr (ts', read) ↦
                rw (space, read)
                  (Reach-trans redis codec keys one (pop_priorities-Reach platform ps ts' s' is))
          ]
        ]

    pop_platforms-Reach :
        (platforms : List String) (ts : List WorkTask) (s : System State)
        → All InUse platforms
        → Reach redis codec keys s (record s {
          store = (pop_platforms redis codec worker_id capacity platforms ts s.store).1;
        })
    unfolding pop_platforms
    pop_platforms-Reach [] ts s i = here
    pop_platforms-Reach (p ∷ more) ts s (i, is) =
        let four = priorities redis codec worker_id capacity in
        let r = pop_priorities redis codec worker_id capacity p four ts s.store in
        let s' = record s { store = r.1 } in
        let one = pop_priorities-Reach p four ts s i in
        elim (Bool-cases (leb capacity (length ts))) [
          | inl full ↦ rw full here
          | inr space ↦ elim (Option-cases r.0) [
            | inl raised ↦ rw (space, raised) one
            | inr (ts', read) ↦
                rw (space, read)
                  (Reach-trans redis codec keys one (pop_platforms-Reach more ts' s' is))
          ]
        ]

  pub pop_tasks-Reach :
      (worker_id : String) (platforms : List String) (capacity : ℕ) (s : System State)
      → Among (processing_key worker_id) keys
      → All InUse platforms
      → Reach redis codec keys s
          (record s { store = (pop_tasks redis codec worker_id platforms capacity s.store).1 })
  unfolding pop_tasks
  pop_tasks-Reach worker_id platforms capacity s j is =
      pop_platforms-Reach worker_id capacity j platforms [] s is

  pub push_task-Reach :
      (t : WorkTask) (s : System State)
      → Among (queue_key t.platform t.priority) keys
      → Reach redis codec keys s
          (record s { store = push_task redis codec t s.store; pushed = codec.dumps t ∷ s.pushed })
  push_task-Reach t s i = next here (push t i refl)

  -- What `complete_task` takes out of the worker's list.
  abbrev pub removed_by : String → String → State → List String
  removed_by worker_id task_id s =
      let raws = lrange s (processing_key worker_id) in
      elim (find_task redis codec task_id raws) [
        | none ↦ []
        | some o ↦ elim o [ none ↦ [] | some raw ↦ taken raw raws ]
      ]

  pub complete_task-Reach :
      (worker_id task_id : String) (s : System State)
      → Among (processing_key worker_id) keys
      → Reach redis codec keys s (record s {
        store = (complete_task redis codec worker_id task_id s.store).1;
        completed = removed_by worker_id task_id s.store ++ s.completed;
      })
  unfolding complete_task
  complete_task-Reach worker_id task_id s j =
      elim (Option-cases
        (find_task redis codec task_id (lrange s.store (processing_key worker_id)))) [
          | inl raised ↦ rw (complete_task, removed_by, raised) here
          | inr (o, found) ↦ elim (Option-cases o) [
            | inl missing ↦ rw (complete_task, removed_by, found, missing) here
            | inr (raw, hit) ↦
                rw (complete_task, removed_by, found, hit) (next here (remove worker_id raw j refl))
          ]
        ]
