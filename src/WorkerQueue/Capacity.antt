-- ===== src/WorkerQueue/Capacity.antt =====
-- legacy/app/services/worker_queue.py: how many tasks `pop_tasks` returns.
use taxlien_gateway.Prelude.{
  ℕ, ◌+◌, ◌*◌, ◌≤◌, ◌≡◌, inl, inr, Option, none, some, List, [], ◌∷◌, String, Bool-cases,
  Option-cases, length, length-append, leb, not-leb→lt, arith,
}
use taxlien_gateway.Models.Worker.{WorkTask}
use taxlien_gateway.Redis.{Redis}
use taxlien_gateway.WorkerQueue.{
  Codec, queue_key, processing_key, take_raw, pop_priorities, priorities, pop_platforms, pop_tasks,
}

module _ (redis : Redis) (codec : Codec) where
  open redis use {State, rpoplpush}
  open codec use {loads}

  pub take_raw-length :
      (raw : Option String) (ts ts' : List WorkTask)
      → take_raw redis codec raw ts ≡ some ts'
      → length ts' ≤ length ts + 1
  unfolding take_raw
  take_raw-length none ts ts' e = ground arith
  take_raw-length (some v) ts ts' e = elim (Option-cases (loads v)) [
    | inl unread ↦ ground (arith, unread)
    | inr (t, read) ↦ ground (arith, read, length-append ts (t ∷ []))
  ]

  module _ (worker_id : String) (capacity : ℕ) where
    -- A run that starts within the capacity ends within it, and adds one task a round.
    pop_priorities-length :
        (platform : String) (ps : List ℕ) (ts : List WorkTask) (s : State) (ts' : List WorkTask)
        → length ts ≤ capacity
        → (pop_priorities redis codec worker_id capacity platform ps ts s).0 ≡ some ts'
        → (length ts' ≤ capacity) × (length ts' ≤ length ts + length ps)
    unfolding pop_priorities
    pop_priorities-length platform [] ts s ts' le e = ground arith
    pop_priorities-length platform (p ∷ ps) ts s ts' le e =
        let moved = rpoplpush (queue_key platform p) (processing_key worker_id) s in
        elim (Bool-cases (leb capacity (length ts))) [
          | inl full ↦ ground (arith, full)
          | inr space ↦ elim (Option-cases (take_raw redis codec moved.0 ts)) [
            | inl raised ↦ ground (arith, space, raised)
            | inr (more, read) ↦
                let le' = take_raw-length moved.0 ts more read in
                let ih =
                  pop_priorities-length platform ps more moved.1 ts'
                    (omega (arith, le', not-leb→lt _ _ space)) (rw (space, read) at e) in
                omega (arith, ih, le')
          ]
        ]

    pop_platforms-length :
        (platforms : List String) (ts : List WorkTask) (s : State) (ts' : List WorkTask)
        → length ts ≤ capacity
        → (pop_platforms redis codec worker_id capacity platforms ts s).0 ≡ some ts'
        → (length ts' ≤ capacity) × (length ts' ≤ length ts + 4 * length platforms)
    unfolding pop_platforms
    pop_platforms-length [] ts s ts' le e = ground arith
    pop_platforms-length (p ∷ more) ts s ts' le e =
        let r =
          pop_priorities redis codec worker_id capacity p
            (priorities redis codec worker_id capacity) ts s in
        elim (Bool-cases (leb capacity (length ts))) [
          | inl full ↦ ground (arith, full)
          | inr space ↦ elim (Option-cases r.0) [
            | inl raised ↦ ground (arith, space, raised)
            | inr (some_more, read) ↦
                let (within, few) = pop_priorities-length p _ ts s some_more le read in
                let ih =
                  pop_platforms-length more some_more r.1 ts' within (rw (space, read) at e) in
                omega (arith, ih, few)
          ]
        ]

  -- `pop_tasks` returns at most as many tasks as the capacity says, and at most four for each
  -- platform that is named: one of each priority.
  pub pop_tasks-length :
      (worker_id : String) (platforms : List String) (capacity : ℕ) (s : State) (ts : List WorkTask)
      → (pop_tasks redis codec worker_id platforms capacity s).0 ≡ some ts
      → (length ts ≤ capacity) × (length ts ≤ 4 * length platforms)
  unfolding pop_tasks
  pop_tasks-length worker_id platforms capacity s ts e =
      omega (arith, pop_platforms-length worker_id capacity platforms [] s ts (omega arith) e)
