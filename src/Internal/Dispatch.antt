-- ===== src/Internal/Dispatch.antt =====
-- legacy/app/api/internal/parcel: handing out work and taking it back.
use taxlien_gateway.Prelude.{
  ℕ, ◌*◌, ◌≤◌, ◌≡◌, ◌≢◌, ◌↔◌, inl, inr, ap, ◌∙◌, true, ◌&&◌, Option, some, List, [], String, leb,
  leb→le, length, Option-cases, Bool-cases, arith,
}
use taxlien_gateway.Models.Auth.{AuthContext}
use taxlien_gateway.Models.Worker.{WorkTask, WorkResponse}
use taxlien_gateway.Redis.{Redis}
use taxlien_gateway.WorkerQueue.{Codec, processing_key, pop_tasks}
use taxlien_gateway.WorkerQueue.Capacity.{pop_tasks-length}
use taxlien_gateway.WorkerQueue.Complete.{AllTasks}
use taxlien_gateway.WorkerQueue.RoundTrip.{In, popped_can_be_completed}
use taxlien_gateway.Internal.{
  is_empty, WorkAnswer, work, invalid, raised, worker_of, capacity_of, get_work, complete,
}

work-injective : (q r : WorkResponse) → work q ≡ work r → q ≡ r
work-injective q r e = ap response e
  where
    response : WorkAnswer → WorkResponse
    response (work x) = x
    response invalid = q
    response raised = q

invalid-ne-work : (r : WorkResponse) → invalid ≢ work r
invalid-ne-work r e = ground arith

raised-ne-work : (r : WorkResponse) → raised ≢ work r
raised-ne-work r e = ground arith

module _ (redis : Redis) (codec : Codec) where
  open redis use {State, lrange}

  -- A response with work comes from `pop_tasks` with parameters in range.
  record IsWork (auth : AuthContext) (capacity : Option ℕ) (platforms : List String) (s : State)
      (r : WorkResponse) : Type 0 where
    small : capacity_of capacity ≤ 100
    popped :
        (pop_tasks redis codec (worker_of auth) platforms (capacity_of capacity) s).0 ≡ some r.tasks
    state :
        (get_work redis codec auth capacity platforms s).1
        ≡ (pop_tasks redis codec (worker_of auth) platforms (capacity_of capacity) s).1
    idle : (r.retry_after ≡ 30) ↔ (r.tasks ≡ [])

  get_work-IsWork :
      (auth : AuthContext) (capacity : Option ℕ) (platforms : List String) (s : State)
      (r : WorkResponse)
      → (get_work redis codec auth capacity platforms s).0 ≡ work r
      → IsWork auth capacity platforms s r
  unfolding get_work
  get_work-IsWork auth capacity platforms s r e =
      let n = capacity_of capacity in
      elim (Bool-cases (is_empty platforms)) [
        | inl none_given ↦ absurd (invalid-ne-work r (rw (get_work, none_given) at e))
        | inr given ↦ elim (Bool-cases (leb 1 n && leb n 100)) [
          | inr outside ↦ absurd (invalid-ne-work r (rw (get_work, given, outside) at e))
          | inl inside ↦
              elim (Option-cases (pop_tasks redis codec (worker_of auth) platforms n s).0) [
                | inl failed ↦ absurd (raised-ne-work r (rw (get_work, given, inside, failed) at e))
                | inr (ts, popped) ↦
                    let same = work-injective _ r (rw (get_work, given, inside, popped) at e) in
                    let tasks : ts ≡ r.tasks = ap (λ (x : WorkResponse). x.tasks) same in
                    let wait = ap (λ (x : WorkResponse). x.retry_after) same in
                    record {
                      small = ground (arith, inside, leb→le n 100);
                      popped = popped ∙ ap some tasks;
                      state = rw (get_work, given, inside);
                      idle = (
                        λ h. ground (arith, h, wait, tasks),
                        λ h. ground (arith, h, wait, tasks),
                      );
                    }
              ]
        ]
      ]

  -- If `get_work` answers with work, then the tasks are at most as many as the capacity asked for,
  -- which is 10 if none is given and at most 100, and at most four for each platform; and the worker
  -- is told to wait for 30 seconds exactly if there are none.
  pub get_work-bounds :
      (auth : AuthContext) (capacity : Option ℕ) (platforms : List String) (s : State)
      (r : WorkResponse)
      → (get_work redis codec auth capacity platforms s).0 ≡ work r
      → (length r.tasks ≤ capacity_of capacity)
        × (capacity_of capacity ≤ 100)
        × (length r.tasks ≤ 4 * length platforms)
        × ((r.retry_after ≡ 30) ↔ (r.tasks ≡ []))
  get_work-bounds auth capacity platforms s r e =
      let w = get_work-IsWork auth capacity platforms s r e in
      let (few, four) =
        pop_tasks-length redis codec (worker_of auth) platforms (capacity_of capacity) s r.tasks
          w.popped in
      (few, w.small, four, w.idle)

  -- Every task that `get_work` hands to a worker can then be reported complete by the same worker:
  -- the answer says success, if the worker's processing list holds nothing but tasks.
  pub handed_out_can_be_completed :
      (auth : AuthContext) (capacity : Option ℕ) (platforms : List String) (s : State)
      (r : WorkResponse) (t : WorkTask)
      → let s' = (get_work redis codec auth capacity platforms s).1 in
        (get_work redis codec auth capacity platforms s).0 ≡ work r
        → In t r.tasks
        → AllTasks redis codec (lrange s' (processing_key (worker_of auth)))
        → (complete redis codec auth t.task_id s').0 ≡ some true
  unfolding complete
  handed_out_can_be_completed auth capacity platforms s r t e i all =
      let w = get_work-IsWork auth capacity platforms s r e in
      rw w.state (
        popped_can_be_completed redis codec (worker_of auth) platforms (capacity_of capacity) s
          r.tasks t w.popped i (rw w.state at all))
