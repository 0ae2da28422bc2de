-- ===== src/WorkerQueue.antt =====
-- legacy/app/services/worker_queue.py: the queues of tasks in Redis.
-- The JSON texts of tasks are made and read by pydantic and json, which are not in the repository:
-- they are the parameter `Codec`.
pub mod Plain
pub mod Contents
pub mod Workers
pub mod Runs
pub mod Operations
pub mod Programs
pub mod Shapes
pub mod Handlers
pub mod Threads
pub mod Custody
pub mod HandOut
pub mod Commands
pub mod Others
pub mod Drain
pub mod Rounds
pub mod Fairness
pub mod Waiting
pub mod Loop
pub mod Pop
pub mod Capacity
pub mod Order
pub mod Complete
pub mod RoundTrip
mod Tests
mod HandlersTests
use taxlien_gateway.Prelude.{
  ℕ, ◌≡◌, Bool, true, false, Option, none, some, List, [], ◌∷◌, ◌++◌, String, truthy, ◌<>◌, str_of,
  str_eq, leb, length, if◌then◌else◌,
}
use taxlien_gateway.Models.Worker.{WorkTask}
use taxlien_gateway.Redis.{Redis}

pub record Codec : Type 0 where
  -- `model_dump_json`
  pub dumps : WorkTask → String
  -- `WorkTask(**json.loads(raw))`; `none` is an exception
  pub loads : String → Option WorkTask
  -- `json.loads(raw)["task_id"]`; `none` is an exception
  pub task_id_of : String → Option String
  pub task_id_of-loads :
      (raw : String) (t : WorkTask) → loads raw ≡ some t → task_id_of raw ≡ some t.task_id
  -- The JSON text of an object is not empty.
  pub truthy-loads : (raw : String) (t : WorkTask) → loads raw ≡ some t → truthy (some raw) ≡ true

-- `_get_queue_key`
abbrev pub queue_key : String → ℕ → String
queue_key platform priority = "queue:" <> platform <> ":p" <> str_of priority

-- `_get_processing_key`
abbrev pub processing_key : String → String
processing_key worker_id = "processing:" <> worker_id

module _ (redis : Redis) (codec : Codec) where
  open redis use {State, lrange, lpush, rpoplpush, lrem}
  open codec use {dumps, loads, task_id_of}

  unfoldable pub push_task : WorkTask → State → State
  push_task task s = lpush (queue_key task.platform task.priority) (dumps task) s

  -- One round of the inner loop after RPOPLPUSH: the new list of tasks, or an exception. The task
  -- stays in the processing list when its text cannot be read.
  unfoldable pub take_raw : Option String → List WorkTask → Option (List WorkTask)
  take_raw raw tasks =
      if truthy raw
      then elim raw [
        | none ↦ some tasks
        | some text ↦ elim (loads text) [ none ↦ none | some task ↦ some (tasks ++ task ∷ []) ]
      ]
      else some tasks

  module _ (worker_id : String) (capacity : ℕ) where
    -- The loop over the priorities; `none` is an exception. Its break ends the outer loop too, whose
    -- test is the same.
    unfoldable pub pop_priorities :
        String → List ℕ → List WorkTask → State → Option (List WorkTask) × State
    pop_priorities platform [] tasks s = (some tasks, s)
    pop_priorities platform (priority ∷ more) tasks s =
        let (raw, s') = rpoplpush (queue_key platform priority) (processing_key worker_id) s in
        let step : Option (List WorkTask) × State = elim (take_raw raw tasks) [
          | none ↦ (none, s')
          | some tasks' ↦ pop_priorities platform more tasks' s'
        ] in
        if leb capacity (length tasks) then (some tasks, s) else step

    abbrev pub priorities : List ℕ
    priorities = 1 ∷ 2 ∷ 3 ∷ 4 ∷ []

    -- The loop over the platforms.
    unfoldable pub pop_platforms :
        List String → List WorkTask → State → Option (List WorkTask) × State
    pop_platforms [] tasks s = (some tasks, s)
    pop_platforms (platform ∷ more) tasks s =
        let (result, s') = pop_priorities platform priorities tasks s in
        let step : Option (List WorkTask) × State = elim result [
          | none ↦ (none, s')
          | some tasks' ↦ pop_platforms more tasks' s'
        ] in
        if leb capacity (length tasks) then (some tasks, s) else step

  unfoldable pub pop_tasks : String → List String → ℕ → State → Option (List WorkTask) × State
  pop_tasks worker_id platforms capacity s = pop_platforms worker_id capacity platforms [] s

  -- The loop of `complete_task` over the texts of the processing list: `none` is an exception, and
  -- otherwise the first text whose id is the task's, if there is one.
  unfoldable pub find_task : String → List String → Option (Option String)
  find_task task_id [] = some none
  find_task task_id (raw ∷ raws) =
      let rest = find_task task_id raws in
      elim (task_id_of raw) [
        | none ↦ none
        | some i ↦ if str_eq i task_id then some (some raw) else rest
      ]

  -- The answer, or `none` for an exception.
  unfoldable pub complete_task : String → String → State → Option Bool × State
  complete_task worker_id task_id s =
      let key = processing_key worker_id in
      elim (find_task task_id (lrange s key)) [
        | none ↦ (none, s)
        | some none ↦ (some false, s)
        | some (some raw) ↦ (some true, lrem key raw s)
      ]
