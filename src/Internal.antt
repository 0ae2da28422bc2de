-- ===== src/Internal.antt =====
-- legacy/app/api/internal: parcel/work.py and parcel/tasks.py (party/ has the same handlers: `Party`)
-- and monitoring.py.
pub mod Dispatch
pub mod Party
pub mod Heartbeat
mod Tests
use taxlien_gateway.Prelude.{
  ℕ, Bool, true, false, ◌&&◌, Option, none, some, List, [], ◌∷◌, String, or_else, leb, ◌<>◌,
  if◌then◌else◌,
}
use taxlien_gateway.Models.Auth.{AuthContext}
use taxlien_gateway.Models.Worker.{WorkTask, WorkResponse, WorkerStatus}
use taxlien_gateway.Redis.{Value, number, text, Redis}
use taxlien_gateway.WorkerQueue.{Codec, pop_tasks, complete_task}

-- `auth.worker_id or "unknown"`
abbrev pub worker_of : AuthContext → String
worker_of auth = or_else auth.worker_id "unknown"

-- What `get_work` comes to: its response, the status 422 for parameters out of range, or an
-- exception.
pub data WorkAnswer : Type 0 where
  work : WorkResponse → WorkAnswer
  invalid raised : WorkAnswer

abbrev is_empty {ℓ} : {A : Type ℓ} → List A → Bool
is_empty [] = true
is_empty (x ∷ xs) = false

abbrev work_response : List WorkTask → WorkResponse
work_response tasks = record { tasks = tasks; retry_after = if is_empty tasks then 30 else 5 }

-- `Query(10, ge=1, le=100)`
abbrev pub capacity_of : Option ℕ → ℕ
capacity_of none = 10
capacity_of (some n) = n

module _ (redis : Redis) (codec : Codec) where
  open redis use {State}

  -- At least one platform is required; a capacity that is no natural number is out of range too.
  unfoldable pub get_work : AuthContext → Option ℕ → List String → State → WorkAnswer × State
  get_work auth capacity platforms s =
      let n = capacity_of capacity in
      let (tasks, s') = pop_tasks redis codec (worker_of auth) platforms n s in
      let answer : WorkAnswer = elim tasks [ none ↦ raised | some ts ↦ work (work_response ts) ] in
      if is_empty platforms
      then (invalid, s)
      else if leb 1 n && leb n 100
      then (answer, s')
      else (invalid, s)

  -- POST /tasks/{task_id}/complete: the value of "success", or an exception.
  unfoldable pub complete : AuthContext → String → State → Option Bool × State
  complete auth task_id s = complete_task redis codec (worker_of auth) task_id s

  -- POST /tasks/{task_id}/fail writes to the log only.
  unfoldable pub fail_task : AuthContext → String → State → String × State
  fail_task auth task_id s = ("reported", s)

abbrev pub join_commas : List String → String
join_commas [] = ""
join_commas (p ∷ []) = p
join_commas (p ∷ q ∷ ps) = p <> "," <> join_commas (q ∷ ps)

abbrev pub status_key : String → String
status_key worker_id = "worker:" <> worker_id <> ":status"

abbrev pub later_fields : WorkerStatus → List (String × Value)
later_fields status =
    ("active_tasks", number status.active_tasks)
    ∷ ("platforms", text (join_commas status.platforms))
    ∷ ("cpu", text status.cpu_percent)
    ∷ ("memory", text status.memory_percent)
    ∷ []

-- The mapping that `worker_heartbeat` writes.
abbrev pub status_fields : ℕ → WorkerStatus → List (String × Value)
status_fields now status = ("last_seen", number now) ∷ later_fields status

module _ (redis : Redis) where
  open redis use {State, hset, expire}

  abbrev hset_all : String → List (String × Value) → State → State
  hset_all key [] s = s
  hset_all key ((f, v) ∷ fs) s = hset_all key fs (hset key f v s)

  unfoldable pub worker_heartbeat : ℕ → AuthContext → WorkerStatus → State → State
  worker_heartbeat now auth status s =
      let key = status_key (worker_of auth) in
      expire key 300 (hset_all key (status_fields now status) s)
