-- ===== src/Internal/Tests.antt =====
-- The theorems on workers' requests at concrete requests.
use taxlien_gateway.Prelude.{
  ℕ, ◌≤◌, ◌<◌, ◌≡◌, ◌≢◌, ◌*◌, ◌↔◌, refl, none, some, [], ◌∷◌, String, eq_iff, str_eq, str_of, arith,
  if◌then◌else◌,
}
use taxlien_gateway.Models.Auth.{AuthContext, member, internal, no_auth}
use taxlien_gateway.Models.Worker.{WorkResponse, WorkerStatus}
use taxlien_gateway.Redis.{Redis}
use taxlien_gateway.Redis.Memory.{Store, memory, empty_store}
use taxlien_gateway.WorkerQueue.{take_raw, pop_priorities, pop_platforms, pop_tasks}
use taxlien_gateway.WorkerQueue.Plain.{task, plain}
use taxlien_gateway.Internal.{work, get_work, worker_heartbeat}
use taxlien_gateway.Internal.Dispatch.{get_work-bounds}
use taxlien_gateway.Internal.Heartbeat.{Shows, shown_for_five_minutes}

abbrev worker : AuthContext
worker = record no_auth { tier = member internal; worker_id = some "w1" }

abbrev store : Store
store = record empty_store {
  lists = λ k.
      if str_eq k "queue:qpublic:p2"
      then "b" ∷ "a" ∷ []
      else if str_eq k "processing:w1"
      then "z" ∷ []
      else [];
}

abbrev one_task : WorkResponse
one_task = record { tasks = task "a" ∷ []; retry_after = 5 }

answered : (get_work memory plain worker none ("qpublic" ∷ []) store).0 ≡ work one_task
unfolding get_work str_of pop_tasks pop_platforms pop_priorities take_raw
answered = refl

get_work-bounds_example :
    (1 ≤ 10) × (10 ≤ 100) × (1 ≤ 4 * 1) × ((one_task.retry_after ≡ 30) ↔ (one_task.tasks ≡ []))
get_work-bounds_example =
    get_work-bounds memory plain worker none ("qpublic" ∷ []) store one_task answered

abbrev status : WorkerStatus
status = record {
  active_tasks = 3;
  completed_last_minute = 5;
  failed_last_minute = 0;
  platforms = "qpublic" ∷ "beacon" ∷ [];
  cpu_percent = "12.5";
  memory_percent = "40.0";
}

shown_for_five_minutes_example :
    ((n : ℕ)
      → n < 300
      → Shows memory 7 status "worker:w1:status"
          (Redis.elapse memory n (worker_heartbeat memory 7 worker status store)))
    × ((n : ℕ)
        → 300 ≤ n
        → (f : String)
        → Redis.hget memory
            (Redis.elapse memory n (worker_heartbeat memory 7 worker status store))
            "worker:w1:status"
            f
          ≡ none)
shown_for_five_minutes_example = shown_for_five_minutes memory 7 worker status store

w1-ne-w2 : ◌≢◌ {A = String} "w1" "w2"
w1-ne-w2 = ground (arith, eq_iff "w1" "w2")
