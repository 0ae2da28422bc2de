-- ===== src/WorkerQueue/Tests.antt =====
-- The queue's theorems at a concrete store, with a format in which a task is written as its id.
use taxlien_gateway.Prelude.{
  ℕ, ◌==◌, ◌≡◌, ◌≢◌, inl, inr, refl, true, some, List, [], ◌∷◌, String, str_eq, str_of,
  if◌then◌else◌, Distinct, All, arith, eq_iff, length,
}
use taxlien_gateway.Models.Worker.{WorkTask}
use taxlien_gateway.Redis.{Redis}
use taxlien_gateway.Redis.Memory.{Store, memory, empty_store}
use taxlien_gateway.WorkerQueue.{processing_key, push_task, pop_tasks, find_task, complete_task}
use taxlien_gateway.WorkerQueue.Plain.{task, plain}
use taxlien_gateway.WorkerQueue.Loop.{Moved, texts, IsAccount}
use taxlien_gateway.WorkerQueue.Pop.{reads, IsQueue, pop_tasks_loses_nothing}
use taxlien_gateway.WorkerQueue.Order.{pop_tasks-one_platform}
use taxlien_gateway.WorkerQueue.Complete.{complete_task-true}
use taxlien_gateway.WorkerQueue.Workers.{System}
use taxlien_gateway.WorkerQueue.Operations.{Operation, pushing, popping, completing}
use taxlien_gateway.WorkerQueue.Fairness.{AllMoved, no_priority_starves}
use taxlien_gateway.WorkerQueue.RoundTrip.{push_stands_behind}
use taxlien_gateway.WorkerQueue.Waiting.{waiting}
use taxlien_gateway.WorkerQueue.Drain.{drain, queues_are_drained}
use taxlien_gateway.WorkerQueue.Others.{Others, stay, more, handed_to, completion_is_atomic}

abbrev queues : ℕ → List String
queues p = if p == 2 then "b" ∷ "a" ∷ [] else if p == 4 then "c" ∷ [] else []

abbrev pub store : Store
store = record empty_store {
  lists = λ k.
      if str_eq k "queue:qpublic:p2"
      then "b" ∷ "a" ∷ []
      else if str_eq k "queue:qpublic:p4"
      then "c" ∷ []
      else if str_eq k "processing:w1"
      then "z" ∷ "y" ∷ []
      else [];
}

pop_tasks_loses_nothing_example :
    let r = pop_tasks memory plain "w1" ("qpublic" ∷ []) 3 store in
    (moved : Moved) × IsAccount memory (processing_key "w1") store r.1 moved
    × All (λ m. IsQueue memory plain ("qpublic" ∷ []) m.0) moved
    × ((ts : List WorkTask) → r.0 ≡ some ts → ts ≡ reads memory plain (texts moved))
pop_tasks_loses_nothing_example = pop_tasks_loses_nothing memory plain "w1" ("qpublic" ∷ []) 3 store

pop_tasks-one_platform_example :
    (pop_tasks memory plain "w1" ("qpublic" ∷ []) 3 store).0 ≡ some (task "a" ∷ task "c" ∷ [])
unfolding str_of
pop_tasks-one_platform_example =
    pop_tasks-one_platform memory plain "w1" "qpublic" 3 queues store
      (refl, (refl, (refl, (refl, tt))))
      (inl refl, (inr (task "a", refl), (inl refl, (inr (task "c", refl), tt))))

queue_is_full : ◌≢◌ {A = List String} ("b" ∷ "a" ∷ []) []
queue_is_full e = cc

push_stands_behind_example :
    (pop_tasks memory plain "w1" ("qpublic" ∷ []) 3 (push_task memory plain (task "d") store)).0
    ≡ (pop_tasks memory plain "w1" ("qpublic" ∷ []) 3 store).0
unfolding str_of
push_stands_behind_example =
    push_stands_behind memory plain (task "d") "qpublic" queues "w1" 3 store
      (refl, (refl, (refl, (refl, tt))))
      (inl refl, (inr (task "a", refl), (inl refl, (inr (task "c", refl), tt)))) queue_is_full

z_is_completed : (complete_task memory plain "w1" "z" store).0 ≡ some true
unfolding complete_task find_task
z_is_completed = refl

complete_task-true_example :
    Redis.lrange memory (complete_task memory plain "w1" "z" store).1 "processing:w1" ≡ "y" ∷ []
complete_task-true_example =
    complete_task-true memory plain "w1" "z" store z_is_completed "processing:w1"

abbrev at_first : System Store
at_first = record { store = store; pushed = []; completed = [] }

w2-ne-w1 : ◌≢◌ {A = String} "w2" "w1"
w2-ne-w1 = ground (arith, eq_iff "w2" "w1")

abbrev meanwhile : Store
meanwhile = (memory.rpoplpush "queue:qpublic:p2" "processing:w2" store).1

meanwhile-Others : Others memory plain "w1" store meanwhile
unfolding str_of
meanwhile-Others = more stay (handed_to "qpublic" 2 "w2" w2-ne-w1 refl)

y_is_found :
    find_task memory plain "y" (memory.lrange store (processing_key "w1")) ≡ some (some "y")
unfolding find_task
y_is_found = refl

completion_is_atomic_example :
    complete_task memory plain "w1" "y" meanwhile
    ≡ (some true, memory.lrem "processing:w1" "y" meanwhile)
completion_is_atomic_example =
    completion_is_atomic memory plain "w1" "y" "y" store meanwhile y_is_found meanwhile-Others

queues_are_drained_example :
    let r = drain memory plain "w1" "qpublic" 10 3 store in
    (ts : List WorkTask) × (r.0 ≡ some ts)
    × (length ts ≡ 3)
    × (waiting memory plain "w1" "qpublic" r.1 ≡ 0)
unfolding str_of
queues_are_drained_example =
    queues_are_drained memory plain "w1" "qpublic" 10 3 store (omega arith)
      (tt, (((task "b", refl), ((task "a", refl), tt)), (tt, (((task "c", refl), tt), tt))))
      (omega arith)

-- All the lists that w1 uses on the platform, and a pop, a push and a completion.
abbrev pub all_in_use : List String
all_in_use =
    "queue:qpublic:p1" ∷ "queue:qpublic:p2" ∷ "queue:qpublic:p3" ∷ "queue:qpublic:p4"
    ∷ "processing:w1" ∷ []

pub all_in_use-Distinct : Distinct all_in_use
all_in_use-Distinct = ground (
  arith,
  eq_iff "queue:qpublic:p1" "queue:qpublic:p2",
  eq_iff "queue:qpublic:p1" "queue:qpublic:p3",
  eq_iff "queue:qpublic:p1" "queue:qpublic:p4",
  eq_iff "queue:qpublic:p1" "processing:w1",
  eq_iff "queue:qpublic:p2" "queue:qpublic:p3",
  eq_iff "queue:qpublic:p2" "queue:qpublic:p4",
  eq_iff "queue:qpublic:p2" "processing:w1",
  eq_iff "queue:qpublic:p3" "queue:qpublic:p4",
  eq_iff "queue:qpublic:p3" "processing:w1",
  eq_iff "queue:qpublic:p4" "processing:w1",
)

abbrev day : List Operation
day = popping "w1" ("qpublic" ∷ []) 3 ∷ pushing (task "d") ∷ completing "w1" "a" ∷ []

no_priority_starves_example :
    AllMoved memory plain "w1" "qpublic" 4 1 store (drain memory plain "w1" "qpublic" 4 1 store).1
unfolding str_of
no_priority_starves_example =
    no_priority_starves memory plain "w1" "qpublic" 4 1 store (omega arith)
      (tt, (((task "b", refl), ((task "a", refl), tt)), (tt, (((task "c", refl), tt), tt))))
