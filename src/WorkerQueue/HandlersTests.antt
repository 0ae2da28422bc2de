-- ===== src/WorkerQueue/HandlersTests.antt =====
-- The theorems on handlers that run at the same time, at a concrete store.
use taxlien_gateway.Prelude.{
  arith, eq_iff, Distinct, ◌≡◌, inl, inr, refl, true, List, [], ◌∷◌, String, str_of, of_list, ◌++◌,
}
use taxlien_gateway.Redis.Memory.{Store, memory}
use taxlien_gateway.WorkerQueue.{take_raw, processing_key, push_task, find_task}
use taxlien_gateway.WorkerQueue.Plain.{task, plain}
use taxlien_gateway.WorkerQueue.Contents.{all_texts}
use taxlien_gateway.WorkerQueue.Workers.{after_push, after_remove}
use taxlien_gateway.WorkerQueue.Operations.{pushing, popping, completing, Keeps}
use taxlien_gateway.WorkerQueue.Programs.{
  Program, platforms_program, priorities_program, done, lrem, pushed, completed, push_program,
  complete_program, pop_program,
}
use taxlien_gateway.WorkerQueue.Handlers.{
  Config, idle, Turns, no_turn, turn, starts, issues, stops, command,
}
use taxlien_gateway.WorkerQueue.Threads.{handlers_conserve_tasks}
use taxlien_gateway.WorkerQueue.Custody.{Leaves, held_tasks_stay}
use taxlien_gateway.WorkerQueue.HandOut.{UsesQueues, AllQueues, tasks_are_handed_out_once}
use taxlien_gateway.WorkerQueue.Commands.{Over, Fits, after_turns, operations_end}
use taxlien_gateway.WorkerQueue.Tests.{store, all_in_use, all_in_use-Distinct}

-- A completion and a push at the same time, and a pop that dies before its first command.
abbrev two_start : Config Store
two_start = record (idle memory store) {
  running = push_program memory plain (task "d") ∷ complete_program memory plain "w1" "y" ∷ [];
}

abbrev pushes : Config Store
pushes = record two_start {
  shared = record two_start.shared {
    system = after_push memory plain all_in_use (task "d") two_start.shared.system;
  };
  running = done pushed ∷ complete_program memory plain "w1" "y" ∷ [];
}

abbrev looks : Config Store
looks = record pushes {
  running = done pushed ∷ lrem (processing_key "w1") "y" (done (completed true)) ∷ [];
}

abbrev removes : Config Store
removes = record looks {
  shared = record looks.shared {
    system = after_remove memory plain all_in_use "w1" "y" looks.shared.system;
  };
  running = done pushed ∷ done (completed true) ∷ [];
}

removes-Turns : Turns memory plain (Keeps memory plain all_in_use) (idle memory store) removes
unfolding push_program push_task complete_program find_task str_of
removes-Turns =
    let pushing_p = push_program memory plain (task "d") in
    let completing_p = complete_program memory plain "w1" "y" in
    let a = turn no_turn (starts (completing "w1" "y") (inr (inr (inr (inr (inl refl))))) refl) in
    let b = turn a (starts (pushing (task "d")) (inr (inl refl)) refl) in
    let c = turn b (
      starts (popping "w1" ("qpublic" ∷ []) 3)
        (
          inr (inr (inr (inr (inl refl)))),
          (
            (inl refl, (inr (inl refl), (inr (inr (inl refl)), (inr (inr (inr (inl refl))), tt)))),
            tt,
          ),
        )
        refl) in
    let d = turn c (stops [] two_start.running _ refl refl) in
    let e = turn d (issues [] (completing_p ∷ []) pushing_p refl refl) in
    let f = turn e (issues (done pushed ∷ []) [] completing_p refl refl) in
    turn f (
      issues (done pushed ∷ []) [] (lrem (processing_key "w1") "y" (done (completed true))) refl
        refl)

handlers_conserve_tasks_example :
    of_list ("y" ∷ all_texts memory all_in_use removes.shared.system.store)
    ≡ of_list ("d" ∷ all_texts memory all_in_use store)
unfolding push_task str_of
handlers_conserve_tasks_example =
    handlers_conserve_tasks memory plain all_in_use store removes all_in_use-Distinct removes-Turns

-- A pop from a store that stays the same.
operations_end_example :
    let u = (idle memory store).shared in
    Over (Fits memory plain (popping "w1" ("qpublic" ∷ []) 3)) (
      after_turns memory plain
        (u ∷ u ∷ u ∷ u ∷ [])
        (pop_program memory plain "w1" ("qpublic" ∷ []) 3))
operations_end_example =
    let u = (idle memory store).shared in
    operations_end memory plain (popping "w1" ("qpublic" ∷ []) 3) (u ∷ u ∷ u ∷ u ∷ []) (omega arith)

-- Another worker pops the task "a", and dies before it gets its result.
abbrev pop_2 : Program
pop_2 = pop_program memory plain "w2" ("qpublic" ∷ []) 1

abbrev popped_first : Config Store
popped_first = record {
  shared = (command memory pop_2 (idle memory store).shared).1;
  running = (command memory pop_2 (idle memory store).shared).0 ∷ [];
}

abbrev died : Config Store
died = record popped_first { running = [] }

died-Turns : Turns memory plain (Leaves memory plain "w1") (idle memory store) died
died-Turns =
    let p = (command memory pop_2 (idle memory store).shared).0 in
    let a = turn no_turn (starts (popping "w2" ("qpublic" ∷ []) 1) tt refl) in
    let b = turn a (issues [] [] pop_2 refl refl) in turn b (stops [] [] p refl refl)

held_tasks_stay_example :
    (since : List String) × (memory.lrange died.shared.system.store "processing:w1"
      ≡ since ++ "z" ∷ "y" ∷ [])
held_tasks_stay_example = held_tasks_stay memory plain "w1" store died died-Turns

-- The same pop, which goes on to the second queue and is handed "a".
abbrev popped_second : Config Store
popped_second =
    let (p, u) = command memory pop_2 (idle memory store).shared in
    record { shared = (command memory p u).1; running = (command memory p u).0 ∷ [] }

abbrev queues : List String
queues = "queue:qpublic:p1" ∷ "queue:qpublic:p2" ∷ "queue:qpublic:p3" ∷ "queue:qpublic:p4" ∷ []

queues-Distinct : Distinct queues
queues-Distinct = ground (
  arith,
  eq_iff "queue:qpublic:p1" "queue:qpublic:p2",
  eq_iff "queue:qpublic:p1" "queue:qpublic:p3",
  eq_iff "queue:qpublic:p1" "queue:qpublic:p4",
  eq_iff "queue:qpublic:p2" "queue:qpublic:p3",
  eq_iff "queue:qpublic:p2" "queue:qpublic:p4",
  eq_iff "queue:qpublic:p3" "queue:qpublic:p4",
)

queues-AllQueues : AllQueues queues
unfolding str_of
queues-AllQueues = (
  ("qpublic", 1, refl),
  (("qpublic", 2, refl), (("qpublic", 3, refl), (("qpublic", 4, refl), tt))),
)

popped_second-Turns :
    Turns memory plain (UsesQueues memory plain queues) (idle memory store) popped_second
unfolding str_of
popped_second-Turns =
    let (p, u) = command memory pop_2 (idle memory store).shared in
    let a = turn no_turn (
      starts (popping "w2" ("qpublic" ∷ []) 1)
        ((inl refl, (inr (inl refl), (inr (inr (inl refl)), (inr (inr (inr (inl refl))), tt)))), tt)
        refl) in
    let b = turn a (issues [] [] pop_2 refl refl) in turn b (issues [] [] p refl refl)

tasks_are_handed_out_once_example :
    of_list ("a" ∷ all_texts memory queues popped_second.shared.system.store)
    ≡ of_list (all_texts memory queues store)
unfolding str_of pop_program platforms_program priorities_program take_raw
tasks_are_handed_out_once_example =
    tasks_are_handed_out_once memory plain queues store queues-Distinct popped_second
      queues-AllQueues popped_second-Turns
