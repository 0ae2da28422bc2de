-- ===== src/WorkerQueue/Operations.antt =====
-- legacy/app/services/worker_queue.py: any sequence of operations of any workers.
use taxlien_gateway.Prelude.{
  ℕ, ◌≡◌, refl, List, [], ◌∷◌, ◌++◌, String, Among, Distinct, All, of_list,
}
use taxlien_gateway.Models.Worker.{WorkTask}
use taxlien_gateway.Redis.{Redis}
use taxlien_gateway.WorkerQueue.{
  Codec, queue_key, processing_key, push_task, pop_tasks, complete_task,
}
use taxlien_gateway.WorkerQueue.Contents.{all_texts}
use taxlien_gateway.WorkerQueue.Workers.{System, Reach, here, Reach-trans, tasks_are_conserved}
use taxlien_gateway.WorkerQueue.Runs.{
  InUse, pop_tasks-Reach, push_task-Reach, removed_by, complete_task-Reach,
}

-- The operations with their arguments.
pub data Operation : Type 0 where
  pushing : WorkTask → Operation
  popping : String → List String → ℕ → Operation
  completing : String → String → Operation

module _ (redis : Redis) (codec : Codec) (keys : List String) where
  open redis use {State}

  abbrev perform : Operation → System State → System State
  perform (pushing t) s = record s {
    store = push_task redis codec t s.store;
    pushed = codec.dumps t ∷ s.pushed;
  }
  perform (popping worker_id platforms capacity) s = record s {
    store = (pop_tasks redis codec worker_id platforms capacity s.store).1;
  }
  perform (completing worker_id task_id) s = record s {
    store = (complete_task redis codec worker_id task_id s.store).1;
    completed = removed_by redis codec keys worker_id task_id s.store ++ s.completed;
  }

  abbrev pub perform_all : List Operation → System State → System State
  perform_all [] s = s
  perform_all (o ∷ os) s = perform_all os (perform o s)

  -- The lists that an operation reads or changes are in use.
  abbrev pub Keeps : Operation → Type 0
  Keeps (pushing t) = Among (queue_key t.platform t.priority) keys
  Keeps (popping worker_id platforms capacity) =
      Among (processing_key worker_id) keys × All (InUse redis codec keys) platforms
  Keeps (completing worker_id task_id) = Among (processing_key worker_id) keys

  perform-Reach :
      (o : Operation) (s : System State) → Keeps o → Reach redis codec keys s (perform o s)
  perform-Reach (pushing t) s i = push_task-Reach redis codec keys t s i
  perform-Reach (popping worker_id platforms capacity) s (i, is) =
      pop_tasks-Reach redis codec keys worker_id platforms capacity s i is
  perform-Reach (completing worker_id task_id) s i =
      complete_task-Reach redis codec keys worker_id task_id s i

  perform_all-Reach :
      (os : List Operation) (s : System State)
      → All Keeps os
      → Reach redis codec keys s (perform_all os s)
  perform_all-Reach [] s i = here
  perform_all-Reach (o ∷ os) s (i, is) =
      Reach-trans redis codec keys (perform-Reach o s i) (perform_all-Reach os (perform o s) is)

  -- Whatever pushes, pops and completions any workers make on the lists in use, whose keys are
  -- distinct, in whatever order, and whether they return or raise: as bags, what the lists in use
  -- hold and what the completions took out together are what the lists held at the start and what
  -- was pushed since.
  pub operations_conserve_tasks :
      (os : List Operation) (start : State)
      → Distinct keys
      → All Keeps os
      → let u = perform_all os (record { store = start; pushed = []; completed = [] }) in
        of_list (u.completed ++ all_texts redis keys u.store)
        ≡ of_list (u.pushed ++ all_texts redis keys start)
  operations_conserve_tasks os start d is =
      let s : System State = record { store = start; pushed = []; completed = [] } in
      tasks_are_conserved redis codec keys s (perform_all os s) d (perform_all-Reach os s is) refl
        refl
