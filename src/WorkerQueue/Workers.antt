-- ===== src/WorkerQueue/Workers.antt =====
-- legacy/app/services/worker_queue.py: many workers at once. The handlers await each Redis command,
-- so the commands of several of them interleave; a step is one command that one of them issues.
use taxlien_gateway.Prelude.{
  ℕ, ◌+◌, ◌≡◌, ap, List, [], ◌∷◌, ◌++◌, String, count, count-append, of_list, of_list-eq, Among,
  Distinct, arith,
}
use taxlien_gateway.Models.Worker.{WorkTask}
use taxlien_gateway.Redis.{Redis}
use taxlien_gateway.WorkerQueue.{Codec, queue_key, processing_key, push_task}
use taxlien_gateway.WorkerQueue.Loop.{queue_key-ne-processing_key}
use taxlien_gateway.WorkerQueue.Contents.{
  taken, all_texts, total, count-all_texts, total-lpush, total-lrem, total-rpoplpush,
}

-- Redis, with the texts that were pushed and those that were taken out, the latest first.
pub record System (S : Type 0) : Type 0 where
  pub store : S
  pub pushed : List String
  pub completed : List String

-- `keys` are those of the lists in use, each once.
module _ (redis : Redis) (codec : Codec) (keys : List String) where
  open redis use {State, lrange, rpoplpush, lrem}
  open codec use {dumps}

  abbrev pub after_push : WorkTask → System State → System State
  after_push t s = record s { store = push_task redis codec t s.store; pushed = dumps t ∷ s.pushed }

  abbrev pub after_move : String → ℕ → String → System State → System State
  after_move platform priority worker_id s = record s {
    store = (rpoplpush (queue_key platform priority) (processing_key worker_id) s.store).1;
  }

  abbrev pub after_remove : String → String → System State → System State
  after_remove worker_id raw s = record s {
    store = lrem (processing_key worker_id) raw s.store;
    completed = taken raw (lrange s.store (processing_key worker_id)) ++ s.completed;
  }

  -- LPUSH of a task, RPOPLPUSH of a pop, and LREM of a completion: of whichever text it found before,
  -- which may be gone by now.
  pub data Step (s u : System State) : Type 0 where
    push :
        (t : WorkTask)
        → Among (queue_key t.platform t.priority) keys
        → u ≡ after_push t s
        → Step s u
    move :
        (platform : String) (priority : ℕ) (worker_id : String)
        → Among (queue_key platform priority) keys
        → Among (processing_key worker_id) keys
        → u ≡ after_move platform priority worker_id s
        → Step s u
    remove :
        (worker_id raw : String)
        → Among (processing_key worker_id) keys
        → u ≡ after_remove worker_id raw s
        → Step s u

  pub data Reach (s : System State) : System State → Type 0 where
    here : Reach s s
    next : {t u : System State} → Reach s t → Step t u → Reach s u

  pub Reach-trans : {s t u : System State} → Reach s t → Reach t u → Reach s u
  Reach-trans r here = r
  Reach-trans r (next q st) = next (Reach-trans r q) st

  -- What is in the lists or was taken out, and what is in them or was pushed.
  abbrev Accounted : String → System State → System State → Type 0
  Accounted v s u =
      count v u.completed + total redis v keys u.store + count v s.pushed
      ≡ count v u.pushed + total redis v keys s.store + count v s.completed

  Step-Accounted :
      (d : Distinct keys) (v : String) (s t u : System State)
      → Accounted v s t
      → Step t u
      → Accounted v s u
  unfolding push_task
  Step-Accounted d v s t u h (push task i e) = rw e (
      omega (
        arith,
        h,
        total-lpush redis v (dumps task) (queue_key task.platform task.priority) keys t.store d i,
      ))
  Step-Accounted d v s t u h (move platform priority worker i j e) = rw e (
      omega (
        arith,
        h,
        total-rpoplpush redis v (queue_key platform priority) (processing_key worker) keys t.store d
            i j (queue_key-ne-processing_key platform worker priority),
      ))
  Step-Accounted d v s t u h (remove worker raw i e) = rw e (
      omega (
        arith,
        h,
        total-lrem redis v raw (processing_key worker) keys t.store d i,
        count-append v (taken raw (lrange t.store (processing_key worker))) t.completed,
      ))

  Reach-Accounted :
      (d : Distinct keys) (v : String) (s u : System State) → Reach s u → Accounted v s u
  Reach-Accounted d v s u here = omega arith
  Reach-Accounted d v s u (next {t} r st) = Step-Accounted d v s t u (Reach-Accounted d v s t r) st

  -- However the commands of any workers on the lists in use, whose keys are distinct, interleave: as
  -- bags, what these lists hold and what was completed together are what they held at the start and
  -- what was pushed since. No task is lost or doubled.
  pub tasks_are_conserved :
      (s u : System State)
      → Distinct keys
      → Reach s u
      → s.pushed ≡ []
      → s.completed ≡ []
      → of_list (u.completed ++ all_texts redis keys u.store)
        ≡ of_list (u.pushed ++ all_texts redis keys s.store)
  tasks_are_conserved s u d r none_pushed none_completed = of_list-eq λ v. omega (
    arith,
    Reach-Accounted d v s u r,
    ap (count v) none_pushed,
    ap (count v) none_completed,
    count-append v u.completed (all_texts redis keys u.store),
    count-append v u.pushed (all_texts redis keys s.store),
    count-all_texts redis v keys u.store,
    count-all_texts redis v keys s.store,
  )
