-- ===== src/WorkerQueue/Complete.antt =====
-- legacy/app/services/worker_queue.py: what `complete_task` takes off a worker's list.
use taxlien_gateway.Prelude.{
  ◌≡◌, ◌⊎◌, ◌↔◌, inl, inr, refl, ap, ◌∙◌, true, none, some, List, [], ◌∷◌, String, str_eq, eq_iff,
  eq_refl, Bool-cases, Option-cases, if◌then◌else◌, arith,
}
use taxlien_gateway.Redis.{Redis, erase_first}
use taxlien_gateway.WorkerQueue.{Codec, processing_key, find_task, complete_task}

module _ (redis : Redis) (codec : Codec) where
  open codec use {task_id_of, loads, task_id_of-loads}

  -- Some text of a list is of the task with this id.
  abbrev pub Has : String → List String → Type 0
  Has task_id [] = ⊥
  Has task_id (v ∷ vs) = (task_id_of v ≡ some task_id) ⊎ Has task_id vs

  -- Every text of a list shows a task's id.
  abbrev pub AllTasks : List String → Type 0
  AllTasks [] = Unit
  AllTasks (v ∷ vs) = ((i : String) × (task_id_of v ≡ some i)) × AllTasks vs

  -- The specification: a list without the first text of the task.
  abbrev pub without_first : String → List String → List String
  without_first task_id [] = []
  without_first task_id (v ∷ vs) =
      let rest = v ∷ without_first task_id vs in
      elim (task_id_of v) [ none ↦ rest | some i ↦ if str_eq i task_id then vs else rest ]

  find_task-cons :
      (task_id v i : String) (vs : List String)
      → task_id_of v ≡ some i
      → find_task redis codec task_id (v ∷ vs)
        ≡ (if str_eq i task_id then some (some v) else find_task redis codec task_id vs)
  unfolding find_task
  find_task-cons task_id v i vs e = ground (arith, e)

  find_task-nil : (task_id : String) → find_task redis codec task_id [] ≡ some none
  unfolding find_task
  find_task-nil task_id = refl

  find_task-unread :
      (task_id v : String) (vs : List String)
      → task_id_of v ≡ none
      → find_task redis codec task_id (v ∷ vs) ≡ none
  unfolding find_task
  find_task-unread task_id v vs e = ground (arith, e)

  find_task-id :
      (task_id raw : String) (vs : List String)
      → find_task redis codec task_id vs ≡ some (some raw)
      → task_id_of raw ≡ some task_id
  unfolding find_task
  find_task-id task_id raw [] e = cc (find_task-nil task_id)
  find_task-id task_id raw (v ∷ vs) e = elim (Option-cases (task_id_of v)) [
    | inl unread ↦ cc (find_task-unread task_id v vs unread)
    | inr (i, read) ↦ elim (Bool-cases (str_eq i task_id)) [
      | inl same ↦ ground (arith, find_task-cons task_id v i vs read, read, same, eq_iff i task_id)
      | inr other ↦
          find_task-id task_id raw vs (rw (find_task-cons task_id v i vs read, other) at e)
    ]
  ]

  erase_first-without_first :
      (task_id raw : String) (vs : List String)
      → find_task redis codec task_id vs ≡ some (some raw)
      → erase_first raw vs ≡ without_first task_id vs
  erase_first-without_first task_id raw [] e = refl
  erase_first-without_first task_id raw (v ∷ vs) e = elim (Option-cases (task_id_of v)) [
    | inl unread ↦ cc (find_task-unread task_id v vs unread)
    | inr (i, read) ↦ elim (Bool-cases (str_eq i task_id)) [
      | inl same ↦ ground (arith, find_task-cons task_id v i vs read, read, same, eq_refl v)
      | inr other ↦
          let ih =
            erase_first-without_first task_id raw vs
              (rw (find_task-cons task_id v i vs read, other) at e) in
          let id =
            find_task-id task_id raw vs (rw (find_task-cons task_id v i vs read, other) at e) in
          ground (arith, read, other, ih, id, eq_iff v raw, eq_refl i)
    ]
  ]

  find_task-Has :
      (task_id : String) (vs : List String)
      → AllTasks vs
      → Has task_id vs
      → (raw : String) × (find_task redis codec task_id vs ≡ some (some raw))
  find_task-Has task_id [] a h = absurd h
  find_task-Has task_id (v ∷ vs) ((i, read), a) h = elim (Bool-cases (str_eq i task_id)) [
    | inl same ↦ (v, rw (find_task-cons task_id v i vs read, same))
    | inr other ↦ elim h [
      | inl here ↦ absurd (ground (arith, read, here, other, eq_refl i, eq_iff i task_id))
      | inr there ↦
          let (raw, found) = find_task-Has task_id vs a there in
          (raw, rw (find_task-cons task_id v i vs read, other) found)
    ]
  ]

  find_task-not_Has :
      (task_id raw : String) (vs : List String)
      → find_task redis codec task_id vs ≡ some (some raw)
      → Has task_id vs
  find_task-not_Has task_id raw [] e = absurd (ground (arith, find_task-nil task_id))
  find_task-not_Has task_id raw (v ∷ vs) e = elim (Option-cases (task_id_of v)) [
    | inl unread ↦ cc (find_task-unread task_id v vs unread)
    | inr (i, read) ↦ elim (Bool-cases (str_eq i task_id)) [
      | inl same ↦ inl (rw (← (eq_iff i task_id).0 same) read)
      | inr other ↦
          inr
            (find_task-not_Has task_id raw vs (rw (find_task-cons task_id v i vs read, other) at e))
    ]
  ]

  module _ (worker_id task_id : String) where
    open redis use {State, lrange, lrem, lrange-lrem}

    abbrev key : String
    key = processing_key worker_id

    removed :
        (raw j : String) (s : State)
        → find_task redis codec task_id (lrange s key) ≡ some (some raw)
        → (if str_eq key j then erase_first raw (lrange s j) else lrange s j)
          ≡ (if str_eq key j then without_first task_id (lrange s j) else lrange s j)
    removed raw j s found = elim (Bool-cases (str_eq key j)) [
      | inl same ↦ rw same (
          rw (← (eq_iff key j).0 same) (erase_first-without_first task_id raw (lrange s key) found))
      | inr other ↦ rw other
    ]

    -- If `complete_task` answers true, then the worker's processing list has lost the first text of
    -- the task and nothing else, and no other list has changed: neither a queue nor the list of
    -- another worker.
    pub complete_task-true :
        (s : State)
        → (complete_task redis codec worker_id task_id s).0 ≡ some true
        → (j : String)
        → lrange (complete_task redis codec worker_id task_id s).1 j ≡ (
            if str_eq (processing_key worker_id) j
            then without_first task_id (lrange s j)
            else lrange s j)
    unfolding complete_task
    complete_task-true s e j = elim (Option-cases (find_task redis codec task_id (lrange s key))) [
      | inl raised ↦ cc (rw (complete_task, raised) at e)
      | inr (o, found) ↦ elim (Option-cases o) [
        | inl missing ↦ cc (rw (complete_task, found, missing) at e)
        | inr (raw, hit) ↦
            rw (complete_task, found, hit, lrange-lrem key j raw s)
              (removed raw j s (found ∙ ap some hit))
      ]
    ]

    -- If the worker's processing list holds nothing but tasks, then `complete_task` answers true
    -- exactly if one of them has the id.
    pub complete_task_iff :
        (s : State)
        → AllTasks (lrange s (processing_key worker_id))
        → ((complete_task redis codec worker_id task_id s).0 ≡ some true)
          ↔ Has task_id (lrange s (processing_key worker_id))
    unfolding complete_task
    complete_task_iff s a = (
      λ e. elim (Option-cases (find_task redis codec task_id (lrange s key))) [
        | inl raised ↦ cc (rw (complete_task, raised) at e)
        | inr (o, found) ↦ elim (Option-cases o) [
          | inl missing ↦ cc (rw (complete_task, found, missing) at e)
          | inr (raw, hit) ↦ find_task-not_Has task_id raw (lrange s key) (found ∙ ap some hit)
        ]
      ],
      λ h. let (raw, found) = find_task-Has task_id (lrange s key) a h in rw (complete_task, found),
    )
