-- ===== src/WorkerQueue/RoundTrip.antt =====
-- legacy/app/services/worker_queue.py: a task that is pushed, and then a pop.
use mathlib.Core.List.{reverse, reverse-cons}
use taxlien_gateway.Prelude.{
  ℕ, ◌≡◌, ◌≢◌, ◌⊎◌, inl, inr, refl, sym, ap, ◌∙◌, true, some, List, [], ◌∷◌, ◌++◌, String, str_eq,
  eq_iff, Bool-cases, Option-cases, if◌then◌else◌, arith, All, take,
}
use taxlien_gateway.Models.Worker.{WorkTask}
use taxlien_gateway.Redis.{Redis}
use taxlien_gateway.WorkerQueue.{
  Codec, queue_key, processing_key, push_task, pop_tasks, complete_task,
}
use taxlien_gateway.WorkerQueue.Loop.{texts}
use taxlien_gateway.WorkerQueue.Pop.{reads, reads-unread, reads-read, pop_tasks_loses_nothing}
use taxlien_gateway.WorkerQueue.Order.{offered, offers, IsReadable, Holds, pop_tasks-one_platform}
use taxlien_gateway.WorkerQueue.Complete.{Has, AllTasks, complete_task_iff}

-- A task is in a list.
abbrev pub In : WorkTask → List WorkTask → Type 0
In t [] = ⊥
In t (u ∷ us) = (u ≡ t) ⊎ In t us

module _ (redis : Redis) (codec : Codec) where
  open redis use {State, lrange, lrange-lpush}
  open codec use {dumps, loads, task_id_of, task_id_of-loads}

  Has-append_right :
      (i : String) (vs ws : List String) → Has redis codec i ws → Has redis codec i (vs ++ ws)
  Has-append_right i [] ws h = h
  Has-append_right i (v ∷ vs) ws h = inr (Has-append_right i vs ws h)

  Has-append_left :
      (i : String) (vs ws : List String) → Has redis codec i vs → Has redis codec i (vs ++ ws)
  Has-append_left i [] ws h = absurd h
  Has-append_left i (v ∷ vs) ws (inl h) = inl h
  Has-append_left i (v ∷ vs) ws (inr h) = inr (Has-append_left i vs ws h)

  Has-reverse :
      (i : String) (vs : List String) → Has redis codec i vs → Has redis codec i (reverse vs)
  Has-reverse i [] h = absurd h
  Has-reverse i (v ∷ vs) (inl h) =
      rw reverse-cons (Has-append_right i (reverse vs) (v ∷ []) (inl h))
  Has-reverse i (v ∷ vs) (inr h) =
      rw reverse-cons (Has-append_left i (reverse vs) (v ∷ []) (Has-reverse i vs h))

  Has-reads :
      (t : WorkTask) (vs : List String) → In t (reads redis codec vs) → Has redis codec t.task_id vs
  Has-reads t [] h = absurd h
  Has-reads t (v ∷ vs) h = elim (Option-cases (loads v)) [
    | inl unread ↦ inr (Has-reads t vs (rw (reads-unread redis codec v vs unread) at h))
    | inr (u, read) ↦
        let h' : In t (u ∷ reads redis codec vs) = rw (reads-read redis codec v vs u read) at h in
        elim h' [
          | inl same ↦ inl (task_id_of-loads v u read ∙ ap (λ (x : WorkTask). some x.task_id) same)
          | inr later ↦ inr (Has-reads t vs later)
        ]
  ]

  -- Every task that `pop_tasks` returns can be completed: `complete_task` for its id answers true,
  -- if the worker's processing list holds nothing but tasks.
  pub popped_can_be_completed :
      (worker_id : String) (platforms : List String) (capacity : ℕ) (s : State) (ts : List WorkTask)
      (t : WorkTask)
      → (pop_tasks redis codec worker_id platforms capacity s).0 ≡ some ts
      → In t ts
      → AllTasks redis codec (
          lrange
            (pop_tasks redis codec worker_id platforms capacity s).1
            (processing_key worker_id))
      → (complete_task redis codec worker_id t.task_id
          (pop_tasks redis codec worker_id platforms capacity s).1).0
        ≡ some true
  popped_can_be_completed worker_id platforms capacity s ts t e i all =
      let (moved, account, _, tasks) =
        pop_tasks_loses_nothing redis codec worker_id platforms capacity s in
      let s' = (pop_tasks redis codec worker_id platforms capacity s).1 in
      let old = lrange s (processing_key worker_id) in
      let there = Has-reads t (texts moved) (rw (tasks ts e) at i) in
      (complete_task_iff redis codec worker_id t.task_id s' all).1 (
        rw account.gained (
          Has-append_left t.task_id (reverse (texts moved)) old
            (Has-reverse t.task_id (texts moved) there)))

  offered-behind :
      (v : String) (xs : List String) → xs ≢ [] → offered codec (v ∷ xs) ≡ offered codec xs
  offered-behind v [] n = absurd (n refl)
  offered-behind v (x ∷ xs) n = refl

  module _ (t : WorkTask) (platform : String) (q : ℕ → List String) where
    -- The queues of a platform after the task was pushed.
    abbrev pushed : ℕ → List String
    pushed p =
        if str_eq (queue_key t.platform t.priority) (queue_key platform p)
        then dumps t ∷ q p
        else q p

    Holds-pushed :
        (ps : List ℕ) (s : State)
        → Holds redis codec platform q ps s
        → Holds redis codec platform pushed ps (push_task redis codec t s)
    unfolding push_task
    Holds-pushed [] s h = tt
    Holds-pushed (p ∷ ps) s (h, hs) = (rw lrange-lpush (rw h), Holds-pushed ps s hs)

    -- A task that is pushed onto a queue that is not empty stands behind what is there.
    offered-pushed :
        (p : ℕ) (s : State)
        → lrange s (queue_key platform p) ≡ q p
        → lrange s (queue_key t.platform t.priority) ≢ []
        → offered codec (pushed p) ≡ offered codec (q p)
    offered-pushed p s h full =
        elim (Bool-cases (str_eq (queue_key t.platform t.priority) (queue_key platform p))) [
          | inl same ↦ rw same (
              offered-behind (dumps t) (q p)
                (λ e. full (ap (lrange s) ((eq_iff _ _).0 same) ∙ h ∙ e)))
          | inr other ↦ rw other
        ]

    pushed-nil :
        (p : ℕ) (s : State)
        → lrange s (queue_key platform p) ≡ q p
        → lrange s (queue_key t.platform t.priority) ≢ []
        → q p ≡ []
        → pushed p ≡ []
    pushed-nil p s h full e =
        elim (Bool-cases (str_eq (queue_key t.platform t.priority) (queue_key platform p))) [
          | inl same ↦ absurd (full (ap (lrange s) ((eq_iff _ _).0 same) ∙ h ∙ e))
          | inr other ↦ rw other e
        ]

    IsReadable-pushed :
        (p : ℕ) (s : State)
        → lrange s (queue_key platform p) ≡ q p
        → lrange s (queue_key t.platform t.priority) ≢ []
        → IsReadable codec (q p)
        → IsReadable codec (pushed p)
    IsReadable-pushed p s h full (inl e) = inl (pushed-nil p s h full e)
    IsReadable-pushed p s h full (inr (u, e)) = inr (u, offered-pushed p s h full ∙ e)

    All-pushed :
        (ps : List ℕ) (s : State)
        → Holds redis codec platform q ps s
        → lrange s (queue_key t.platform t.priority) ≢ []
        → All (λ p. IsReadable codec (q p)) ps
        → All (λ p. IsReadable codec (pushed p)) ps × (offers codec pushed ps ≡ offers codec q ps)
    All-pushed [] s h full ok = (tt, refl)
    All-pushed (p ∷ ps) s (h, hs) full (ok, oks) =
        let (oks', same) = All-pushed ps s hs full oks in
        let first = offered-pushed p s h full in
        ((IsReadable-pushed p s h full ok, oks'), ground (arith, first, same))

    -- First in, first out: if the queues of a platform hold at their old ends nothing but tasks, and
    -- the queue onto which a task is pushed is not empty, then what `pop_tasks` next returns of that
    -- platform is what it would have returned without the push.
    pub push_stands_behind :
        (worker_id : String) (capacity : ℕ) (s : State)
        → Holds redis codec platform q (1 ∷ 2 ∷ 3 ∷ 4 ∷ []) s
        → All (λ p. IsReadable codec (q p)) (1 ∷ 2 ∷ 3 ∷ 4 ∷ [])
        → lrange s (queue_key t.platform t.priority) ≢ []
        → (pop_tasks redis codec worker_id (platform ∷ []) capacity (push_task redis codec t s)).0
          ≡ (pop_tasks redis codec worker_id (platform ∷ []) capacity s).0
    push_stands_behind worker_id capacity s h ok full =
        let ps : List ℕ = 1 ∷ 2 ∷ 3 ∷ 4 ∷ [] in
        let (ok', same) = All-pushed ps s h full ok in
        pop_tasks-one_platform redis codec worker_id platform capacity pushed
          (push_task redis codec t s) (Holds-pushed ps s h) ok'
        ∙ ap (λ (l : List WorkTask). some (take capacity l)) same
        ∙ sym (pop_tasks-one_platform redis codec worker_id platform capacity q s h ok)
