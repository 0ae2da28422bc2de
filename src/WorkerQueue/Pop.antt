-- ===== src/WorkerQueue/Pop.antt =====
-- legacy/app/services/worker_queue.py: what `pop_tasks` moves.
use taxlien_gateway.Prelude.{
  ℕ, ◌≡◌, ◌≢◌, inl, inr, refl, sym, ap, ◌∙◌, Option, none, some, List, [], ◌∷◌, ◌++◌, append_assoc,
  append-nil, String, Bool-cases, Option-cases, length, leb, ◌≤◌, All, append-All, Among, arith,
}
use taxlien_gateway.Models.Worker.{WorkTask}
use taxlien_gateway.Redis.{Redis}
use taxlien_gateway.WorkerQueue.{
  Codec, queue_key, processing_key, take_raw, pop_priorities, priorities, pop_platforms, pop_tasks,
}
use taxlien_gateway.WorkerQueue.Loop.{
  Moved, texts, queue_key-ne-processing_key, IsAccount, IsAccount-nil, IsAccount-append,
  texts-append, rpoplpush-cases,
}

module _ (redis : Redis) (codec : Codec) where
  open redis use {State, lrange, rpoplpush}
  open codec use {loads, truthy-loads}

  -- The tasks that can be read of some texts.
  abbrev pub reads : List String → List WorkTask
  reads [] = []
  reads (v ∷ vs) = elim (loads v) [ none ↦ reads vs | some t ↦ t ∷ reads vs ]

  pub reads-unread : (v : String) (vs : List String) → loads v ≡ none → reads (v ∷ vs) ≡ reads vs
  reads-unread v vs e = ground (arith, e)

  pub reads-read :
      (v : String) (vs : List String) (t : WorkTask)
      → loads v ≡ some t
      → reads (v ∷ vs) ≡ t ∷ reads vs
  reads-read v vs t e = ground (arith, e)

  take_raw-reads :
      (v : String) (ts ts' : List WorkTask)
      → take_raw redis codec (some v) ts ≡ some ts'
      → ts' ≡ ts ++ reads (v ∷ [])
  unfolding take_raw
  take_raw-reads v ts ts' e = elim (Option-cases (loads v)) [
    | inl unread ↦ ground (arith, unread, append-nil ts)
    | inr (t, read) ↦ ground (arith, read, truthy-loads v t read)
  ]

  reads-append : (vs ws : List String) → reads (vs ++ ws) ≡ reads vs ++ reads ws
  reads-append [] ws = refl
  reads-append (v ∷ vs) ws = ground (arith, reads-append vs ws)

  abbrev four : List ℕ
  four = 1 ∷ 2 ∷ 3 ∷ 4 ∷ []

  module _ (Q : String → Type 0) where
    -- What a run from the tasks ts in the state s comes to, where Q holds of the queues.
    record IsRun (l : String) (ts : List WorkTask) (s : State) (r : Option (List WorkTask) × State)
        : Type 0 where
      moved : Moved
      account : IsAccount redis l s r.1 moved
      keys : All (λ m. Q m.0) moved
      tasks : (ts' : List WorkTask) → r.0 ≡ some ts' → ts' ≡ ts ++ reads (texts moved)

    IsRun-done : (l : String) (ts : List WorkTask) (s : State) → IsRun l ts s (some ts, s)
    IsRun-done l ts s = record {
      moved = [];
      account = IsAccount-nil redis l s;
      keys = tt;
      tasks = λ ts' e. ground (arith, append-nil ts);
    }

    IsRun-append :
        (l : String) (ts ts' : List WorkTask) (s t : State) (r : Option (List WorkTask) × State)
        (run : IsRun l ts s (some ts', t))
        → IsRun l ts' t r
        → IsRun l ts s r
    IsRun-append l ts ts' s t r run next = record {
      moved = run.moved ++ next.moved;
      account = IsAccount-append redis l run.moved next.moved s t r.1 run.account next.account;
      keys = append-All (λ m. Q m.0) run.moved next.moved run.keys next.keys;
      tasks = λ ts'' e.
          next.tasks ts'' e
          ∙ rw (run.tasks ts' refl) (
              append_assoc ts (reads (texts run.moved)) (reads (texts next.moved))
              ∙ ap (λ (x : List WorkTask). ts ++ x)
                  (sym (reads-append (texts run.moved) (texts next.moved)))
              ∙ ap (λ (x : List String). ts ++ reads x) (sym (texts-append run.moved next.moved)));
    }

    -- One text is moved and read, and the run goes on.
    IsRun-moved :
        (l k v : String) (ts ts' : List WorkTask) (s t : State) (r : Option (List WorkTask) × State)
        → Q k
        → IsAccount redis l s t ((k, v) ∷ [])
        → take_raw redis codec (some v) ts ≡ some ts'
        → IsRun l ts' t r
        → IsRun l ts s r
    IsRun-moved l k v ts ts' s t r q a e run =
        let one : IsRun l ts s (some ts', t) = record {
          moved = (k, v) ∷ [];
          account = a;
          keys = (q, tt);
          tasks = λ ts'' p. take_raw-reads v ts ts'' (e ∙ p);
        } in
        IsRun-append l ts ts' s t r one run

    -- A text is moved that cannot be read: an exception.
    IsRun-raised :
        (l k v : String) (ts : List WorkTask) (s t : State)
        → Q k
        → IsAccount redis l s t ((k, v) ∷ [])
        → IsRun l ts s (none, t)
    IsRun-raised l k v ts s t q a = record {
      moved = (k, v) ∷ [];
      account = a;
      keys = (q, tt);
      tasks = λ ts' e. cc;
    }

    IsRun-rpoplpush :
        (k l : String) (ts : List WorkTask) (s : State)
        (rest : List WorkTask → State → Option (List WorkTask) × State)
        → k ≢ l
        → Q k
        → ((ts' : List WorkTask) (t : State) → IsRun l ts' t (rest ts' t))
        → IsRun l ts s (elim (take_raw redis codec (rpoplpush k l s).0 ts) [
          | none ↦ (none, (rpoplpush k l s).1)
          | some ts' ↦ rest ts' (rpoplpush k l s).1
        ])
    unfolding take_raw
    IsRun-rpoplpush k l ts s rest n q ih = elim (rpoplpush-cases redis k l s n) [
      | inl e ↦ rw e (rw e (ih ts s))
      | inr (v, e, a) ↦ elim (Option-cases (take_raw redis codec (some v) ts)) [
        | inl raised ↦ rw (e, raised) (IsRun-raised l k v ts s _ q a)
        | inr (ts', read) ↦ rw (e, read) (IsRun-moved l k v ts ts' s _ _ q a read (ih ts' _))
      ]
    ]

    -- A run that another one follows, unless it raised.
    IsRun-then :
        (l : String) (ts : List WorkTask) (s : State) (r : Option (List WorkTask) × State)
        (rest : List WorkTask → State → Option (List WorkTask) × State)
        → IsRun l ts s r
        → ((ts' : List WorkTask) (t : State) → IsRun l ts' t (rest ts' t))
        → IsRun l ts s (elim r.0 [ none ↦ (none, r.1) | some ts' ↦ rest ts' r.1 ])
    IsRun-then l ts s r rest run ih = elim (Option-cases r.0) [
      | inl raised ↦
          rw raised record {
            moved = run.moved;
            account = run.account;
            keys = run.keys;
            tasks = λ ts' e. cc;
          }
      | inr (ts', e) ↦ rw e (
          IsRun-append l ts ts' s r.1 (rest ts' r.1)
            record {
              moved = run.moved;
              account = run.account;
              keys = run.keys;
              tasks = λ ts'' p. run.tasks ts'' (e ∙ p);
            }
            (ih ts' r.1))
    ]

    module _ (worker_id : String) (capacity : ℕ) where
      pop_priorities-IsRun :
          (platform : String) (ps : List ℕ) (ts : List WorkTask) (s : State)
          → All (λ p. Q (queue_key platform p)) ps
          → IsRun
              (processing_key worker_id)
              ts
              s
              (pop_priorities redis codec worker_id capacity platform ps ts s)
      unfolding pop_priorities
      pop_priorities-IsRun platform [] ts s qs = IsRun-done _ ts s
      pop_priorities-IsRun platform (p ∷ ps) ts s (q, qs) =
          elim (Bool-cases (leb capacity (length ts))) [
            | inl full ↦ rw full (IsRun-done _ ts s)
            | inr space ↦ rw space (
                IsRun-rpoplpush (queue_key platform p) (processing_key worker_id) ts s
                  (pop_priorities redis codec worker_id capacity platform ps)
                  (queue_key-ne-processing_key platform worker_id p) q
                  (λ ts' t. pop_priorities-IsRun platform ps ts' t qs))
          ]

      pop_platforms-IsRun :
          (platforms : List String) (ts : List WorkTask) (s : State)
          → All (λ platform. All (λ p. Q (queue_key platform p)) four) platforms
          → IsRun
              (processing_key worker_id)
              ts
              s
              (pop_platforms redis codec worker_id capacity platforms ts s)
      unfolding pop_platforms
      pop_platforms-IsRun [] ts s qs = IsRun-done _ ts s
      pop_platforms-IsRun (platform ∷ more) ts s (q, qs) =
          elim (Bool-cases (leb capacity (length ts))) [
            | inl full ↦ rw full (IsRun-done _ ts s)
            | inr space ↦ rw space (
                IsRun-then (processing_key worker_id) ts s
                  (pop_priorities redis codec worker_id capacity platform
                    (priorities redis codec worker_id capacity) ts s)
                  (pop_platforms redis codec worker_id capacity more)
                  (pop_priorities-IsRun platform (priorities redis codec worker_id capacity) ts s q)
                  (λ ts' t. pop_platforms-IsRun more ts' t qs))
          ]

  -- The key of the queue of one of these platforms at a priority from 1 to 4.
  abbrev pub IsQueue : List String → String → Type 0
  IsQueue platforms k =
      (platform : String) × (p : ℕ) × Among platform platforms
      × (1 ≤ p)
      × (p ≤ 4)
      × (k ≡ queue_key platform p)

  queues-IsQueue :
      (all platforms : List String)
      → ((platform : String) → Among platform platforms → Among platform all)
      → All (λ platform. All (λ p. IsQueue all (queue_key platform p)) four) platforms
  queues-IsQueue all [] h = tt
  queues-IsQueue all (platform ∷ more) h =
      let here = h platform (inl refl) in
      (
        (
          (platform, 1, here, omega arith, omega arith, refl),
          (
            (platform, 2, here, omega arith, omega arith, refl),
            (
              (platform, 3, here, omega arith, omega arith, refl),
              ((platform, 4, here, omega arith, omega arith, refl), tt),
            ),
          ),
        ),
        queues-IsQueue all more (λ p a. h p (inr a)),
      )

  -- Whatever the platforms and the capacity, and whether `pop_tasks` returns or raises: the texts
  -- that the lists have lost, each from its old end, are those that the worker's processing list has
  -- gained, each was lost by the queue of one of the platforms at a priority from 1 to 4, and no
  -- other list changes. If it returns, then the tasks of those texts, in the order in which they
  -- were moved (a text that is no task stands for none).
  pub pop_tasks_loses_nothing :
      (worker_id : String) (platforms : List String) (capacity : ℕ) (s : State)
      → let r = pop_tasks redis codec worker_id platforms capacity s in
        (moved : Moved) × IsAccount redis (processing_key worker_id) s r.1 moved
        × All (λ m. IsQueue platforms m.0) moved
        × ((ts : List WorkTask) → r.0 ≡ some ts → ts ≡ reads (texts moved))
  unfolding pop_tasks
  pop_tasks_loses_nothing worker_id platforms capacity s =
      let run =
        pop_platforms-IsRun (IsQueue platforms) worker_id capacity platforms [] s
          (queues-IsQueue platforms platforms (λ p a. a)) in
      (run.moved, run.account, run.keys, run.tasks)
