-- ===== src/WorkerQueue/Drain.antt =====
-- legacy/app/services/worker_queue.py: a worker that keeps asking for the tasks of a platform.
use taxlien_gateway.Prelude.{
  ℕ, zero, suc, ◌+◌, ◌≤◌, ◌≡◌, ◌⊎◌, inl, inr, refl, sym, ap, ◌∙◌, false, Option, none, some, List,
  [], ◌∷◌, ◌++◌, String, length, length-append, Among, All, leb, take, arith,
}
use mathlib.Core.List.{reverse}
use taxlien_gateway.Models.Worker.{WorkTask}
use taxlien_gateway.Redis.{Redis}
use taxlien_gateway.WorkerQueue.{Codec, queue_key, pop_platforms, pop_tasks}
use taxlien_gateway.WorkerQueue.Loop.{queue_key-ne-processing_key, from}
use taxlien_gateway.WorkerQueue.Order.{
  four_queues-Distinct, offers, IsReadable, Holds, pop_tasks-one_platform,
}
use taxlien_gateway.WorkerQueue.Pop.{pop_tasks_loses_nothing}
use taxlien_gateway.WorkerQueue.Waiting.{
  four, IsTask, IsReadable-tasks, All-front, offers-empty, queue_keys, waiting, AllTasks,
  pop_priorities-waiting,
}

zero_or_more : (n : ℕ) → (n ≡ 0) ⊎ (1 ≤ n)
zero_or_more zero = inl refl
zero_or_more (suc n) = inr (omega arith)

length-take_zero {ℓ} :
    {A : Type ℓ} → (n : ℕ) (xs : List A) → 1 ≤ n → length (take n xs) ≡ 0 → length xs ≡ 0
length-take_zero zero xs h e = absurd (omega (arith, h))
length-take_zero (suc n) [] h e = refl
length-take_zero (suc n) (x ∷ xs) h e = absurd (omega (arith, e))

module _ (redis : Redis) (codec : Codec) (worker_id platform : String) where
  open redis use {State, lrange, rpoplpush}

  module _ (capacity : ℕ) where
    abbrev pop_here : State → Option (List WorkTask) × State
    pop_here = pop_tasks redis codec worker_id (platform ∷ []) capacity

    held : State → ℕ → List String
    held s p = lrange s (queue_key platform p)

    readable :
        (s : State)
        → AllTasks redis codec worker_id platform s
        → All (λ p. IsReadable codec (held s p)) four
    unfolding held
    readable s (a, (b, (c, (d, _)))) =
        let ok = IsReadable-tasks codec in (ok _ a, (ok _ b, (ok _ c, (ok _ d, tt))))

    holds : (s : State) → Holds redis codec platform (held s) four s
    unfolding held
    holds s = (refl, (refl, (refl, (refl, tt))))

    own_keys :
        All
          (λ p. Among (queue_key platform p) (queue_keys redis codec worker_id platform four))
          four
    own_keys =
        (inl refl, (inr (inl refl), (inr (inr (inl refl)), (inr (inr (inr (inl refl))), tt))))

    pop_tasks-waiting :
        (s : State)
        → 1 ≤ capacity
        → AllTasks redis codec worker_id platform s
        → let r = pop_here s in
          (ts : List WorkTask) × (r.0 ≡ some ts)
          × (length ts + waiting redis codec worker_id platform r.1
              ≡ waiting redis codec worker_id platform s)
    unfolding pop_tasks pop_platforms
    pop_tasks-waiting s c h =
        let run =
          pop_priorities-waiting redis codec worker_id platform capacity (held s) four [] s
            (four_queues-Distinct platform) own_keys (holds s) (readable s h) in
        let space : leb capacity 0 ≡ false = ground (arith, c) in
        rw (space, run.1) (run.0, refl, omega (arith, run.2))

    pub pop_tasks-AllTasks :
        (s : State)
        → AllTasks redis codec worker_id platform s
        → AllTasks redis codec worker_id platform (pop_here s).1
    pop_tasks-AllTasks s (a, (b, (c, (d, _)))) =
        let r = pop_tasks_loses_nothing redis codec worker_id (platform ∷ []) capacity s in
        let lost = λ (p : ℕ).
          r.1.lost (queue_key platform p) (queue_key-ne-processing_key platform worker_id p) in
        let front = λ (p : ℕ) (all : All (IsTask codec) (lrange s (queue_key platform p))).
          All-front codec (lrange (pop_here s).1 (queue_key platform p))
            (reverse (from (queue_key platform p) r.0)) (rw (lost p) at all) in
        (front 1 a, (front 2 b, (front 3 c, (front 4 d, tt))))

    -- While a text waits, at least one task is returned.
    pop_tasks-progress :
        (s : State) (ts : List WorkTask)
        → 1 ≤ capacity
        → AllTasks redis codec worker_id platform s
        → (pop_here s).0 ≡ some ts
        → length ts ≡ 0
        → waiting redis codec worker_id platform s ≡ 0
    unfolding held
    pop_tasks-progress s ts c h e none_taken =
        let returned =
          pop_tasks-one_platform redis codec worker_id platform capacity (held s) s (holds s)
            (readable s h) in
        let few : ts ≡ take capacity (offers codec (held s) four) = cc in
        let nothing : length (offers codec (held s) four) ≡ 0 =
          length-take_zero capacity (offers codec (held s) four) c
            (ap length (sym few) ∙ none_taken) in
        let (a, (b, (c', (d, _)))) = offers-empty codec (held s) four (readable s h) nothing in
        rw (a, b, c', d) refl

  -- What n calls return together (`none` if one raises), and the state after them.
  abbrev pub drain : ℕ → ℕ → State → Option (List WorkTask) × State
  drain capacity zero s = (some [], s)
  drain capacity (suc n) s =
      let (result, s') = pop_here capacity s in
      let (rest, u) = drain capacity n s' in
      elim result [
        | none ↦ (none, u)
        | some ts ↦ elim rest [ none ↦ (none, u) | some us ↦ (some (ts ++ us), u) ]
      ]

  -- If every text in a platform's queues is that of a task, then a worker that asks for at least one
  -- task at a time has emptied them after as many calls as texts were waiting: no call raises, and
  -- together the calls return as many tasks as there were.
  pub queues_are_drained :
      (capacity n : ℕ) (s : State)
      → 1 ≤ capacity
      → AllTasks redis codec worker_id platform s
      → waiting redis codec worker_id platform s ≤ n
      → let r = drain capacity n s in
        (ts : List WorkTask) × (r.0 ≡ some ts)
        × (length ts ≡ waiting redis codec worker_id platform s)
        × (waiting redis codec worker_id platform r.1 ≡ 0)
  queues_are_drained capacity zero s c h few = ([], refl, omega (arith, few), omega (arith, few))
  queues_are_drained capacity (suc n) s c h few =
      let s' = (pop_here capacity s).1 in
      let (ts, e, less) = pop_tasks-waiting capacity s c h in
      let progress = pop_tasks-progress capacity s ts c h e in
      let fewer : waiting redis codec worker_id platform s' ≤ n = elim (zero_or_more (length ts)) [
        | inl z ↦ omega (arith, few, less, progress z)
        | inr more ↦ omega (arith, few, less, more)
      ] in
      let (us, f, all, empty) =
        queues_are_drained capacity n s' c (pop_tasks-AllTasks capacity s h) fewer in
      rw (drain, e, f) (ts ++ us, refl, omega (arith, all, less, length-append ts us), empty)
