-- ===== src/WorkerQueue/Fairness.antt =====
-- legacy/app/services/worker_queue.py: how long a task waits when its worker asks for enough tasks.
use taxlien_gateway.Prelude.{
  ℕ, zero, suc, ◌≤◌, ◌≡◌, inl, inr, refl, sym, ap, ◌∙◌, false, Option-cases, [], ◌∷◌, String, All,
  leb, lt→leb, without_last, without_last-suc, without_last-zero, arith,
}
use mathlib.Core.Path.{subst}
use taxlien_gateway.Redis.{Redis}
use taxlien_gateway.WorkerQueue.{Codec, queue_key, pop_platforms, pop_tasks}
use taxlien_gateway.WorkerQueue.Order.{four_queues-Distinct}
use taxlien_gateway.WorkerQueue.Waiting.{four, IsReadable-tasks, AllTasks}
use taxlien_gateway.WorkerQueue.Drain.{drain, pop_tasks-AllTasks}
use taxlien_gateway.WorkerQueue.Rounds.{run, run-IsEachPopped}

module _ (redis : Redis) (codec : Codec) (worker_id platform : String) where
  open redis use {State, lrange}

  module _ (capacity : ℕ) where
    abbrev called : State → State
    called s = (pop_tasks redis codec worker_id (platform ∷ []) capacity s).1

    called_lem :
        (s : State)
        → leb capacity 0 ≡ false
        → called s ≡ (run redis codec worker_id platform capacity platform four [] s).1
    unfolding pop_tasks pop_platforms run
    called_lem s space =
        elim (Option-cases (run redis codec worker_id platform capacity platform four [] s).0) [
          | inl raised ↦ rw (called, space, raised) refl
          | inr (ts, e) ↦ rw (called, space, e) refl
        ]

    -- Each of the platform's queues holds in u all but its n oldest texts of s.
    abbrev pub AllMoved : ℕ → State → State → Type 0
    AllMoved n s u =
        All
          (λ p. lrange u (queue_key platform p) ≡ without_last n (lrange s (queue_key platform p)))
          four

    pop_tasks-AllMoved :
        (s : State)
        → 4 ≤ capacity
        → AllTasks redis codec worker_id platform s
        → AllMoved 1 s (called s)
    pop_tasks-AllMoved s c (h1, (h2, (h3, (h4, _)))) =
        let ok = IsReadable-tasks codec in
        let r =
          run-IsEachPopped redis codec worker_id platform capacity
            (λ p. lrange s (queue_key platform p)) four [] s (four_queues-Distinct platform)
            (refl, (refl, (refl, (refl, tt)))) (ok _ h1, (ok _ h2, (ok _ h3, (ok _ h4, tt))))
            (omega (arith, c)) in
        subst (λ u. AllMoved 1 s u) (sym (called_lem s (lt→leb capacity 0 (omega (arith, c)))))
          r.each

    AllMoved-trans :
        (n : ℕ) (s t u : State) → AllMoved 1 s t → AllMoved n t u → AllMoved (suc n) s u
    AllMoved-trans n s t u (a, (b, (c, (d, _)))) (a', (b', (c', (d', _)))) =
        let one =
          λ (p : ℕ)
              (e : lrange t (queue_key platform p)
                ≡ without_last 1 (lrange s (queue_key platform p)))
              (f : lrange u (queue_key platform p)
                ≡ without_last n (lrange t (queue_key platform p))).
            f ∙ ap (without_last n) e ∙ without_last-suc n (lrange s (queue_key platform p)) in
        (one 1 a a', (one 2 b b', (one 3 c c', (one 4 d d', tt))))

    drain-state :
        (n : ℕ) (s : State)
        → (drain redis codec worker_id platform capacity (suc n) s).1
          ≡ (drain redis codec worker_id platform capacity n (called s)).1
    drain-state n s =
        elim (Option-cases (pop_tasks redis codec worker_id (platform ∷ []) capacity s).0) [
          | inl raised ↦ rw (drain, raised) refl
          | inr (ts, e) ↦
              elim (Option-cases (drain redis codec worker_id platform capacity n (called s)).0) [
                | inl raised ↦ rw (drain, e, raised) refl
                | inr (us, f) ↦ rw (drain, e, f) refl
              ]
        ]

    -- If every text in a platform's queues is that of a task, then n calls for that platform with a
    -- capacity of at least 4 take exactly the n oldest tasks of each of its four queues (all, if there
    -- are fewer): a task with fewer than n others before it in its queue has been handed out,
    -- whatever its priority.
    pub no_priority_starves :
        (n : ℕ) (s : State)
        → 4 ≤ capacity
        → AllTasks redis codec worker_id platform s
        → AllMoved n s (drain redis codec worker_id platform capacity n s).1
    no_priority_starves zero s c h = (
      sym (without_last-zero _),
      (sym (without_last-zero _), (sym (without_last-zero _), (sym (without_last-zero _), tt))),
    )
    no_priority_starves (suc n) s c h =
        subst (λ u. AllMoved (suc n) s u) (sym (drain-state n s))
          (AllMoved-trans n s (called s) _ (pop_tasks-AllMoved s c h) (
            no_priority_starves n (called s) c
              (pop_tasks-AllTasks redis codec worker_id platform capacity s h)))
