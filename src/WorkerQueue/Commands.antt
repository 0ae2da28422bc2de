-- ===== src/WorkerQueue/Commands.antt =====
-- legacy/app/services/worker_queue.py: how many commands an operation issues, and what it can return,
-- whatever Redis answers to them.
use taxlien_gateway.Prelude.{
  ℕ, zero, suc, ◌+◌, ◌*◌, ◌≤◌, ◌≡◌, refl, Bool, true, false, inl, inr, Option, List, [], ◌∷◌,
  String, leb, length, Bool-cases, Option-cases, not-leb→lt, arith,
}
use taxlien_gateway.Models.Worker.{WorkTask}
use taxlien_gateway.Redis.{Redis}
use taxlien_gateway.WorkerQueue.{Codec, take_raw, find_task}
use taxlien_gateway.WorkerQueue.Capacity.{take_raw-length}
use taxlien_gateway.WorkerQueue.Operations.{Operation, pushing, popping, completing}
use taxlien_gateway.WorkerQueue.Handlers.{Shared, command}
use taxlien_gateway.WorkerQueue.Programs.{
  Answer, pushed, popped, completed, Program, done, raised, lpush, rpoplpush, lrange, lrem,
  push_program, priorities_program, platforms_program, pop_program, complete_program, program,
}

-- One more command for each of the rounds that may be to come.
abbrev rounds : List ℕ → ℕ → ℕ
rounds [] n = n
rounds (x ∷ xs) n = suc (rounds xs n)

rounds_lem : (xs : List ℕ) (n : ℕ) → rounds xs n ≡ length xs + n
rounds_lem [] n = omega arith
rounds_lem (x ∷ xs) n = omega (arith, rounds_lem xs n)

-- After at most n commands, whatever they answer, the program has raised, or it has returned an
-- answer as `P` says.
module _ (P : Answer → Type 0) where
  abbrev pub Ends : ℕ → Program → Type 0
  Ends n (done a) = P a
  Ends n raised = Unit
  Ends zero (lpush k v p) = ⊥
  Ends zero (rpoplpush k l f) = ⊥
  Ends zero (lrange k f) = ⊥
  Ends zero (lrem k v p) = ⊥
  Ends (suc n) (lpush k v p) = Ends n p
  Ends (suc n) (rpoplpush k l f) = (raw : Option String) → Ends n (f raw)
  Ends (suc n) (lrange k f) = (raws : List String) → Ends n (f raws)
  Ends (suc n) (lrem k v p) = Ends n p

  abbrev pub Over : Program → Type 0
  Over (done a) = P a
  Over raised = Unit
  Over (lpush k v p) = ⊥
  Over (rpoplpush k l f) = ⊥
  Over (lrange k f) = ⊥
  Over (lrem k v p) = ⊥

  Ends-zero : (p : Program) → Ends zero p → Over p
  Ends-zero (done a) h = h
  Ends-zero raised h = tt
  Ends-zero (lpush k v p) h = h
  Ends-zero (rpoplpush k l f) h = h
  Ends-zero (lrange k f) h = h
  Ends-zero (lrem k v p) h = h

  Ends-later : (n : ℕ) (p : Program) → Ends n p → Ends (suc n) p
  Ends-later n (done a) h = h
  Ends-later n raised h = tt
  Ends-later zero (lpush k v p) h = absurd h
  Ends-later zero (rpoplpush k l f) h = absurd h
  Ends-later zero (lrange k f) h = absurd h
  Ends-later zero (lrem k v p) h = absurd h
  Ends-later (suc n) (lpush k v p) h = Ends-later n p h
  Ends-later (suc n) (rpoplpush k l f) h = λ raw. Ends-later n (f raw) (h raw)
  Ends-later (suc n) (lrange k f) h = λ raws. Ends-later n (f raws) (h raws)
  Ends-later (suc n) (lrem k v p) h = Ends-later n p h

  Ends-rounds : (xs : List ℕ) (n : ℕ) (p : Program) → Ends n p → Ends (rounds xs n) p
  Ends-rounds [] n p h = h
  Ends-rounds (x ∷ xs) n p h = Ends-later (rounds xs n) p (Ends-rounds xs n p h)

module _ (redis : Redis) (codec : Codec) where
  -- What an operation can return.
  abbrev pub Fits : Operation → Answer → Type 0
  Fits (pushing t) a = a ≡ pushed
  Fits (popping worker_id platforms capacity) a =
      (ts : List WorkTask) × (a ≡ popped ts)
      × (length ts ≤ capacity)
      × (length ts ≤ 4 * length platforms)
  Fits (completing worker_id task_id) a = (b : Bool) × (a ≡ completed b)

  abbrev pub commands : Operation → ℕ
  commands (pushing t) = 1
  commands (popping worker_id platforms capacity) = 4 * length platforms
  commands (completing worker_id task_id) = 2

  -- The tasks of a list that is within the capacity and, with a task for each command to come, within
  -- the total.
  module _ (P : Answer → Type 0) (worker_id : String) (capacity total : ℕ) where
    priorities_program-Ends :
        (platform : String) (ps : List ℕ) (n : ℕ) (ts : List WorkTask)
        (after : List WorkTask → Program)
        → ((ts' : List WorkTask)
            → length ts' ≤ capacity
            → length ts' + n ≤ total
            → Ends P n (after ts'))
        → length ts ≤ capacity
        → length ts + rounds ps n ≤ total
        → Ends P
            (rounds ps n)
            (priorities_program redis codec worker_id capacity platform ps ts after)
    unfolding priorities_program
    priorities_program-Ends platform [] n ts after h c t = h ts c t
    priorities_program-Ends platform (p ∷ ps) n ts after h c t =
        elim (Bool-cases (leb capacity (length ts))) [
          | inl full ↦
              rw full
                (Ends-rounds P (p ∷ ps) n (after ts) (h ts c (omega (arith, rounds_lem ps n))))
          | inr space ↦ rw space (λ raw. elim (Option-cases (take_raw redis codec raw ts)) [
            | inl bad ↦ rw bad tt
            | inr (ts', read) ↦
                let longer = take_raw-length redis codec raw ts ts' read in
                rw read (
                  priorities_program-Ends platform ps n ts' after h
                    (omega (arith, longer, not-leb→lt _ _ space)) (omega (arith, longer)))
          ])
        ]

    platforms_program-Ends :
        (platforms : List String) (ts : List WorkTask)
        → ((ts' : List WorkTask) → length ts' ≤ capacity → length ts' ≤ total → P (popped ts'))
        → length ts ≤ capacity
        → length ts + 4 * length platforms ≤ total
        → Ends P
            (4 * length platforms)
            (platforms_program redis codec worker_id capacity platforms ts)
    unfolding platforms_program
    platforms_program-Ends [] ts h c t = h ts c (omega (arith, t))
    platforms_program-Ends (p ∷ more) ts h c t =
        let n = 4 * length more in
        let size : 4 * suc (length more) ≡ suc (suc (suc (suc n))) = omega arith in
        elim (Bool-cases (leb capacity (length ts))) [
          | inl full ↦ rw full (h ts c (omega (arith, t)))
          | inr space ↦
              rw (space, size)
                (priorities_program-Ends p (1 ∷ 2 ∷ 3 ∷ 4 ∷ []) n ts
                  (platforms_program redis codec worker_id capacity more)
                  (λ ts' c' t'. platforms_program-Ends more ts' h c' t') c (omega (arith, t)))
        ]

  program-Ends : (o : Operation) → Ends (Fits o) (commands o) (program redis codec o)
  unfolding push_program pop_program complete_program
  program-Ends (pushing t) = refl
  program-Ends (popping worker_id platforms capacity) =
      platforms_program-Ends (Fits (popping worker_id platforms capacity)) worker_id capacity
        (4 * length platforms) platforms [] (λ ts c t. (ts, refl, c, t)) (omega arith) (omega arith)
  program-Ends (completing worker_id task_id) = λ raws.
      elim (Option-cases (find_task redis codec task_id raws)) [
        | inl bad ↦ rw bad tt
        | inr (o, found) ↦ elim (Option-cases o) [
          | inl missing ↦ rw (found, missing) (false, refl)
          | inr (raw, hit) ↦ rw (found, hit) (true, refl)
        ]
      ]

  -- The program after a turn at each of these states, which others may have changed in between.
  abbrev pub after_turns : List (Shared redis.State) → Program → Program
  after_turns [] p = p
  after_turns (u ∷ us) p = after_turns us (command redis p u).0

  turns_end :
      (P : Answer → Type 0) (us : List (Shared redis.State)) (n : ℕ) (p : Program)
      → n ≤ length us
      → Ends P n p
      → Over P (after_turns us p)
  turns_end P [] zero p le h = Ends-zero P p h
  turns_end P [] (suc n) p le h = absurd (omega (arith, le))
  turns_end P (u ∷ us) n (done a) le h = turns_end P us zero (done a) (omega arith) h
  turns_end P (u ∷ us) n raised le h = turns_end P us zero raised (omega arith) tt
  turns_end P (u ∷ us) zero (lpush k v p) le h = absurd h
  turns_end P (u ∷ us) zero (rpoplpush k l f) le h = absurd h
  turns_end P (u ∷ us) zero (lrange k f) le h = absurd h
  turns_end P (u ∷ us) zero (lrem k v p) le h = absurd h
  turns_end P (u ∷ us) (suc n) (lpush k v p) le h = turns_end P us n p (omega (arith, le)) h
  turns_end P (u ∷ us) (suc n) (rpoplpush k l f) le h =
      let raw = (redis.rpoplpush k l u.system.store).0 in
      turns_end P us n (f raw) (omega (arith, le)) (h raw)
  turns_end P (u ∷ us) (suc n) (lrange k f) le h =
      let raws = redis.lrange u.system.store k in
      turns_end P us n (f raws) (omega (arith, le)) (h raws)
  turns_end P (u ∷ us) (suc n) (lrem k v p) le h = turns_end P us n p (omega (arith, le)) h

  -- However other handlers change Redis between its commands, an operation is over after few of them,
  -- and then has raised or returned: a push after one, a completion after two, and a pop after four
  -- for each platform that is named. What a pop returns is at most as many tasks as its capacity says,
  -- and at most four for each platform.
  pub operations_end :
      (o : Operation) (us : List (Shared redis.State))
      → commands o ≤ length us
      → Over (Fits o) (after_turns us (program redis codec o))
  operations_end o us le = turns_end (Fits o) us (commands o) _ le (program-Ends o)
