-- ===== src/WorkerQueue/Order.antt =====
-- legacy/app/services/worker_queue.py: which tasks of a platform `pop_tasks` returns, in which order.
use taxlien_gateway.Prelude.{
  ℕ, suc, zero, ◌+◌, ◌≡◌, ◌≢◌, ◌⊎◌, inl, inr, refl, sym, ap, ◌∙◌, Option, none, some, List, [], ◌∷◌,
  ◌++◌, append-nil, append_assoc, String, str_of, eq_iff, <>_cancel_left, eq-false_of_ne, length,
  length-append, le→leb, lt→leb, take, take-nil, All, arith,
}
use taxlien_gateway.Models.Worker.{WorkTask}
use taxlien_gateway.Redis.{Redis}
use taxlien_gateway.WorkerQueue.{
  Codec, queue_key, processing_key, take_raw, pop_priorities, pop_platforms, pop_tasks,
}
use taxlien_gateway.WorkerQueue.Loop.{
  snoc-cases, queue_key-ne-processing_key, IsAccount, rpoplpush-IsAccount,
}

snoc-ne-nil : (vs : List String) (v : String) → vs ++ v ∷ [] ≢ []
snoc-ne-nil [] v e = cc
snoc-ne-nil (x ∷ vs) v e = cc

-- The queues of a platform are apart.
abbrev pub Apart : String → ℕ → List ℕ → Type 0
Apart platform p = All (λ q. queue_key platform p ≢ queue_key platform q)

abbrev pub Distinct : String → List ℕ → Type 0
Distinct platform [] = Unit
Distinct platform (p ∷ ps) = Apart platform p ps × Distinct platform ps

queue_key-ne :
    (platform : String) (p q : ℕ)
    → str_of p ≢ str_of q
    → queue_key platform p ≢ queue_key platform q
queue_key-ne platform p q n e =
    n (<>_cancel_left ":p" _ _ (<>_cancel_left platform _ _ (<>_cancel_left "queue:" _ _ e)))

str_of-ne :
    (str_of 1 ≢ str_of 2)
    × (str_of 1 ≢ str_of 3)
    × (str_of 1 ≢ str_of 4)
    × (str_of 2 ≢ str_of 3)
    × (str_of 2 ≢ str_of 4)
    × (str_of 3 ≢ str_of 4)
unfolding str_of
str_of-ne = (
  ground (arith, eq_iff "1" "2"),
  ground (arith, eq_iff "1" "3"),
  ground (arith, eq_iff "1" "4"),
  ground (arith, eq_iff "2" "3"),
  ground (arith, eq_iff "2" "4"),
  ground (arith, eq_iff "3" "4"),
)

-- The four queues of a platform are apart.
pub four_queues-Distinct : (platform : String) → Distinct platform (1 ∷ 2 ∷ 3 ∷ 4 ∷ [])
four_queues-Distinct platform =
    let (a, b, c, d, e, f) = str_of-ne in
    (
      (
        queue_key-ne platform 1 2 a,
        (queue_key-ne platform 1 3 b, (queue_key-ne platform 1 4 c, tt)),
      ),
      (
        (queue_key-ne platform 2 3 d, (queue_key-ne platform 2 4 e, tt)),
        ((queue_key-ne platform 3 4 f, tt), (tt, tt)),
      ),
    )

module _ (codec : Codec) where
  open codec use {loads, truthy-loads}

  -- The task at the old end of a queue.
  abbrev pub offered : List String → Option WorkTask
  offered [] = none
  offered (v ∷ []) = loads v
  offered (v ∷ w ∷ vs) = offered (w ∷ vs)

  offered-snoc : (vs : List String) (v : String) → offered (vs ++ v ∷ []) ≡ loads v
  offered-snoc [] v = refl
  offered-snoc (x ∷ []) v = refl
  offered-snoc (x ∷ y ∷ vs) v = offered-snoc (y ∷ vs) v

  -- The specification: the oldest task of each queue that is not empty, in the order of priority.
  abbrev pub offers : (ℕ → List String) → List ℕ → List WorkTask
  offers q [] = []
  offers q (p ∷ ps) = elim (offered (q p)) [ none ↦ offers q ps | some t ↦ t ∷ offers q ps ]

  pub offers-none :
      (q : ℕ → List String) (p : ℕ) (ps : List ℕ)
      → offered (q p) ≡ none
      → offers q (p ∷ ps) ≡ offers q ps
  offers-none q p ps e = ground (arith, e)

  pub offers-some :
      (q : ℕ → List String) (p : ℕ) (ps : List ℕ) (t : WorkTask)
      → offered (q p) ≡ some t
      → offers q (p ∷ ps) ≡ t ∷ offers q ps
  offers-some q p ps t e = ground (arith, e)

  -- A queue is empty, or the text at its old end is a task.
  abbrev pub IsReadable : List String → Type 0
  IsReadable xs = (xs ≡ []) ⊎ ((t : WorkTask) × (offered xs ≡ some t))

module _ (redis : Redis) (codec : Codec) where
  open redis use {State, lrange, rpoplpush, rpoplpush-empty, rpoplpush-result}
  open codec use {loads, truthy-loads}

  pub take_raw-none : (ts : List WorkTask) → take_raw redis codec none ts ≡ some ts
  unfolding take_raw
  take_raw-none ts = refl

  -- The queues of the priorities ps hold what q says.
  abbrev pub Holds : String → (ℕ → List String) → List ℕ → State → Type 0
  Holds platform q ps s = All (λ p. lrange s (queue_key platform p) ≡ q p) ps

  -- A move from one queue leaves the others.
  pub Holds-moved :
      (l k v platform : String) (q : ℕ → List String) (ps : List ℕ) (s t : State)
      → IsAccount redis l s t ((k, v) ∷ [])
      → ((p : ℕ) → queue_key platform p ≢ l)
      → All (λ p. k ≢ queue_key platform p) ps
      → Holds platform q ps s
      → Holds platform q ps t
  Holds-moved l k v platform q [] s t a nl n h = tt
  Holds-moved l k v platform q (p ∷ ps) s t a nl (n, ns) (h, hs) =
      let kept : lrange s (queue_key platform p) ≡ lrange t (queue_key platform p) =
        a.lost (queue_key platform p) (nl p) ∙ rw (eq-false_of_ne n) (append-nil _) in
      (sym kept ∙ h, Holds-moved l k v platform q ps s t a nl ns hs)

  module _ (worker_id platform : String) (q : ℕ → List String) where
    -- One round on a readable queue: nothing happens, or its oldest task is taken.
    pub round_cases :
        (p : ℕ) (ts : List WorkTask) (s : State)
        → lrange s (queue_key platform p) ≡ q p
        → IsReadable codec (q p)
        → let r = rpoplpush (queue_key platform p) (processing_key worker_id) s in
          ((offered codec (q p) ≡ none) × (r ≡ (none, s)))
          ⊎ ((t : WorkTask) × (v : String) × (offered codec (q p) ≡ some t)
              × (take_raw redis codec r.0 ts ≡ some (ts ++ t ∷ []))
              × IsAccount redis (processing_key worker_id) s r.1 ((queue_key platform p, v) ∷ []))
    unfolding take_raw
    round_cases p ts s h ok = elim (snoc-cases (lrange s (queue_key platform p))) [
      | inl e ↦
          inl
            (rw (sym h ∙ e), rpoplpush-empty (queue_key platform p) (processing_key worker_id) s e)
      | inr (vs, v, e) ↦ elim ok [
        | inl empty ↦ absurd (snoc-ne-nil vs v (sym e ∙ h ∙ empty))
        | inr (t, there) ↦
            let n = queue_key-ne-processing_key platform worker_id p in
            let moved =
              rpoplpush-result (queue_key platform p) (processing_key worker_id) v vs s e in
            let read : loads v ≡ some t =
              sym (offered-snoc codec vs v) ∙ ap (offered codec) (sym e ∙ h) ∙ there in
            inr (
              t,
              v,
              there,
              rw (moved, truthy-loads v t read, read),
              rpoplpush-IsAccount redis (queue_key platform p) (processing_key worker_id) v vs s n
                  e,
            )
      ]
    ]

    pop_priorities-offers :
        (ps : List ℕ) (n : ℕ) (ts : List WorkTask) (s : State)
        → Distinct platform ps
        → Holds platform q ps s
        → All (λ p. IsReadable codec (q p)) ps
        → (pop_priorities redis codec worker_id (length ts + n) platform ps ts s).0
          ≡ some (ts ++ take n (offers codec q ps))
    unfolding pop_priorities
    pop_priorities-offers [] n ts s d h ok =
        ap some (sym (ap (λ (l : List WorkTask). ts ++ l) (take-nil n) ∙ append-nil ts))
    pop_priorities-offers (p ∷ ps) zero ts s d h ok =
        rw (le→leb (length ts + 0) (length ts) (omega arith)) (ap some (sym (append-nil ts)))
    pop_priorities-offers (p ∷ ps) (suc n) ts s (a, d) (h, hs) (ok, oks) =
        rw (lt→leb (length ts + suc n) (length ts) (omega arith)) (elim (round_cases p ts s h ok) [
          | inl (nothing, same) ↦
              rw (same, take_raw-none ts, same)
                (pop_priorities-offers ps (suc n) ts s d hs oks
                  ∙ ap (λ (l : List WorkTask). some (ts ++ take (suc n) l))
                      (sym (offers-none codec q p ps nothing)))
          | inr (t, v, there, read, account) ↦
              let r = rpoplpush (queue_key platform p) (processing_key worker_id) s in
              let same : length (ts ++ t ∷ []) + n ≡ length ts + suc n =
                omega (arith, length-append ts (t ∷ [])) in
              rw read (
                rw same at (
                  pop_priorities-offers ps n (ts ++ t ∷ []) r.1 d
                    (Holds-moved (processing_key worker_id) (queue_key platform p) v platform q ps s
                      r.1 account (λ k. queue_key-ne-processing_key platform worker_id k) a hs)
                    oks)
                ∙ ap some (append_assoc ts (t ∷ []) (take n (offers codec q ps)))
                ∙ ap (λ (l : List WorkTask). some (ts ++ take (suc n) l))
                    (sym (offers-some codec q p ps t there)))
        ])

  -- If the queues of one platform hold at their old ends nothing but tasks, then `pop_tasks` for
  -- that platform returns the oldest task of each queue that is not empty, from priority 1 to 4, as
  -- far as the capacity reaches.
  pub pop_tasks-one_platform :
      (worker_id platform : String) (capacity : ℕ) (q : ℕ → List String) (s : State)
      → Holds platform q (1 ∷ 2 ∷ 3 ∷ 4 ∷ []) s
      → All (λ p. IsReadable codec (q p)) (1 ∷ 2 ∷ 3 ∷ 4 ∷ [])
      → (pop_tasks redis codec worker_id (platform ∷ []) capacity s).0
        ≡ some (take capacity (offers codec q (1 ∷ 2 ∷ 3 ∷ 4 ∷ [])))
  unfolding pop_tasks pop_platforms
  pop_tasks-one_platform worker_id platform zero q s h ok = refl
  pop_tasks-one_platform worker_id platform (suc c) q s h ok =
      let run =
        pop_priorities-offers worker_id platform q (1 ∷ 2 ∷ 3 ∷ 4 ∷ []) (suc c) [] s
          (four_queues-Distinct platform) h ok in
      let start : 0 + suc c ≡ suc c = omega arith in
      rw (lt→leb (suc c) 0 (omega arith), rw start at run)
