-- ===== src/WorkerQueue/Waiting.antt =====
-- legacy/app/services/worker_queue.py: how many tasks wait in the queues of a platform, and what
-- `pop_tasks` does to their number.
use taxlien_gateway.Prelude.{
  ℕ, suc, ◌+◌, ◌≡◌, ◌≢◌, inl, inr, refl, sym, ap, ◌∙◌, none, some, List, [], ◌∷◌, ◌++◌, String,
  length, length-append, sum, Among, Distinct, sum-change, All, leb, Bool-cases, eq-false_of_ne,
  eq_refl, append-nil, arith,
}
use taxlien_gateway.Models.Worker.{WorkTask}
use taxlien_gateway.Redis.{Redis}
use taxlien_gateway.WorkerQueue.{Codec, queue_key, processing_key, pop_priorities}
use taxlien_gateway.WorkerQueue.Loop.{queue_key-ne-processing_key, IsAccount}
use taxlien_gateway.WorkerQueue.Order
use taxlien_gateway.WorkerQueue.Order.{
  four_queues-Distinct, offered, offers, offers-none, offers-some, IsReadable, take_raw-none, Holds,
  Holds-moved, round_cases, pop_tasks-one_platform,
}

abbrev pub four : List ℕ
four = 1 ∷ 2 ∷ 3 ∷ 4 ∷ []

module _ (codec : Codec) where
  open codec use {loads}

  -- The text of a task.
  abbrev pub IsTask : String → Type 0
  IsTask v = (t : WorkTask) × (loads v ≡ some t)

  pub IsReadable-tasks : (xs : List String) → All IsTask xs → IsReadable codec xs
  IsReadable-tasks [] h = inl refl
  IsReadable-tasks (v ∷ []) ((t, e), _) = inr (t, e)
  IsReadable-tasks (v ∷ w ∷ vs) (h, hs) = elim (IsReadable-tasks (w ∷ vs) hs) [
    | inl e ↦ absurd ((λ (n : ◌≢◌ {A = List String} (w ∷ vs) []). n e) (λ e. cc))
    | inr r ↦ inr r
  ]

  pub All-front : (xs ys : List String) → All IsTask (xs ++ ys) → All IsTask xs
  All-front [] ys h = tt
  All-front (x ∷ xs) ys (h, hs) = (h, All-front xs ys hs)

  -- Nothing is offered only if the queues are empty.
  pub offers-empty :
      (q : ℕ → List String) (ps : List ℕ)
      → All (λ p. IsReadable codec (q p)) ps
      → length (offers codec q ps) ≡ 0
      → All (λ p. q p ≡ []) ps
  offers-empty q [] h e = tt
  offers-empty q (p ∷ ps) (h, hs) e = elim h [
    | inl empty ↦
        let nothing : offered codec (q p) ≡ none = ap (offered codec) empty in
        (empty, offers-empty q ps hs (ap length (sym (offers-none codec q p ps nothing)) ∙ e))
    | inr (t, there) ↦ absurd (omega (arith, e, ap length (offers-some codec q p ps t there)))
  ]

module _ (redis : Redis) (codec : Codec) (worker_id platform : String) where
  open redis use {State, lrange, rpoplpush}

  abbrev pub queue_keys : List ℕ → List String
  queue_keys [] = []
  queue_keys (p ∷ ps) = queue_key platform p ∷ queue_keys ps

  -- How many texts the platform's four queues hold.
  abbrev pub waiting : State → ℕ
  waiting s = sum (λ k. length (lrange s k)) (queue_keys four)

  -- Every text of the four queues is that of a task.
  abbrev pub AllTasks : State → Type 0
  AllTasks s = All (λ p. All (IsTask codec) (lrange s (queue_key platform p))) four

  queue_keys-Apart :
      (p : ℕ) (ps : List ℕ)
      → Order.Apart platform p ps
      → All (λ k. queue_key platform p ≢ k) (queue_keys ps)
  queue_keys-Apart p [] h = tt
  queue_keys-Apart p (q ∷ ps) (h, hs) = (h, queue_keys-Apart p ps hs)

  queue_keys-Distinct : (ps : List ℕ) → Order.Distinct platform ps → Distinct (queue_keys ps)
  queue_keys-Distinct [] d = tt
  queue_keys-Distinct (p ∷ ps) (a, d) = (queue_keys-Apart p ps a, queue_keys-Distinct ps d)

  Among-ne-processing_key :
      (k : String) (ps : List ℕ) → Among k (queue_keys ps) → k ≢ processing_key worker_id
  Among-ne-processing_key k [] i = absurd i
  Among-ne-processing_key k (p ∷ ps) (inl e) =
      λ h. queue_key-ne-processing_key platform worker_id p (e ∙ h)
  Among-ne-processing_key k (p ∷ ps) (inr i) = Among-ne-processing_key k ps i

  -- A move from one of the queues leaves one text less.
  waiting-moved :
      (k v : String) (s t : State)
      → Among k (queue_keys four)
      → IsAccount redis (processing_key worker_id) s t ((k, v) ∷ [])
      → suc (waiting t) ≡ waiting s
  waiting-moved k v s t i a =
      let d = queue_keys-Distinct four (four_queues-Distinct platform) in
      let lost = λ (j : String) (m : Among j (queue_keys four)).
        a.lost j (Among-ne-processing_key j four m) in
      let change =
        sum-change (λ j. length (lrange s j)) (λ j. length (lrange t j)) k (queue_keys four) d i
          (λ j m n. sym (ap length (lost j m ∙ rw (eq-false_of_ne n) (append-nil _)))) in
      let here : length (lrange s k) ≡ length (lrange t k ++ v ∷ []) =
        ap length (lost k i ∙ rw (eq_refl k) refl) in
      omega (arith, change, here, length-append (lrange t k) (v ∷ []))

  module _ (capacity : ℕ) where
    -- It returns, and every task it adds has left the queues.
    pub pop_priorities-waiting :
        (q : ℕ → List String) (ps : List ℕ) (ts : List WorkTask) (s : State)
        → Order.Distinct platform ps
        → All (λ p. Among (queue_key platform p) (queue_keys four)) ps
        → Holds redis codec platform q ps s
        → All (λ p. IsReadable codec (q p)) ps
        → let r = pop_priorities redis codec worker_id capacity platform ps ts s in
          (ts' : List WorkTask) × (r.0 ≡ some ts')
          × (length ts' + waiting r.1 ≡ length ts + waiting s)
    unfolding pop_priorities
    pop_priorities-waiting q [] ts s d i h ok = (ts, refl, refl)
    pop_priorities-waiting q (p ∷ ps) ts s (a, d) (i, is) (h, hs) (ok, oks) =
        elim (Bool-cases (leb capacity (length ts))) [
          | inl full ↦ rw full (ts, refl, refl)
          | inr space ↦ rw space (elim (round_cases redis codec worker_id platform q p ts s h ok) [
            | inl (nothing, same) ↦
                rw (same, take_raw-none redis codec ts, same)
                  (pop_priorities-waiting q ps ts s d is hs oks)
            | inr (t, v, there, read, account) ↦
                let s' = (rpoplpush (queue_key platform p) (processing_key worker_id) s).1 in
                let rest =
                  pop_priorities-waiting q ps (ts ++ t ∷ []) s' d is
                    (Holds-moved redis codec (processing_key worker_id) (queue_key platform p) v
                      platform q ps s s' account
                      (λ k. queue_key-ne-processing_key platform worker_id k) a hs)
                    oks in
                rw read (
                  rest.0,
                  rest.1,
                  omega (
                    arith,
                    rest.2,
                    length-append ts (t ∷ []),
                    waiting-moved (queue_key platform p) v s s' i account,
                  ),
                )
          ])
        ]
