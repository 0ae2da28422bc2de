-- ===== src/WorkerQueue/Rounds.antt =====
-- legacy/app/services/worker_queue.py: what the rounds of `pop_tasks` do to the queues of a platform
-- when the capacity leaves space for a task of every priority.
use taxlien_gateway.Prelude.{
  ℕ, ◌+◌, ◌≤◌, ◌≡◌, ◌≢◌, inl, inr, refl, sym, ap, ◌∙◌, false, Option, none, some, List, [], ◌∷◌,
  ◌++◌, String, length, length-append, All, leb, lt→leb, append-nil, eq-false_of_ne, eq_refl,
  without_last, without_last-snoc, arith,
}
use mathlib.Core.Path.{subst}
use taxlien_gateway.Models.Worker.{WorkTask}
use taxlien_gateway.Redis.{Redis}
use taxlien_gateway.WorkerQueue.{Codec, queue_key, processing_key, take_raw, pop_priorities}
use taxlien_gateway.WorkerQueue.Loop.{queue_key-ne-processing_key, IsAccount}
use taxlien_gateway.WorkerQueue.Order.{
  Apart, Distinct, offered, IsReadable, take_raw-none, Holds, Holds-moved, round_cases,
}

empty_of_none :
    (codec : Codec) (xs : List String) → IsReadable codec xs → offered codec xs ≡ none → xs ≡ []
empty_of_none codec xs (inl e) n = e
empty_of_none codec xs (inr (t, e)) n = cc

Apart-sym :
    (platform : String) (p : ℕ) (ps : List ℕ)
    → Apart platform p ps
    → All (λ k. queue_key platform k ≢ queue_key platform p) ps
Apart-sym platform p [] a = tt
Apart-sym platform p (q ∷ ps) (a, as') = ((λ e. a (sym e)), Apart-sym platform p ps as')

module _ (redis : Redis) (codec : Codec) (worker_id platform : String) where
  open redis use {State, lrange, rpoplpush}

  abbrev own_list : String
  own_list = processing_key worker_id

  -- A move from the queue k.
  moved-here :
      (k v : String) (s t : State)
      → IsAccount redis own_list s t ((k, v) ∷ [])
      → k ≢ own_list
      → lrange s k ≡ lrange t k ++ v ∷ []
  moved-here k v s t a n = a.lost k n ∙ rw (eq_refl k) refl

  moved-other :
      (k v j : String) (s t : State)
      → IsAccount redis own_list s t ((k, v) ∷ [])
      → j ≢ own_list
      → k ≢ j
      → lrange t j ≡ lrange s j
  moved-other k v j s t a n m = sym (a.lost j n ∙ rw (eq-false_of_ne m) (append-nil (lrange t j)))

  module _ (capacity : ℕ) where
    unfoldable pub run : String → List ℕ → List WorkTask → State → Option (List WorkTask) × State
    run = pop_priorities redis codec worker_id capacity

    -- A round with space: nothing is there, or a task is taken.
    run-nothing :
        (p : ℕ) (ps : List ℕ) (ts : List WorkTask) (s : State)
        → leb capacity (length ts) ≡ false
        → rpoplpush (queue_key platform p) own_list s ≡ (none, s)
        → run platform (p ∷ ps) ts s ≡ run platform ps ts s
    unfolding run pop_priorities
    run-nothing p ps ts s space same = rw (space, same, take_raw-none redis codec ts, same) refl

    run-taken :
        (p : ℕ) (ps : List ℕ) (ts ts' : List WorkTask) (s : State)
        → leb capacity (length ts) ≡ false
        → take_raw redis codec (rpoplpush (queue_key platform p) own_list s).0 ts ≡ some ts'
        → run platform (p ∷ ps) ts s
          ≡ run platform ps ts' (rpoplpush (queue_key platform p) own_list s).1
    unfolding run pop_priorities
    run-taken p ps ts ts' s space read = rw (space, read) refl

    -- Each of the queues has lost its oldest text, and no other list but the worker's has changed.
    pub record IsEachPopped (q : ℕ → List String) (ps : List ℕ) (s u : State) : Type 0 where
      pub each : All (λ p. lrange u (queue_key platform p) ≡ without_last 1 (q p)) ps
      pub others :
          (j : String)
          → j ≢ own_list
          → All (λ p. queue_key platform p ≢ j) ps
          → lrange u j ≡ lrange s j

    IsEachPopped-nothing :
        (q : ℕ → List String) (p : ℕ) (ps : List ℕ) (s u : State)
        → Apart platform p ps
        → lrange s (queue_key platform p) ≡ q p
        → q p ≡ []
        → IsEachPopped q ps s u
        → IsEachPopped q (p ∷ ps) s u
    IsEachPopped-nothing q p ps s u a h empty r = record {
      each = (
        r.others (queue_key platform p) (queue_key-ne-processing_key platform worker_id p)
              (Apart-sym platform p ps a)
            ∙ h
            ∙ rw empty refl,
        r.each,
      );
      others = λ j n (m, ms). r.others j n ms;
    }

    IsEachPopped-taken :
        (q : ℕ → List String) (p : ℕ) (ps : List ℕ) (v : String) (s t u : State)
        → Apart platform p ps
        → lrange s (queue_key platform p) ≡ q p
        → IsAccount redis own_list s t ((queue_key platform p, v) ∷ [])
        → IsEachPopped q ps t u
        → IsEachPopped q (p ∷ ps) s u
    IsEachPopped-taken q p ps v s t u a h account r =
        let k = queue_key platform p in
        let k-ne-l = queue_key-ne-processing_key platform worker_id p in
        let before : q p ≡ lrange t k ++ v ∷ [] = sym h ∙ moved-here k v s t account k-ne-l in
        record {
          each = (
            r.others k k-ne-l (Apart-sym platform p ps a)
                ∙ sym (ap (without_last 1) before ∙ without_last-snoc (lrange t k) v),
            r.each,
          );
          others = λ j n (m, ms). r.others j n ms ∙ moved-other k v j s t account n m;
        }

    -- It is so with space for a task of every priority.
    pub run-IsEachPopped :
        (q : ℕ → List String) (ps : List ℕ) (ts : List WorkTask) (s : State)
        → Distinct platform ps
        → Holds redis codec platform q ps s
        → All (λ p. IsReadable codec (q p)) ps
        → length ts + length ps ≤ capacity
        → IsEachPopped q ps s (run platform ps ts s).1
    unfolding run pop_priorities
    run-IsEachPopped q [] ts s d h ok room = record { each = tt; others = λ j n a. refl }
    run-IsEachPopped q (p ∷ ps) ts s (a, d) (h, hs) (ok, oks) room =
        let k = queue_key platform p in
        let space = lt→leb capacity (length ts) (omega (arith, room)) in
        elim (round_cases redis codec worker_id platform q p ts s h ok) [
          | inl (nothing, same) ↦
              let rest = run-IsEachPopped q ps ts s d hs oks (omega (arith, room)) in
              subst (λ r. IsEachPopped q (p ∷ ps) s r.1) (sym (run-nothing p ps ts s space same))
                (IsEachPopped-nothing q p ps s _ a h (empty_of_none codec (q p) ok nothing) rest)
          | inr (t, v, there, read, account) ↦
              let s' = (rpoplpush k own_list s).1 in
              let rest =
                run-IsEachPopped q ps (ts ++ t ∷ []) s' d
                  (Holds-moved redis codec own_list k v platform q ps s s' account
                    (λ i. queue_key-ne-processing_key platform worker_id i) a hs)
                  oks (omega (arith, room, length-append ts (t ∷ []))) in
              subst (λ r. IsEachPopped q (p ∷ ps) s r.1)
                (sym (run-taken p ps ts (ts ++ t ∷ []) s space read))
                (IsEachPopped-taken q p ps v s s' _ a h account rest)
        ]
