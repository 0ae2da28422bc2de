-- ===== src/WorkerQueue/Loop.antt =====
-- legacy/app/services/worker_queue.py: what one RPOPLPUSH moves, and accounts of several of them.
use mathlib.Core.List.{reverse, reverse-append}
use taxlien_gateway.Prelude.{
  ℕ, ◌≡◌, ◌≢◌, ◌⊎◌, inl, inr, refl, sym, ap, ◌∙◌, none, some, List, [], ◌∷◌, ◌++◌, append_assoc,
  append-nil, String, str_eq, eq_iff, prefix-ne, eq_refl, eq-false_of_ne, Bool-cases, if◌then◌else◌,
  arith,
}
use taxlien_gateway.Redis.{Redis}
use taxlien_gateway.WorkerQueue.{queue_key, processing_key}

-- The texts that were moved, each with the key of its queue, in the order of the moves.
abbrev pub Moved : Type 0
Moved = List (String × String)

abbrev pub texts : Moved → List String
texts [] = []
texts ((k, v) ∷ m) = v ∷ texts m

abbrev pub from : String → Moved → List String
from j [] = []
from j ((k, v) ∷ m) = if str_eq k j then v ∷ from j m else from j m

pub texts-append : (m n : Moved) → texts (m ++ n) ≡ texts m ++ texts n
texts-append [] n = refl
texts-append ((k, v) ∷ m) n = ap (λ (l : List String). v ∷ l) (texts-append m n)

from-append : (j : String) (m n : Moved) → from j (m ++ n) ≡ from j m ++ from j n
from-append j [] n = refl
from-append j ((k, v) ∷ m) n = ground (arith, from-append j m n)

reverse-from :
    (j : String) (m n : Moved)
    → reverse (from j (m ++ n)) ≡ reverse (from j n) ++ reverse (from j m)
reverse-from j m n = rw (from-append j m n) (reverse-append (from j m) (from j n))

pub snoc-cases :
    (xs : List String) → (xs ≡ []) ⊎ ((vs : List String) × (v : String) × (xs ≡ vs ++ v ∷ []))
snoc-cases [] = inl refl
snoc-cases (x ∷ xs) = inr (elim (snoc-cases xs) [
  | inl e ↦ ([], x, ap (λ (l : List String). x ∷ l) e)
  | inr (vs, v, e) ↦ (x ∷ vs, v, ap (λ (l : List String). x ∷ l) e)
])

pub queue_key-ne-processing_key :
    (platform worker_id : String) (n : ℕ) → queue_key platform n ≢ processing_key worker_id
queue_key-ne-processing_key platform worker_id n =
    prefix-ne "q" "p" "ueue:" "rocessing:" _ _ (omega arith)

module _ (redis : Redis) where
  open redis use {State, lrange, rpoplpush, rpoplpush-empty, rpoplpush-result, lrange-rpoplpush}

  -- The list l has gained the moved texts, the latest at its head; every other list has lost
  -- exactly the texts that were moved from it, from its old end.
  pub record IsAccount (l : String) (s s' : State) (moved : Moved) : Type 0 where
    pub gained : lrange s' l ≡ reverse (texts moved) ++ lrange s l
    pub lost : (j : String) → j ≢ l → lrange s j ≡ lrange s' j ++ reverse (from j moved)

  pub IsAccount-nil : (l : String) (s : State) → IsAccount l s s []
  IsAccount-nil l s = record { gained = refl; lost = λ j n. sym (append-nil _) }

  pub IsAccount-append :
      (l : String) (m n : Moved) (s t u : State)
      → IsAccount l s t m
      → IsAccount l t u n
      → IsAccount l s u (m ++ n)
  IsAccount-append l m n s t u a b = record {
    gained = simp (b.gained, a.gained, texts-append, reverse-append, append_assoc);
    lost = λ j ne.
        a.lost j ne
        ∙ ap (λ (x : List String). x ++ reverse (from j m)) (b.lost j ne)
        ∙ append_assoc (lrange u j) (reverse (from j n)) (reverse (from j m))
        ∙ ap (λ (x : List String). lrange u j ++ x) (sym (reverse-from j m n));
  }

  lost_from :
      (k l j v : String) (vs : List String) (s : State)
      → k ≢ l
      → lrange s k ≡ vs ++ v ∷ []
      → j ≢ l
      → lrange s j ≡ lrange (rpoplpush k l s).1 j ++ reverse (from j ((k, v) ∷ []))
  lost_from k l j v vs s n e m =
      let after = lrange-rpoplpush k l j v vs s n e in
      let not_l = eq-false_of_ne (λ (p : l ≡ j). m (sym p)) in
      elim (Bool-cases (str_eq k j)) [
        | inl same ↦ rw (after, same) (ap (lrange s) (sym ((eq_iff k j).0 same)) ∙ e)
        | inr other ↦ rw (after, other, not_l) (sym (append-nil _))
      ]

  -- A move from a queue that is not empty.
  pub rpoplpush-IsAccount :
      (k l v : String) (vs : List String) (s : State)
      → k ≢ l
      → lrange s k ≡ vs ++ v ∷ []
      → IsAccount l s (rpoplpush k l s).1 ((k, v) ∷ [])
  rpoplpush-IsAccount k l v vs s n e = record {
    gained = rw (lrange-rpoplpush k l l v vs s n e, eq-false_of_ne n, eq_refl l);
    lost = λ j m. lost_from k l j v vs s n e m;
  }

  pub rpoplpush-cases :
      (k l : String) (s : State)
      → k ≢ l
      → (rpoplpush k l s ≡ (none, s))
        ⊎ ((v : String) × ((rpoplpush k l s).0 ≡ some v)
            × IsAccount l s (rpoplpush k l s).1 ((k, v) ∷ []))
  rpoplpush-cases k l s n = elim (snoc-cases (lrange s k)) [
    | inl e ↦ inl (rpoplpush-empty k l s e)
    | inr (vs, v, e) ↦ inr (v, rpoplpush-result k l v vs s e, rpoplpush-IsAccount k l v vs s n e)
  ]
