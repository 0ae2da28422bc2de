-- ===== src/WorkerQueue/Contents.antt =====
-- legacy/app/services/worker_queue.py: the texts in several lists of Redis together, up to order.
use taxlien_gateway.Prelude.{
  ℕ, ◌+◌, ◌≡◌, ◌≢◌, inl, inr, refl, ap, ◌∙◌, Option, none, some, List, [], ◌∷◌, ◌++◌, String,
  str_eq, eq_iff, eq_refl, eq-false_of_ne, Bool-cases, count, count-append, sum, Among, Distinct,
  sum-change, sum_ext, Bag, of_list, if◌then◌else◌, arith,
}
use taxlien_gateway.Redis.{Redis, erase_first}
use taxlien_gateway.WorkerQueue.Loop.{snoc-cases}

-- LREM with count 1 takes out one occurrence, if there is one.
abbrev pub taken : String → List String → List String
taken x [] = []
taken x (y ∷ ys) = if str_eq y x then x ∷ [] else taken x ys

-- What a command hands to its caller.
abbrev pub given : Option String → List String
given none = []
given (some v) = v ∷ []

pub count-erase_first :
    (v x : String) (xs : List String)
    → count v (erase_first x xs) + count v (taken x xs) ≡ count v xs
count-erase_first v x [] = omega arith
count-erase_first v x (y ∷ ys) = elim (Bool-cases (str_eq y x)) [
  | inl same ↦ let e = (eq_iff y x).0 same in rw same (rw e (omega arith))
  | inr other ↦ rw other (omega (arith, count-erase_first v x ys))
]

module _ (redis : Redis) where
  open redis use {
    State, lrange, lpush, rpoplpush, lrem, lrange-lpush, rpoplpush-empty, rpoplpush-result,
    lrange-rpoplpush, lrange-lrem,
  }

  abbrev pub all_texts : List String → State → List String
  all_texts [] s = []
  all_texts (k ∷ ks) s = lrange s k ++ all_texts ks s

  -- What the lists under these keys hold together.
  abbrev pub contents : List String → State → Bag
  contents ks s = of_list (all_texts ks s)

  abbrev pub total : String → List String → State → ℕ
  total v ks s = sum (λ k. count v (lrange s k)) ks

  pub count-all_texts :
      (v : String) (ks : List String) (s : State) → count v (all_texts ks s) ≡ total v ks s
  count-all_texts v [] s = refl
  count-all_texts v (k ∷ ks) s =
      count-append v (lrange s k) (all_texts ks s) ∙ omega (arith, count-all_texts v ks s)

  pub total-lpush :
      (v x k : String) (ks : List String) (s : State)
      → Distinct ks
      → Among k ks
      → total v ks (lpush k x s) ≡ (if str_eq x v then 1 else 0) + total v ks s
  total-lpush v x k ks s d i =
      let s' = lpush k x s in
      let change =
        sum-change (λ j. count v (lrange s j)) (λ j. count v (lrange s' j)) k ks d i
          (λ j m n. ap (count v) (lrange-lpush k j x s ∙ rw (eq-false_of_ne n))) in
      let at_k : lrange s' k ≡ x ∷ lrange s k = lrange-lpush k k x s ∙ rw (eq_refl k) in
      omega (arith, change, ap (count v) at_k)

  pub total-lrem :
      (v x k : String) (ks : List String) (s : State)
      → Distinct ks
      → Among k ks
      → total v ks (lrem k x s) + count v (taken x (lrange s k)) ≡ total v ks s
  total-lrem v x k ks s d i =
      let s' = lrem k x s in
      let change =
        sum-change (λ j. count v (lrange s j)) (λ j. count v (lrange s' j)) k ks d i
          (λ j m n. ap (count v) (lrange-lrem k j x s ∙ rw (eq-false_of_ne n))) in
      let at_k : lrange s' k ≡ erase_first x (lrange s k) = lrange-lrem k k x s ∙ rw (eq_refl k) in
      omega (arith, change, ap (count v) at_k, count-erase_first v x (lrange s k))

  -- A move between two of the lists changes nothing of what they hold together.
  pub total-rpoplpush :
      (v k l : String) (ks : List String) (s : State)
      → Distinct ks
      → Among k ks
      → Among l ks
      → k ≢ l
      → total v ks (rpoplpush k l s).1 ≡ total v ks s
  total-rpoplpush v k l ks s d i j n = elim (snoc-cases (lrange s k)) [
    | inl e ↦
        ap (λ (r : State). total v ks r)
          (ap (λ (r : Option String × State). r.1) (rpoplpush-empty k l s e))
    | inr (vs, x, e) ↦
        let s' = (rpoplpush k l s).1 in
        let moved = λ (m : String). lrange-rpoplpush k l m x vs s n e in
        let before = λ (m : String). count v (lrange s m) in
        let between = λ (m : String). if str_eq k m then count v vs else count v (lrange s m) in
        let after = λ (m : String). count v (lrange s' m) in
        let first = sum-change before between k ks d i (λ m a p. rw (eq-false_of_ne p)) in
        let second = sum-change between after l ks d j (λ m a p.
          ap (count v) (moved m) ∙ elim (Bool-cases (str_eq k m)) [
            | inl same ↦ rw same
            | inr other ↦ rw (other, eq-false_of_ne p)
          ]) in
        let at_l : lrange s' l ≡ x ∷ lrange s l = moved l ∙ rw (eq-false_of_ne n, eq_refl l) in
        let left : between k ≡ count v vs = rw (eq_refl k) in
        let kept : between l ≡ count v (lrange s l) = rw (eq-false_of_ne n) in
        let whole = ap (count v) e ∙ count-append v vs (x ∷ []) in
        omega (arith, first, second, left, kept, whole, ap (count v) at_l)
  ]

  -- A move to another list takes away what it gives to its caller.
  pub total-rpoplpush_out :
      (v k l : String) (ks : List String) (s : State)
      → Distinct ks
      → Among k ks
      → ((j : String) → Among j ks → l ≢ j)
      → k ≢ l
      → total v ks (rpoplpush k l s).1 + count v (given (rpoplpush k l s).0) ≡ total v ks s
  total-rpoplpush_out v k l ks s d i out n = elim (snoc-cases (lrange s k)) [
    | inl e ↦ rw (rpoplpush-empty k l s e) (omega arith)
    | inr (vs, x, e) ↦
        let s' = (rpoplpush k l s).1 in
        let moved = λ (m : String). lrange-rpoplpush k l m x vs s n e in
        let change =
          sum-change (λ j. count v (lrange s j)) (λ j. count v (lrange s' j)) k ks d i
            (λ j m p. ap (count v) (moved j ∙ rw (eq-false_of_ne p, eq-false_of_ne (out j m)))) in
        let left : lrange s' k ≡ vs = moved k ∙ rw (eq_refl k) in
        let whole = ap (count v) e ∙ count-append v vs (x ∷ []) in
        rw (rpoplpush-result k l x vs s e) (omega (arith, change, whole, ap (count v) left))
  ]

  -- What happens to another list changes nothing.
  pub total-lrem_out :
      (v x k : String) (ks : List String) (s : State)
      → ((j : String) → Among j ks → k ≢ j)
      → total v ks (lrem k x s) ≡ total v ks s
  total-lrem_out v x k ks s out =
      sum_ext (λ j. count v (lrange s j)) (λ j. count v (lrange (lrem k x s) j)) ks
        (λ j m. ap (count v) (lrange-lrem k j x s ∙ rw (eq-false_of_ne (out j m))))
