-- ===== src/Prelude/Lists.antt =====
-- Lists measured by native numbers, under the library's names, and predicates over lists.
use Prim.Native.Nat.{ℕ, zero, suc, ◌+◌, ◌-◌, ◌≤◌}
use mathlib.Core.Path.{◌≡◌, refl, ap, ◌∙◌}
use mathlib.Core.List.{List, [], ◌∷◌, ◌++◌}
use native.Mathlib.Omega.{arith}

module _ {ℓ} {A : Type ℓ} where
  abbrev pub length : List A → ℕ
  length [] = 0
  length (x ∷ xs) = suc (length xs)

  pub length-append : (xs ys : List A) → length (xs ++ ys) ≡ length xs + length ys
  length-append [] ys = omega arith
  length-append (x ∷ xs) ys = omega (arith, length-append xs ys)

  abbrev pub replicate : ℕ → A → List A
  replicate zero a = []
  replicate (suc n) a = a ∷ replicate n a

module _ {ℓ κ} {A : Type ℓ} (P : A → Type κ) where
  abbrev pub All : List A → Type κ
  All [] = Unit
  All (x ∷ xs) = P x × All xs

  pub All-append : (xs ys : List A) → All (xs ++ ys) → All xs × All ys
  All-append [] ys h = (tt, h)
  All-append (x ∷ xs) ys (p, h) = let (h', h'') = All-append xs ys h in ((p, h'), h'')

  pub append-All : (xs ys : List A) → All xs → All ys → All (xs ++ ys)
  append-All [] ys h k = k
  append-All (x ∷ xs) ys (p, h) k = (p, append-All xs ys h k)

module _ {ℓ} {A : Type ℓ} where
  abbrev pub take : ℕ → List A → List A
  take zero xs = []
  take (suc n) [] = []
  take (suc n) (x ∷ xs) = x ∷ take n xs

  pub take-nil : (n : ℕ) → take n [] ≡ []
  take-nil zero = refl
  take-nil (suc n) = refl

  pub take-append : (xs ys : List A) → take (length xs) (xs ++ ys) ≡ xs
  take-append [] ys = refl
  take-append (x ∷ xs) ys = ap (λ (l : List A). x ∷ l) (take-append xs ys)

  pub length-take : (n : ℕ) (xs : List A) → n ≤ length xs → length (take n xs) ≡ n
  length-take zero xs h = refl
  length-take (suc n) [] h = absurd (omega (arith, h))
  length-take (suc n) (x ∷ xs) h = ap suc (length-take n xs (omega (arith, h)))

  pub take-take : (m n : ℕ) (xs : List A) → m ≤ n → take m (take n xs) ≡ take m xs
  take-take zero n xs h = refl
  take-take (suc m) zero xs h = absurd (omega (arith, h))
  take-take (suc m) (suc n) [] h = refl
  take-take (suc m) (suc n) (x ∷ xs) h =
      ap (λ (l : List A). x ∷ l) (take-take m n xs (omega (arith, h)))

  -- All but the last n.
  abbrev pub without_last : ℕ → List A → List A
  without_last n xs = take (length xs - n) xs

  pub without_last-snoc : (xs : List A) (x : A) → without_last 1 (xs ++ x ∷ []) ≡ xs
  without_last-snoc xs x =
      let size : length (xs ++ x ∷ []) - 1 ≡ length xs = omega (arith, length-append xs (x ∷ [])) in
      ap (λ n. take n (xs ++ x ∷ [])) size ∙ take-append xs (x ∷ [])

  pub without_last-suc :
      (n : ℕ) (xs : List A) → without_last n (without_last 1 xs) ≡ without_last (suc n) xs
  without_last-suc n xs =
      let size : length (without_last 1 xs) - n ≡ length xs - suc n =
        omega (arith, length-take (length xs - 1) xs (omega arith)) in
      ap (λ m. take m (without_last 1 xs)) size
      ∙ take-take (length xs - suc n) (length xs - 1) xs (omega arith)

  pub take-length : (xs : List A) → take (length xs) xs ≡ xs
  take-length [] = refl
  take-length (x ∷ xs) = ap (λ (l : List A). x ∷ l) (take-length xs)

  pub without_last-zero : (xs : List A) → without_last 0 xs ≡ xs
  without_last-zero xs =
      let size : length xs - 0 ≡ length xs = omega arith in
      ap (λ n. take n xs) size ∙ take-length xs
