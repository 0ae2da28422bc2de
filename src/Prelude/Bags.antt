-- ===== src/Prelude/Bags.antt =====
-- Lists of texts up to order: the abstract view of several lists together.
use Prim.Native.Nat.{ℕ, ◌+◌}
use mathlib.Core.Path.{◌≡◌, ap}
use mathlib.Core.List.{List, [], ◌∷◌, ◌++◌}
use mathlib.Core.Quot
use mathlib.Core.Quot.{Quot, Quot-set}
use native.Mathlib.Nat.{ℕ_set}
use native.Mathlib.Omega.{arith}
use taxlien_gateway.Prelude.Text.{String, str_eq}
use taxlien_gateway.Prelude.Tests.{if◌then◌else◌}

abbrev pub count : String → List String → ℕ
count v [] = 0
count v (x ∷ xs) = (if str_eq x v then 1 else 0) + count v xs

pub count-append : (v : String) (xs ys : List String) → count v (xs ++ ys) ≡ count v xs + count v ys
count-append v [] ys = omega arith
count-append v (x ∷ xs) ys = omega (arith, count-append v xs ys)

-- The same texts, each as often.
abbrev pub SameItems : List String → List String → Type 0
SameItems xs ys = (v : String) → count v xs ≡ count v ys

abbrev pub Bag : Type 0
Bag = Quot SameItems

abbrev pub of_list : List String → Bag
of_list = Quot.mk

pub of_list-eq : {xs ys : List String} → SameItems xs ys → of_list xs ≡ of_list ys
of_list-eq h = Quot.sound h

-- How often a text is in a bag.
unfoldable pub amount : String → Bag → ℕ
amount v = Quot.lift ℕ_set (count v) (λ xs ys h. h v)

pub exact : {xs ys : List String} → of_list xs ≡ of_list ys → SameItems xs ys
unfolding amount
exact e v = ap (amount v) e

-- A bag with the texts of a list more.
unfoldable pub add_all : List String → Bag → Bag
add_all zs =
    Quot.lift Quot-set (λ xs. of_list (zs ++ xs))
      (λ xs ys h. Quot.sound (λ v. simp (count-append, h v)))
