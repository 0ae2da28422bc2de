-- ===== src/Prelude/Sums.antt =====
-- Sums of a number for each of several distinct texts, and what a change at one of them does.
use Prim.Native.Nat.{ℕ, ◌+◌}
use mathlib.Core.Path.{◌≡◌, refl, sym, ap, ◌∙◌}
use mathlib.Core.Logic.{◌≢◌, ◌⊎◌, inl, inr}
use mathlib.Core.List.{List, [], ◌∷◌}
use native.Mathlib.Omega.{arith}
use taxlien_gateway.Prelude.Text.{String}
use taxlien_gateway.Prelude.Lists.{All}

abbrev pub sum : (String → ℕ) → List String → ℕ
sum f [] = 0
sum f (k ∷ ks) = f k + sum f ks

abbrev pub Among : String → List String → Type 0
Among k [] = ⊥
Among k (j ∷ js) = (j ≡ k) ⊎ Among k js

abbrev pub Distinct : List String → Type 0
Distinct [] = Unit
Distinct (k ∷ ks) = All (λ j. k ≢ j) ks × Distinct ks

pub ne-Among : (k j : String) (ks : List String) → All (λ i. j ≢ i) ks → Among k ks → j ≢ k
ne-Among k j [] a i = absurd i
ne-Among k j (x ∷ xs) (a, as') (inl e) = λ p. a (p ∙ sym e)
ne-Among k j (x ∷ xs) (a, as') (inr i) = ne-Among k j xs as' i

module _ (f g : String → ℕ) where
  sum-agree :
      (j : String) (ks : List String)
      → ((i : String) → Among i ks → j ≢ i → g i ≡ f i)
      → All (λ i. j ≢ i) ks
      → sum g ks ≡ sum f ks
  sum-agree j [] h a = refl
  sum-agree j (k ∷ ks) h (a, as') =
      omega (arith, h k (inl refl) a, sum-agree j ks (λ i m. h i (inr m)) as')

  -- If f and g agree on the keys but at k, so do their sums but for what they are at k.
  pub sum-change :
      (k : String) (ks : List String)
      → Distinct ks
      → Among k ks
      → ((i : String) → Among i ks → k ≢ i → g i ≡ f i)
      → sum g ks + f k ≡ sum f ks + g k
  sum-change k [] d i h = absurd i
  sum-change k (j ∷ js) (a, d) (inl e) h =
      let same = sum-agree j js (λ i m n. h i (inr m) (λ p. n (e ∙ p))) a in
      let here : f j ≡ f k = ap f e in
      let there : g j ≡ g k = ap g e in omega (arith, same, here, there)
  sum-change k (j ∷ js) (a, d) (inr i) h =
      let same = h j (inl refl) (λ p. ne-Among k j js a i (sym p)) in
      omega (arith, same, sum-change k js d i (λ x m. h x (inr m)))

-- Sums of numbers that agree on the keys.
pub sum_ext :
    (f g : String → ℕ) (ks : List String)
    → ((i : String) → Among i ks → g i ≡ f i)
    → sum g ks ≡ sum f ks
sum_ext f g [] h = refl
sum_ext f g (k ∷ ks) h = omega (arith, h k (inl refl), sum_ext f g ks (λ i m. h i (inr m)))
