-- ===== src/Prelude/Keys.antt =====
-- Redis keys are texts of fields joined by ":". When two such keys can be equal.
use Prim.Native.Char.{Char, code}
use Prim.Native.String.{String}
use mathlib.Core.Path.{◌≡◌, refl, sym, ap, ◌∙◌}
use mathlib.Core.Logic.{◌≢◌}
use text.Mathlib.TextLemmas.{
  nil-append, cons-append, append_cancel_left, append_cancel_right, head-eq_of_cons-eq,
  tail-eq_of_cons-eq,
}
use taxlien_gateway.Prelude.Text.{◌<>◌}

-- A text without ":".
abbrev pub NoColon : String → Type 0
NoColon String.[] = Unit
NoColon (String.◌∷◌ c s) = (code c ≢ b':') × NoColon s

colon_cons : (a : String) → ":" <> a ≡ String.◌∷◌ ":" a
colon_cons a = cons-append ":" String.[] a ∙ ap (String.◌∷◌ ":") (nil-append a)

-- A field does not begin with the separator.
not_colon : (c : Char) (s a : String) → code c ≢ b':' → ":" <> a ≡ String.◌∷◌ c s → ⊥
not_colon c s a n e = n (ap code (sym (head-eq_of_cons-eq (sym (colon_cons a) ∙ e))))

pub <>_cancel_left : (s a b : String) → s <> a ≡ s <> b → a ≡ b
<>_cancel_left s a b e = append_cancel_left s a b e

-- The first field of a key ends at its first ":".
pub field_inj :
    (s t a b : String) → NoColon s → NoColon t → s <> ":" <> a ≡ t <> ":" <> b → (s ≡ t) × (a ≡ b)
field_inj String.[] String.[] a b h k e =
    (refl, append_cancel_left ":" a b (sym (nil-append _) ∙ e ∙ nil-append _))
field_inj String.[] (String.◌∷◌ d t) a b h k e =
    absurd (not_colon d _ a k.0 (sym (nil-append _) ∙ e ∙ cons-append d t _))
field_inj (String.◌∷◌ c s) String.[] a b h k e =
    absurd (not_colon c _ b h.0 (sym (nil-append _) ∙ sym e ∙ cons-append c s _))
field_inj (String.◌∷◌ c s) (String.◌∷◌ d t) a b (h, hs) (k, ks) e =
    let e' = sym (cons-append c s _) ∙ e ∙ cons-append d t _ in
    let (p, q) = field_inj s t a b hs ks (tail-eq_of_cons-eq e') in
    (λ i. String.◌∷◌ (head-eq_of_cons-eq e' i) (p i), q)

pub <>_cancel_right : (a b s : String) → a <> s ≡ b <> s → a ≡ b
<>_cancel_right a b s e = append_cancel_right a b s e

-- Keys of two kinds differ by the first letter of their prefixes.
pub prefix-ne :
    (c d : Char) (s t a b : String) → code c ≢ code d → String.◌∷◌ c s <> a ≢ String.◌∷◌ d t <> b
prefix-ne c d s t a b n e =
    n (ap code (head-eq_of_cons-eq (sym (cons-append c s a) ∙ e ∙ cons-append d t b)))
