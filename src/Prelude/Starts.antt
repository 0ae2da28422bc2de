-- ===== src/Prelude/Starts.antt =====
-- What a text begins with.
use mathlib.Core.Path.{◌≡◌, sym, ◌∙◌}
use mathlib.Core.Bool.{true}
use text.Mathlib.TextLemmas.{append_assoc, append-nil}
use text.Mathlib.TextEquality.{starts_with_iff}
use taxlien_gateway.Prelude.Text.{String, ◌<>◌, starts_with}

-- What begins with a longer text begins with a shorter one.
pub starts_with-<> : (s a b : String) → starts_with s (a <> b) ≡ true → starts_with s a ≡ true
starts_with-<> s a b h =
    let (rest, e) = (starts_with_iff s (a <> b)).0 h in
    (starts_with_iff s a).1 (b <> rest, sym (append_assoc a b rest) ∙ e)

pub starts_with_refl : (s : String) → starts_with s s ≡ true
starts_with_refl s = (starts_with_iff s s).1 ("", append-nil s)
