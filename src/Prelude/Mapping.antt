-- ===== src/Prelude/Mapping.antt =====
-- Dictionaries with text keys, as functions: the program never iterates over one.
use mathlib.Core.Path.{◌≡◌}
use mathlib.Core.Logic.{◌≢◌}
use mathlib.Core.Bool.{false}
use mathlib.Core.Option.{Option, none, some}
use native.Mathlib.Omega.{arith}
use text.Mathlib.TextEquality.{eq_iff}
use text.Mathlib.TextPositions.{eq_refl}
use Prim.Native.String.{String}
use text.Mathlib.Text.{◌==◌ as str_eq}
use taxlien_gateway.Prelude.Tests.{if◌then◌else◌}

abbrev pub Dict {ℓ} : Type ℓ → Type ℓ
Dict V = String → Option V

abbrev pub empty_dict {ℓ} : {V : Type ℓ} → Dict V
empty_dict k = none

-- d[k] = v
abbrev pub put {ℓ} : {V : Type ℓ} → Dict V → String → V → Dict V
put d k v j = if str_eq k j then some v else d j

pub put_self {ℓ} : {V : Type ℓ} (d : Dict V) (k : String) (v : V) → put d k v k ≡ some v
put_self d k v = rw (eq_refl k)

pub put_ne {ℓ} : {V : Type ℓ} (d : Dict V) {k j : String} (v : V) → k ≢ j → put d k v j ≡ d j
put_ne d {k} {j} v n = ground (arith, eq_iff k j)

pub eq-false_of_ne : {s t : String} → s ≢ t → str_eq s t ≡ false
eq-false_of_ne {s} {t} n = ground (arith, eq_iff s t)
