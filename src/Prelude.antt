-- ===== src/Prelude.antt =====
-- The names that the other modules share: the libraries', passed on, and those of the children.
mod Tests
mod Lists
mod Text
mod Starts
mod Clock
mod Mapping
mod Keys
mod Bags
mod Sums
mod Int
mod Decimal
pub use Tests.*
pub use Lists.*
pub use Text.*
pub use Starts.*
pub use Clock.*
pub use Mapping.*
pub use Keys.*
pub use Int.*
pub use Sums.*
unfoldable pub use Bags.{count, SameItems, Bag, of_list, amount, add_all}
pub use Bags.{count-append, of_list-eq, exact}
unfoldable pub use Decimal.{str_of}
pub use Prim.Native.Nat.{ℕ, zero, suc, ◌+◌, ◌-◌, ◌*◌, ◌/◌, ◌%◌, ◌≤◌, ◌<◌, min, max}
pub use mathlib.Core.Path.{◌≡◌, refl, sym, ap, ◌∙◌, ◌≡⟨◌⟩◌, ◌∎}
pub use mathlib.Core.Logic.{◌≢◌, ◌↔◌, ◌⊎◌, inl, inr}
pub use mathlib.Core.Bool.{Bool, true, false, ◌&&◌, ◌||◌, not}
pub use mathlib.Core.Option.{Option, none, some}
pub use mathlib.Core.List.{List, [], ◌∷◌, ◌++◌, map, append_assoc, append-nil}
pub use native.Mathlib.Omega.{arith}
