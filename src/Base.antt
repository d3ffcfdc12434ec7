-- ===== src/Base.antt =====
-- Names that the modules share: the libraries', passed on, and those of the children: Boolean
-- tests, lists over the native numbers, results of calls that may raise, and table statements.
mod Tests
mod Lists
mod Decimal
mod Results
mod Tables
mod Lookups
mod Keeping
mod Members
mod Dicts
mod Ints
pub use Tests.*
unfoldable pub use Lists.*
unfoldable pub use Decimal.*
unfoldable pub use Results.*
unfoldable pub use Tables.*
pub use Lookups.*
unfoldable pub use Keeping.*
unfoldable pub use Members.*
unfoldable pub use Dicts.*
unfoldable pub use Ints.*
pub use Prim.Native.Nat.{ℕ, zero, suc, ◌+◌, ◌-◌, ◌*◌, ◌/◌, ◌%◌, ◌^◌, ◌≤◌, ◌<◌, min, max}
pub use Prim.Native.String.{String}
pub use mathlib.Core.Path.{◌≡◌, refl, sym, ap, ◌∙◌}
pub use mathlib.Core.Logic.{◌≢◌, ◌↔◌, ◌⊎◌, inl, inr}
pub use mathlib.Core.Bool.{Bool, true, false, not, ◌&&◌, ◌||◌}
pub use mathlib.Core.Option.{Option, none, some}
pub use mathlib.Core.List.{List, [], ◌∷◌, ◌++◌, map}
pub use native.Mathlib.Omega.{arith}
pub use text.Mathlib.Text.{◌==◌ as str_eq}
pub use text.Mathlib.TextEquality.{eq_iff}
pub use text.Mathlib.TextPositions.{eq_refl}
