-- ===== src/Prelude.antt =====
-- The names that the other modules share: the libraries', passed on, and those of the children.
mod Tests
mod Lists
mod Strings
mod Word
mod Bits
pub mod Run
pub mod Table
pub use Tests.*
unfoldable pub use Tests.{holds_below}
pub use Lists.*
pub use Strings.*
unfoldable pub use Strings.{bytes_eq, has_prefix, contains}
pub use Word.*
pub use Bits.*
unfoldable pub use Bits.{has_bit, set_bit, clear_bit}
pub use Prim.Native.Nat.{ℕ, zero, suc, ◌+◌, ◌-◌, ◌*◌, ◌/◌, ◌%◌, ◌^◌, ◌≤◌, ◌<◌, min}
pub use mathlib.Core.Path.{◌≡◌, refl, sym, ap, subst, ◌∙◌}
pub use mathlib.Core.Logic.{◌≢◌, ◌↔◌, ◌⊎◌, inl, inr}
pub use mathlib.Core.Bool.{Bool, true, false, not, ◌&&◌, ◌||◌}
pub use mathlib.Core.Option.{Option, none, some}
pub use mathlib.Core.List.{List, [], ◌∷◌, ◌++◌, map}
pub use native.Mathlib.Omega.{arith}
pub use native.Mathlib.Nat.{le_trans}
unfoldable pub use native.Mathlib.Decide.{ℕ_discrete}
