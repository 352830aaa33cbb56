-- ===== src/Prelude.antt =====
-- The names that the other modules share: the libraries', passed on, and those of the children.
mod Tests
mod Lists
mod Chars
mod Outcome
pub mod Int
pub mod Eq
pub mod Sorting
pub mod Sql
pub mod Hex
pub mod Append
pub mod Decimal
pub mod Strings
pub use Tests.*
pub use Lists.*
pub use Outcome.*
pub use Chars.{
  Text, codes, text_eq_iff, text_eq_refl, ascii_lower_idem, map-ascii_lower_idem, length-map,
}
unfoldable pub use Chars.{text_eq, ascii_lower, is_ascii_alphanumeric}
pub use Prim.Native.Nat.{
  ℕ, zero, suc, ◌+◌, ◌-◌, ◌*◌, ◌/◌, ◌%◌, ◌^◌, ◌≤◌, ◌<◌, min, compare, Ordering,
}
pub use mathlib.Core.Path.{◌≡◌, refl, sym, ap, ◌∙◌}
pub use mathlib.Core.Logic.{◌≢◌, ◌↔◌, ◌⊎◌, inl, inr}
pub use mathlib.Core.Bool.{Bool, true, false, ◌&&◌, ◌||◌}
pub use mathlib.Core.Option.{Option, none, some}
pub use mathlib.Core.List.{List, [], ◌∷◌, ◌++◌, map}
pub use native.Mathlib.Omega.{arith}
