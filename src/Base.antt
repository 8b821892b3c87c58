-- ===== src/Base.antt =====
-- The names that the other modules share: the libraries', passed on, and those of the children.
mod Tests
mod Eq
mod Lists
mod Assoc
mod Unordered
mod Text
mod Decimal
pub use Tests.*
pub use Eq.*
pub use Lists.*
pub use Assoc.*
pub use Unordered.*
pub use Text.*
unfoldable pub use Decimal.{itoa, show_int, atoi}
pub use Decimal.{atoi-itoa, itoa-digits, max_int}
unfoldable pub use Eq.{str_beq, contains}
unfoldable pub use Lists.{keep}
unfoldable pub use Assoc.{get, put, remove}
unfoldable pub use Text.{has_prefix, index_byte, str_lt, trim_prefix}
pub use Prim.Native.Nat.{ℕ, zero, suc, ◌+◌, ◌-◌, ◌*◌, ◌/◌, ◌%◌, ◌^◌, ◌≤◌, ◌<◌}
pub use mathlib.Core.Path.{◌≡◌, refl, sym, ap, ◌∙◌}
pub use mathlib.Core.Logic.{◌≢◌, ◌↔◌, ◌⊎◌, inl, inr}
pub use mathlib.Core.Bool.{Bool, true, false, not, ◌&&◌, ◌||◌}
pub use mathlib.Core.Option.{Option, none, some}
pub use mathlib.Core.List.{List, [], ◌∷◌, ◌++◌, map, reverse}
pub use native.Mathlib.Omega.{arith}
