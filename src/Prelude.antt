-- ===== src/Prelude.antt =====
-- The names that the other modules share: the libraries', passed on, and those of the children.
pub mod Tests
pub mod Lists
pub mod Int
pub mod Bytes
pub mod Dict
pub mod Decimal
pub use Tests.*
pub use Lists.{
  length, get_elem?, get_or, length-append, All, All-at, All-append, All-select, All-mono,
  count_if-append, count_if-append_one, count_if-length,
}
pub use Lists.{Pairs, Pairs-append_one, Pairs-select}
unfoldable pub use Lists.{select, count_if}
pub use Int.{ℤ, pos, negsuc}
pub use Bytes.{Text, bytes, text_eq_iff, text_eq_refl}
unfoldable pub use Bytes.{text_eq}
pub use Prim.Native.Nat.{ℕ, zero, suc, ◌+◌, ◌-◌, ◌*◌, ◌/◌, ◌%◌, ◌^◌, ◌≤◌, ◌<◌}
pub use mathlib.Core.Path.{◌≡◌, refl, sym, ap, ◌∙◌}
pub use mathlib.Core.Logic.{◌≢◌, ◌↔◌, ◌⊎◌, inl, inr}
pub use mathlib.Core.Bool.{Bool, true, false, not, ◌&&◌, ◌||◌}
pub use mathlib.Core.Option.{Option, none, some}
pub use mathlib.Core.List.{List, [], ◌∷◌, ◌++◌, map}
pub use native.Mathlib.Omega.{arith}
