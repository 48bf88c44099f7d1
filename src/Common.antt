-- ===== src/Common.antt =====
-- The names that the other modules share: library names passed on, Boolean tests, lists over the
-- native numbers, equality tests, dictionaries, sets of strings,
-- and texts as C functions read them.
mod Tests
mod Lists
mod Equality
pub mod Dict
pub mod StringSet
pub mod Multimap
pub mod Text
pub mod CString
pub mod Decimal
pub mod Every
pub use Tests.*
pub use Lists.*
pub use Equality.*
pub use Prim.Native.Nat.{
  ℕ, zero, suc, ◌+◌, ◌-◌, ◌*◌, ◌/◌, ◌%◌, ◌^◌, ◌≤◌, ◌<◌, min, max, bit_and, bit_or,
}
pub use mathlib.Core.Path.{◌≡◌, refl, sym, ap, subst, ◌∙◌}
pub use mathlib.Core.Logic.{◌≢◌, ◌↔◌, ◌⊎◌, inl, inr}
pub use mathlib.Core.Bool.{Bool, true, false, not, ◌&&◌, ◌||◌}
pub use mathlib.Core.Option.{Option, none, some}
pub use mathlib.Core.List.{List, [], ◌∷◌, ◌++◌, map, append-nil, append_assoc}
pub use native.Mathlib.Omega.{arith}
