-- ===== src/Prelude.antt =====
-- The names that every module shares: the libraries', passed on, Boolean tests on the native
-- numbers, lists indexed by them, C's fixed-width words, tests of all numbers below a bound, and
-- signed integers.
mod Tests
mod Lists
mod Words
mod Bytes
pub mod Int
pub use Tests.*
pub use Lists.*
pub use Words.*
unfoldable pub use Bytes.*
pub use Prim.Native.Nat.{
  ℕ, zero, suc, ◌+◌, ◌-◌, ◌*◌, ◌/◌, ◌%◌, ◌^◌, ◌≤◌, ◌<◌, min, max, bit_and, bit_or,
}
pub use mathlib.Core.Path.{◌≡◌, refl, sym, ap, ◌∙◌, fun_ext, subst}
pub use mathlib.Core.Logic.{◌≢◌, ◌↔◌, ◌⊎◌, inl, inr}
pub use mathlib.Core.Bool.{Bool, true, false, not, ◌&&◌, ◌||◌}
pub use mathlib.Core.Option.{Option, none, some}
pub use mathlib.Core.List.{List, [], ◌∷◌, ◌++◌, map}
pub use native.Mathlib.Omega.{arith}
