-- ===== src/Prelude.antt =====
-- Shared by every module: the library names in use, Boolean tests, native-number lists, maps keyed
-- by 32-bit identifiers, and the result of code that takes a mutex.
pub mod Tests
pub mod Lists
pub mod Updates
pub mod Dict
pub mod Names
pub mod Members
pub mod Bytes
pub mod Outcome
pub use Prim.Native.Nat.{ℕ, zero, suc, ◌+◌, ◌-◌, ◌*◌, ◌/◌, ◌%◌, ◌^◌, ◌≤◌, ◌<◌, min, max}
pub use mathlib.Core.Path.{◌≡◌, refl, sym, ap, ◌∙◌, subst}
pub use mathlib.Core.Logic.{◌≢◌, ◌↔◌, ◌⊎◌, inl, inr}
pub use mathlib.Core.Bool.{Bool, true, false, not, ◌&&◌, ◌||◌}
pub use mathlib.Core.Option.{Option, none, some}
pub use mathlib.Core.List.{List, [], ◌∷◌, ◌++◌, map}
pub use native.Mathlib.Omega.{arith}
