-- ===== src/Prelude.antt =====
-- The names that every module shares: the libraries' passed on, tests on numbers, lists measured
-- by native numbers, checked reads of memory and the bit fields of bytes.
mod Tests
mod Lists
mod Memory
mod Fields
pub mod Assoc
pub mod Int
pub mod Double
pub mod Xor
pub use Tests.*
pub use Lists.*
pub use Memory.*
pub use Fields.*
pub use Prim.Native.Nat.{ℕ, zero, suc, ◌+◌, ◌-◌, ◌*◌, ◌/◌, ◌%◌, ◌^◌, ◌≤◌, ◌<◌, min, max}
pub use mathlib.Core.Path.{◌≡◌, refl, sym, ap, ap₂, ◌∙◌, subst}
pub use mathlib.Core.Logic.{◌≢◌, ◌↔◌, ◌⊎◌, inl, inr}
pub use mathlib.Core.Bool.{Bool, true, false, not, ◌&&◌, ◌||◌}
pub use mathlib.Core.Option.{Option, none, some}
pub use mathlib.Core.List.{List, [], ◌∷◌, ◌++◌, map}
pub use native.Mathlib.Omega.{arith}
