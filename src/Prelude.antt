-- ===== src/Prelude.antt =====
-- The names that the modules of this library share: the libraries', passed on, Boolean tests on
-- numbers, lists over the native numbers, and the interface for keys that Python compares by `==`.
mod Tests
mod Lists
mod Uniques
mod Keys
mod Results
pub mod Int
pub use Tests.*
pub use Lists.*
pub use Uniques.*
pub use Keys.*
pub use Results.*
pub use Prim.Native.Nat.{ℕ, zero, suc, ◌+◌, ◌-◌, ◌*◌, ◌/◌, ◌%◌, ◌^◌, ◌≤◌, ◌<◌}
pub use Prim.Native.String.{String}
pub use mathlib.Core.Path.{◌≡◌, refl, sym, ap, subst, ◌∙◌}
pub use mathlib.Core.Logic.{◌≢◌, ◌↔◌, ◌⊎◌, inl, inr}
pub use mathlib.Core.Bool.{Bool, true, false, ◌&&◌, ◌||◌, not}
pub use mathlib.Core.Option.{Option, none, some}
pub use mathlib.Core.List.{List, [], ◌∷◌, ◌++◌, map}
pub use native.Mathlib.Omega.{arith}
