-- ===== src/Base.antt =====
-- The names that every module shares: the libraries', passed on, and those of three children.
pub mod Tests
pub mod Lists
pub mod Methods
pub mod Ranges
pub mod Modulo
pub mod Map
pub mod Results
pub mod Sparing
pub use Tests.*
pub use Lists.*
pub use Methods.*
pub use Ranges.*
pub use Modulo.*
pub use Map.*
pub use Prim.Native.Nat.{ℕ, zero, suc, ◌+◌, ◌-◌, ◌*◌, ◌/◌, ◌%◌, ◌^◌, ◌≤◌, ◌<◌}
pub use mathlib.Core.Path.{◌≡◌, refl, sym, ap, ◌∙◌, subst}
pub use mathlib.Core.Logic.{◌≢◌, ◌↔◌, ◌⊎◌, inl, inr}
pub use mathlib.Core.Bool.{Bool, true, false, not, ◌&&◌, ◌||◌}
pub use mathlib.Core.Option.{Option, none, some}
pub use mathlib.Core.List.{List, [], ◌∷◌, ◌++◌, map, reverse}
pub use native.Mathlib.Omega.{arith}
