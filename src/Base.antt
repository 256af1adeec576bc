-- ===== src/Base.antt =====
-- The names that the modules of this development share: those of the libraries, passed on, Boolean
-- tests on native numbers, and children for signed integers and Python's floats, with decimal fractions
-- to run examples.
pub mod Int
pub mod Float
pub mod Decimal
pub mod Arithmetic
pub mod DecimalArithmetic
mod Tests
pub use Tests.*
pub use Prim.Native.Nat.{ℕ, zero, suc, ◌+◌, ◌-◌, ◌*◌, ◌/◌, ◌%◌, ◌≤◌, ◌<◌}
pub use mathlib.Core.Path.{◌≡◌, refl, sym, ap, ◌∙◌}
pub use mathlib.Core.Logic.{◌≢◌, ◌↔◌, ◌⊎◌, inl, inr}
pub use mathlib.Core.Bool.{Bool, true, false, not, ◌&&◌, ◌||◌}
pub use mathlib.Core.Option.{Option, none, some}
pub use mathlib.Core.List.{List, [], ◌∷◌, ◌++◌, map}
pub use native.Mathlib.Omega.{arith}
