-- ===== src/Base/Arithmetic.antt =====
-- Python's float arithmetic and the functions of `math` that the host controller calls. No law of
-- them is needed: what is proved of the controller rests on its tests alone.
use Prim.Native.Nat.{ℕ}

pub record Arithmetic (F : Type 0) : Type 0 where
  -- `-x`, `abs(x)`, `x - y`, `x * y`, `x / y`, `x % y`
  pub neg : F → F
  pub abs : F → F
  pub sub : F → F → F
  pub mul : F → F → F
  pub div : F → F → F
  pub rem : F → F → F
  -- `round(x, 1)`, `round(x, 3)`
  pub round1 : F → F
  pub round3 : F → F
  -- `x ** 2`, `x ** 0.5`
  pub square : F → F
  pub root : F → F
  -- `math.hypot`, `math.atan2`, `math.degrees`, `math.radians`
  pub hypot : F → F → F
  pub atan2 : F → F → F
  pub degrees : F → F
  pub radians : F → F
  -- The literal n · 10⁻ᵏ.
  pub literal : ℕ → ℕ → F
