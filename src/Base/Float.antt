-- ===== src/Base/Float.antt =====
-- Python's float as the program uses it: an interface, since the language of this library has no
-- floating-point numbers. The comparisons are those of IEEE 754 (false at a NaN), and the laws are
-- among those that hold of every float, infinities and NaN included.
use Prim.Native.Nat.{ℕ}
use mathlib.Core.Path.{◌≡◌}
use mathlib.Core.Bool.{Bool, true, false, ◌||◌}
use mathlib.Core.Logic.{◌⊎◌, inl, inr}
use native.Mathlib.Omega.{arith}
use hanium_smart_parkin.Base.Tests.{if◌then◌else◌, Bool-cases}

pub record Float (F : Type 0) : Type 0 where
  -- `0.0`, `1.0` and `-1.0`
  pub nought : F
  pub one : F
  pub neg_one : F
  -- `x < y`, `x == y`, `math.isfinite(x)`
  pub lt : F → F → Bool
  pub eq : F → F → Bool
  pub is_finite : F → Bool
  -- `x == n` for an int n
  pub eq_int : F → ℕ → Bool
  -- `x + y`, `round(x, 4)`
  pub add : F → F → F
  pub round4 : F → F
  pub lt_irrefl : (x : F) → lt x x ≡ false
  pub lt_asymm : (x y : F) → lt x y ≡ true → lt y x ≡ false
  pub not_lt_of_eq : (x y : F) → eq x y ≡ true → lt x y ≡ false
  pub eq_symm : (x y : F) → eq x y ≡ true → eq y x ≡ true
  -- Numbers, which alone equal themselves, are totally ordered.
  pub eq_of_not_lt :
      (x y : F) → eq x x ≡ true → eq y y ≡ true → lt x y ≡ false → lt y x ≡ false → eq x y ≡ true
  pub finite_eq : (x : F) → is_finite x ≡ true → eq x x ≡ true
  pub round4_eq : (x : F) → eq x x ≡ true → eq (round4 x) (round4 x) ≡ true
  pub neg_one-lt-nought : lt neg_one nought ≡ true
  pub nought-lt-one : lt nought one ≡ true
  pub neg_one-lt-one : lt neg_one one ≡ true
  pub nought-eq : eq nought nought ≡ true
  pub nought-finite : is_finite nought ≡ true
  pub one-finite : is_finite one ≡ true
  pub neg_one-finite : is_finite neg_one ≡ true
  pub round4_mono : (x y : F) → lt y x ≡ false → lt (round4 y) (round4 x) ≡ false
  pub round4-one : round4 one ≡ one
  pub round4-neg_one : round4 neg_one ≡ neg_one
  pub round4-nought : round4 nought ≡ nought

module _ {F : Type 0} ⦃fl : Float F⦄ where
  -- `min(a, b)` and `max(a, b)` keep their first argument unless the second one is beyond it.
  abbrev pub min_f : F → F → F
  min_f a b = if fl.lt b a then b else a

  abbrev pub max_f : F → F → F
  max_f a b = if fl.lt a b then b else a

  -- `x <= y`
  abbrev pub le : F → F → Bool
  le x y = fl.lt x y || fl.eq x y

  -- `x == 0.0`
  abbrev pub is_nought : F → Bool
  is_nought x = fl.eq x fl.nought

  -- `lo <= x <= hi`, which no NaN meets
  abbrev pub IsWithin : F → F → F → Type 0
  IsWithin lo hi x = (le lo x ≡ true) × (le x hi ≡ true)

  pub le_of_not_lt :
      (x y : F) → fl.eq x x ≡ true → fl.eq y y ≡ true → fl.lt y x ≡ false → le x y ≡ true
  le_of_not_lt x y ex ey h = elim (Bool-cases (fl.lt x y)) [
    | inl e ↦ ground (arith, e)
    | inr e ↦ ground (arith, e, fl.eq_of_not_lt x y ex ey e h)
  ]

  pub IsWithin-of_not_beyond :
      (lo hi x : F)
      → fl.eq lo lo ≡ true
      → fl.eq hi hi ≡ true
      → fl.eq x x ≡ true
      → fl.lt x lo ≡ false
      → fl.lt hi x ≡ false
      → IsWithin lo hi x
  IsWithin-of_not_beyond lo hi x el eh ex a b =
      (le_of_not_lt lo x el ex a, le_of_not_lt x hi ex eh b)

  -- Within the bounds, or NaN.
  abbrev pub IsWithinOrNan : F → F → F → Type 0
  IsWithinOrNan lo hi x = (fl.eq x x ≡ false) ⊎ IsWithin lo hi x

  pub within_or_nan :
      (lo hi x : F)
      → fl.eq lo lo ≡ true
      → fl.eq hi hi ≡ true
      → fl.lt x lo ≡ false
      → fl.lt hi x ≡ false
      → IsWithinOrNan lo hi x
  within_or_nan lo hi x el eh a b = elim (Bool-cases (fl.eq x x)) [
    | inl e ↦ inr (IsWithin-of_not_beyond lo hi x el eh e a b)
    | inr e ↦ inl e
  ]

  -- Neither below -1.0 nor above 1.0. A NaN is neither.
  abbrev pub IsUnit : F → Type 0
  IsUnit x = (fl.lt x fl.neg_one ≡ false) × (fl.lt fl.one x ≡ false)

  pub clamp-IsUnit : (x : F) → IsUnit (max_f fl.neg_one (min_f fl.one x))
  clamp-IsUnit x = ground (
    arith,
    fl.lt_irrefl fl.one,
    fl.lt_irrefl fl.neg_one,
    fl.lt_asymm fl.neg_one fl.one fl.neg_one-lt-one,
    fl.lt_asymm x fl.one,
    fl.lt_asymm fl.neg_one x,
  )

  pub round4-IsUnit : (x : F) → IsUnit x → IsUnit (fl.round4 x)
  round4-IsUnit x h = ground (
    arith,
    fl.round4_mono fl.neg_one x,
    fl.round4_mono x fl.one,
    fl.round4-one,
    fl.round4-neg_one,
  )

pub nought-IsUnit : (F : Type 0) ⦃fl : Float F⦄ → IsUnit fl.nought
nought-IsUnit F ⦃fl⦄ = (fl.lt_asymm _ _ fl.neg_one-lt-nought, fl.lt_asymm _ _ fl.nought-lt-one)
