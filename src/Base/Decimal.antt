-- ===== src/Base/Decimal.antt =====
-- A float interface that can be run: decimal fractions of four digits, and one value that is not
-- finite. It shows that the laws of `Float` can be met, and it is what the tests compute with.
use Prim.Native.Nat.{ℕ, ◌+◌, ◌*◌}
use mathlib.Core.Path.{◌≡◌, refl}
use mathlib.Core.Bool.{Bool, true, false}
use native.Mathlib.Omega.{arith}
use hanium_smart_parkin.Base.Tests.{ltb, ◌==◌}
use hanium_smart_parkin.Base.Int.{ℤ, pos, negsuc, pos_part, neg_part, sub_ℕ}
use hanium_smart_parkin.Base.Float.{Float}

-- `decimal z` is z ten-thousandths.
pub data Decimal : Type 0 where
  decimal : ℤ → Decimal
  not_finite : Decimal

abbrev pub ltb_decimal : Decimal → Decimal → Bool
ltb_decimal (decimal a) (decimal b) = ltb (pos_part a + neg_part b) (pos_part b + neg_part a)
ltb_decimal (decimal a) not_finite = false
ltb_decimal not_finite y = false

abbrev pub eqb_decimal : Decimal → Decimal → Bool
eqb_decimal (decimal a) (decimal b) = (pos_part a + neg_part b) == (pos_part b + neg_part a)
eqb_decimal (decimal a) not_finite = false
eqb_decimal not_finite y = false

abbrev pub finite_decimal : Decimal → Bool
finite_decimal (decimal _) = true
finite_decimal not_finite = false

abbrev pub decimal_eq_int : Decimal → ℕ → Bool
decimal_eq_int x n = eqb_decimal x (decimal (pos (n * 10000)))

abbrev pub add_decimal : Decimal → Decimal → Decimal
add_decimal (decimal a) (decimal b) =
    decimal (sub_ℕ (pos_part a + pos_part b) (neg_part a + neg_part b))
add_decimal (decimal a) not_finite = not_finite
add_decimal not_finite y = not_finite

pub ltb_irrefl : (x : Decimal) → ltb_decimal x x ≡ false
ltb_irrefl (decimal a) = ground arith
ltb_irrefl not_finite = refl

pub ltb_asymm : (x y : Decimal) → ltb_decimal x y ≡ true → ltb_decimal y x ≡ false
ltb_asymm (decimal a) (decimal b) h = ground arith
ltb_asymm (decimal a) not_finite h = refl
ltb_asymm not_finite (decimal a) h = refl
ltb_asymm not_finite not_finite h = refl

pub ltb_of_eqb : (x y : Decimal) → eqb_decimal x y ≡ true → ltb_decimal x y ≡ false
ltb_of_eqb (decimal a) (decimal b) h = ground arith
ltb_of_eqb (decimal a) not_finite h = refl
ltb_of_eqb not_finite y h = refl

pub eqb_symm : (x y : Decimal) → eqb_decimal x y ≡ true → eqb_decimal y x ≡ true
eqb_symm (decimal a) (decimal b) h = ground arith
eqb_symm (decimal a) not_finite h = cc
eqb_symm not_finite y h = cc

pub eqb_of_not_ltb :
    (x y : Decimal)
    → eqb_decimal x x ≡ true
    → eqb_decimal y y ≡ true
    → ltb_decimal x y ≡ false
    → ltb_decimal y x ≡ false
    → eqb_decimal x y ≡ true
eqb_of_not_ltb (decimal a) (decimal b) ex ey h k = ground arith
eqb_of_not_ltb (decimal a) not_finite ex ey h k = cc
eqb_of_not_ltb not_finite y ex ey h k = cc

pub eqb_of_finite : (x : Decimal) → finite_decimal x ≡ true → eqb_decimal x x ≡ true
eqb_of_finite (decimal a) h = ground arith
eqb_of_finite not_finite h = cc

instance abbrev pub decimal_float : Float Decimal
decimal_float = record {
  nought = decimal (pos 0);
  one = decimal (pos 10000);
  neg_one = decimal (negsuc 9999);
  lt = ltb_decimal;
  eq = eqb_decimal;
  is_finite = finite_decimal;
  eq_int = decimal_eq_int;
  add = add_decimal;
  round4 = λ x. x;
  lt_irrefl = ltb_irrefl;
  lt_asymm = ltb_asymm;
  not_lt_of_eq = ltb_of_eqb;
  eq_symm = eqb_symm;
  eq_of_not_lt = eqb_of_not_ltb;
  finite_eq = eqb_of_finite;
  round4_eq = λ x h. h;
  neg_one-lt-nought = refl;
  nought-lt-one = refl;
  neg_one-lt-one = refl;
  nought-eq = refl;
  nought-finite = refl;
  one-finite = refl;
  neg_one-finite = refl;
  round4_mono = λ x y h. h;
  round4-one = refl;
  round4-neg_one = refl;
  round4-nought = refl;
}
