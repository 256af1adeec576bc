-- ===== src/Base/DecimalArithmetic.antt =====
-- Arithmetic of decimal fractions, to run examples with. The functions of `math` are replaced by simple
-- ones: nothing that is proved depends on them.
use Prim.Native.Nat.{ℕ, zero, suc, ◌+◌, ◌*◌, ◌/◌}
use hanium_smart_parkin.Base.Int.{pos, pos_part, neg_part, sub_ℕ}
use hanium_smart_parkin.Base.Decimal.{Decimal, decimal, not_finite, decimal_float}
use hanium_smart_parkin.Base.Arithmetic.{Arithmetic}

abbrev pub num : ℕ → Decimal
num n = decimal (pos (n * 10000))

abbrev neg_decimal : Decimal → Decimal
neg_decimal (decimal z) = decimal (sub_ℕ (neg_part z) (pos_part z))
neg_decimal not_finite = not_finite

abbrev abs_decimal : Decimal → Decimal
abs_decimal (decimal z) = decimal (pos (pos_part z + neg_part z))
abs_decimal not_finite = not_finite

abbrev sub_decimal : Decimal → Decimal → Decimal
sub_decimal x y = decimal_float.add x (neg_decimal y)

-- Products and quotients keep four digits and lose the sign of a quotient.
abbrev mul_decimal : Decimal → Decimal → Decimal
mul_decimal (decimal x) (decimal y) = decimal (
    sub_ℕ ((pos_part x * pos_part y + neg_part x * neg_part y) / 10000)
      ((pos_part x * neg_part y + neg_part x * pos_part y) / 10000))
mul_decimal x y = not_finite

abbrev div_decimal : Decimal → Decimal → Decimal
div_decimal (decimal x) (decimal y) =
    decimal (sub_ℕ ((pos_part x * 10000) / pos_part y) ((neg_part x * 10000) / pos_part y))
div_decimal x y = not_finite

abbrev power_ten : ℕ → ℕ
power_ten zero = 1
power_ten (suc k) = 10 * power_ten k

abbrev literal_decimal : ℕ → ℕ → Decimal
literal_decimal n k = decimal (pos (n * 10000 / power_ten k))

instance abbrev pub decimal_arithmetic : Arithmetic Decimal
decimal_arithmetic = record {
  neg = neg_decimal;
  abs = abs_decimal;
  sub = sub_decimal;
  mul = mul_decimal;
  div = div_decimal;
  rem = λ x y. x;
  round1 = λ x. x;
  round3 = λ x. x;
  square = λ x. mul_decimal x x;
  root = λ x. x;
  hypot = λ x y. decimal_float.add (abs_decimal x) (abs_decimal y);
  atan2 = λ y x. y;
  degrees = λ x. x;
  radians = λ x. x;
  literal = literal_decimal;
}
