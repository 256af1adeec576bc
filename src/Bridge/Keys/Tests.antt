-- ===== src/Bridge/Keys/Tests.antt =====
-- wasd_logic.py over decimal fractions. Four digits are kept where the code rounds to three.
use hanium_smart_parkin.Base.{◌≡◌, refl, true, false, arith}
use hanium_smart_parkin.Base.Int.{pos, negsuc, pos_part, neg_part, sub_ℕ}
use hanium_smart_parkin.Base.Float.{IsUnit}
use hanium_smart_parkin.Base.Decimal.{
  Decimal, decimal, not_finite, ltb_decimal, eqb_decimal, add_decimal, decimal_float,
}
use hanium_smart_parkin.Bridge.Keys.{Keys, left, Steps, steering_direction, ramp, advance_steering}
use hanium_smart_parkin.Bridge.Keys.Ramp.{Points, advance_steering-Points}

abbrev negate_decimal : Decimal → Decimal
negate_decimal (decimal z) = decimal (sub_ℕ (neg_part z) (pos_part z))
negate_decimal not_finite = not_finite

abbrev zero_decimal : Decimal
zero_decimal = decimal (pos 0)

negate_lt :
    (x : Decimal)
    → ltb_decimal zero_decimal x ≡ true
    → ltb_decimal (negate_decimal x) zero_decimal ≡ true
negate_lt (decimal z) h = ground arith
negate_lt not_finite h = ground arith

ltb_trans :
    (x y z : Decimal) → ltb_decimal x y ≡ true → ltb_decimal y z ≡ true → ltb_decimal x z ≡ true
ltb_trans (decimal x) (decimal y) (decimal z) h k = ground arith
ltb_trans (decimal x) (decimal y) not_finite h k = ground arith
ltb_trans (decimal x) not_finite z h k = ground arith
ltb_trans not_finite y z h k = ground arith

ltb_number : (x y : Decimal) → ltb_decimal x y ≡ true → eqb_decimal x x ≡ true
ltb_number (decimal x) (decimal y) h = ground arith
ltb_number (decimal x) not_finite h = ground arith
ltb_number not_finite y h = ground arith

gtb_number : (x y : Decimal) → ltb_decimal x y ≡ true → eqb_decimal y y ≡ true
gtb_number (decimal x) (decimal y) h = ground arith
gtb_number (decimal x) not_finite h = ground arith
gtb_number not_finite y h = ground arith

add_lt :
    (x y : Decimal)
    → eqb_decimal x x ≡ true
    → ltb_decimal x zero_decimal ≡ false
    → ltb_decimal zero_decimal y ≡ true
    → ltb_decimal zero_decimal (add_decimal x y) ≡ true
add_lt (decimal x) (decimal y) e h k = ground arith
add_lt (decimal x) not_finite e h k = ground arith
add_lt not_finite y e h k = ground arith

lt_add :
    (x y : Decimal)
    → eqb_decimal x x ≡ true
    → ltb_decimal zero_decimal x ≡ false
    → ltb_decimal y zero_decimal ≡ true
    → ltb_decimal (add_decimal x y) zero_decimal ≡ true
lt_add (decimal x) (decimal y) e h k = ground arith
lt_add (decimal x) not_finite e h k = ground arith
lt_add not_finite y e h k = ground arith

instance abbrev decimal_steps : Steps Decimal
decimal_steps = record {
  ramp_step = decimal (pos 1000);
  ramp_fast_step = decimal (pos 2000);
  half = decimal (pos 5000);
  negate = negate_decimal;
  round3 = λ x. x;
  ramp_step-pos = refl;
  ramp_fast_step-pos = refl;
  negate-neg = negate_lt;
  lt_trans = ltb_trans;
  lt-number = ltb_number;
  gt-number = gtb_number;
  add-pos = add_lt;
  add-neg = lt_add;
  round3_mono = λ x y h. h;
  round3-one = refl;
  round3-neg_one = refl;
  round3-nought = refl;
}

abbrev turning_left : Keys
turning_left = record { w = true; s = false; a = true; d = false; shift = false }

crosses_center : advance_steering (decimal (pos 7000)) turning_left ≡ decimal (negsuc 999)
unfolding advance_steering ramp steering_direction
crosses_center = refl

advance_steering-Points_example :
    IsUnit (advance_steering (decimal (pos 7000)) turning_left)
    × Points left (advance_steering (decimal (pos 7000)) turning_left)
unfolding steering_direction
advance_steering-Points_example = advance_steering-Points (decimal (pos 7000)) turning_left
