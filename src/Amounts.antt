-- ===== src/Amounts.antt =====
-- Fixed-point decimal amounts (backend/src/lib/decimal-amounts.ts): canonical amount strings, their
-- value in units of 1e-7, and exact arithmetic on them.
pub mod Digits
pub mod RoundTrip
pub mod Arithmetic
pub mod Rounding
pub mod ProRata
use split_naira.Prelude.{
  ℕ, zero, suc, ◌+◌, ◌-◌, ◌*◌, ◌/◌, ◌%◌, ◌^◌, Text, codes, Bool, true, false, ◌&&◌, ◌||◌, List, [],
  ◌∷◌, ◌++◌, Option, none, some, ltb, leb, ◌==◌, if◌then◌else◌, length, take, replicate, is_empty,
  Result, ok, err, ◌>>=◌, ◌>>◌, guard,
}
use split_naira.Prelude.Int.{ℤ, pos, negsuc, is_positive, is_negative}

abbrev pub amount_decimals : ℕ
amount_decimals = 7

abbrev pub amount_scale : ℕ
amount_scale = 10 ^ 7

abbrev pub max_amount_value : ℕ
max_amount_value = 170141183460469231731687303715884105727

abbrev pub max_amount_units : ℕ
max_amount_units = max_amount_value * amount_scale

-- `AmountError`, by its message.
pub data AmountError : Type 0 where
  invalid_amount exceeds_maximum negative_units units_exceed_maximum : AmountError
  addition_overflow subtraction_underflow multiplication_overflow sum_overflow : AmountError
  denominator_not_positive numerator_negative : AmountError
  zero_shares zero_weight invalid_weight : AmountError

unfoldable pub is_digit : ℕ → Bool
is_digit c = leb b'0' c && leb c b'9'

unfoldable pub all_digits : Text → Bool
unfolding is_digit
all_digits [] = true
all_digits (c ∷ s) = is_digit c && all_digits s

-- `value.split(".")`: what stands before the first point, and what stands after it.
unfoldable pub split_point : Text → Text × Option Text
split_point [] = ([], none)
split_point (c ∷ s) =
    let (whole, fraction) = split_point s in
    if c == b'.' then ([], some s) else (c ∷ whole, fraction)

-- `0|[1-9][0-9]{0,38}`.
unfoldable pub is_whole_part : Text → Bool
unfolding all_digits
is_whole_part [] = false
is_whole_part (c ∷ s) =
    (c == b'0' && is_empty s) || (leb b'1' c && leb c b'9' && all_digits s && leb (length s) 38)

-- `(\.[0-9]{1,7})?`.
unfoldable pub is_fraction_part : Option Text → Bool
unfolding all_digits
is_fraction_part none = true
is_fraction_part (some s) = leb 1 (length s) && leb (length s) 7 && all_digits s

-- `AMOUNT_PATTERN.test(value)`.
unfoldable pub amount_pattern : Text → Bool
unfolding split_point is_whole_part is_fraction_part
amount_pattern value =
    let (whole, fraction) = split_point value in is_whole_part whole && is_fraction_part fraction

-- `BigInt` of a text of digits.
unfoldable pub value_from : ℕ → Text → ℕ
value_from acc [] = acc
value_from acc (c ∷ s) = value_from (acc * 10 + (c - b'0')) s

abbrev pub fraction_text : Option Text → Text
fraction_text none = []
fraction_text (some s) = s

-- `(fraction + "0".repeat(7)).slice(0, 7)`.
abbrev pub pad_fraction : Text → Text
pad_fraction fraction = take 7 (fraction ++ replicate 7 b'0')

unfoldable pub to_units_unchecked : Text → ℕ
unfolding split_point value_from
to_units_unchecked value =
    let (whole, fraction) = split_point value in
    value_from 0 whole * amount_scale + value_from 0 (pad_fraction (fraction_text fraction))

unfoldable pub is_valid_amount_string : Text → Bool
unfolding amount_pattern to_units_unchecked
is_valid_amount_string value =
    amount_pattern value && leb (to_units_unchecked value) max_amount_units

unfoldable pub to_units : Text → Result AmountError ℕ
unfolding amount_pattern to_units_unchecked
to_units value = do
  guard (amount_pattern value) invalid_amount
  guard (leb (to_units_unchecked value) max_amount_units) exceeds_maximum
  ok (to_units_unchecked value)

-- `n.toString()`, from the last digit on; one round of fuel for a digit.
unfoldable pub emit : ℕ → ℕ → Text → Text
emit zero n out = out
emit (suc fuel) n out =
    let rest = emit fuel (n / 10) ((b'0' + n % 10) ∷ out) in
    if ltb n 10 then (b'0' + n) ∷ out else rest

unfoldable pub to_decimal : ℕ → Text
unfolding emit
to_decimal n = emit (suc n) n []

-- `.padStart(7, "0")`.
unfoldable pub pad_start : Text → Text
pad_start s = replicate (7 - length s) b'0' ++ s

-- `.replace(/0+$/, "")`.
unfoldable pub strip_zeros : Text → Text
strip_zeros [] = []
strip_zeros (c ∷ s) =
    let rest = strip_zeros s in if c == b'0' && is_empty rest then [] else c ∷ rest

unfoldable pub render : ℕ → Text
unfolding to_decimal pad_start strip_zeros
render units =
    if units % amount_scale == 0
    then to_decimal (units / amount_scale)
    else to_decimal (units / amount_scale)
      ++ (b'.' ∷ strip_zeros (pad_start (to_decimal (units % amount_scale))))

unfoldable pub from_units : ℤ → Result AmountError Text
unfolding render
from_units (negsuc n) = err negative_units
from_units (pos units) =
    if ltb max_amount_units units then err units_exceed_maximum else ok (render units)

unfoldable pub normalize_amount_string : Text → Result AmountError Text
unfolding to_units from_units
normalize_amount_string value = do units ← to_units value; from_units (pos units)

unfoldable pub add_amounts : Text → Text → Result AmountError Text
unfolding to_units from_units
add_amounts a b = do
  x ← to_units a
  y ← to_units b
  guard (leb (x + y) max_amount_units) addition_overflow
  from_units (pos (x + y))

-- `difference < 0n` over the integers is `x < y`; the difference is taken where it is exact.
unfoldable pub subtract_amounts : Text → Text → Result AmountError Text
unfolding to_units from_units
subtract_amounts a b = do
  x ← to_units a
  y ← to_units b
  guard (leb y x) subtraction_underflow
  from_units (pos (x - y))

-- The results -1, 0 and 1.
pub data Comparison : Type 0 where
  less equal greater : Comparison

unfoldable pub compare_amounts : Text → Text → Result AmountError Comparison
unfolding to_units
compare_amounts a b = do
  x ← to_units a
  y ← to_units b
  ok (if ltb x y then less else if ltb y x then greater else equal)

unfoldable pub is_zero_amount : Text → Result AmountError Bool
unfolding to_units
is_zero_amount value = do units ← to_units value; ok (units == 0)

pub data RoundingMode : Type 0 where
  floor ceil half_up : RoundingMode

-- The quotient, and one more where the mode rounds up.
unfoldable pub round_quotient : ℕ → ℕ → RoundingMode → ℕ
round_quotient scaled denominator floor = scaled / denominator
round_quotient scaled denominator ceil =
    if ltb 0 (scaled % denominator) then scaled / denominator + 1 else scaled / denominator
round_quotient scaled denominator half_up =
    if leb denominator (scaled % denominator * 2)
    then scaled / denominator + 1
    else scaled / denominator

abbrev pub magnitude : ℤ → ℕ
magnitude (pos n) = n
magnitude (negsuc n) = 0

-- Past the checks both integers are natural numbers.
unfoldable pub multiply_amount_by_ratio : Text → ℤ → ℤ → RoundingMode → Result AmountError Text
unfolding to_units from_units round_quotient
multiply_amount_by_ratio value numerator denominator rounding = do
  guard (is_positive denominator) denominator_not_positive
  guard (if is_negative numerator then false else true) numerator_negative
  units ← to_units value
  let rounded = round_quotient (units * magnitude numerator) (magnitude denominator) rounding
  guard (leb rounded max_amount_units) multiplication_overflow
  from_units (pos rounded)

-- The loop of `sumAmounts`.
unfoldable pub sum_from : ℕ → List Text → Result AmountError ℕ
unfolding to_units
sum_from units [] = ok units
sum_from units (value ∷ values) = do
  x ← to_units value
  guard (leb (units + x) max_amount_units) sum_overflow
  sum_from (units + x) values

unfoldable pub sum_amounts : List Text → Result AmountError Text
unfolding sum_from from_units
sum_amounts values = do units ← sum_from 0 values; from_units (pos units)
