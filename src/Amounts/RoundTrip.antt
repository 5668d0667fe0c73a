-- ===== src/Amounts/RoundTrip.antt =====
-- Printing an amount in range and reading it again.
mod Padding
use split_naira.Prelude.{
  ℕ, zero, suc, ◌+◌, ◌-◌, ◌*◌, ◌/◌, ◌%◌, ◌^◌, ◌≤◌, ◌<◌, ◌≡◌, ◌≢◌, refl, sym, ap, ◌∙◌, Text, Bool,
  true, false, List, [], ◌∷◌, ◌++◌, arith, length, take, replicate, is_empty, ltb, leb, ◌==◌,
  le→leb, ==_iff, Bool-cases, inl, inr, Option, none, some, Result, ok, err, ◌&&◌, >>=-eq-ok, ◌>>=◌,
  ◌>>◌, guard,
}
use split_naira.Prelude.Int.{pos}
use split_naira.Amounts.{
  amount_scale, max_amount_units, max_amount_value, is_digit, all_digits, split_point,
  is_whole_part, is_fraction_part, amount_pattern, value_from, pad_fraction, to_units_unchecked,
  to_units, to_decimal, pad_start, strip_zeros, render, from_units, normalize_amount_string,
  is_valid_amount_string,
}
use split_naira.Amounts.Digits.{
  value_from-to_decimal, all_digits-to_decimal, length-to_decimal-le, is_whole_part-to_decimal,
}
use Padding.{
  split_point-digits, split_point_joined, pad_fraction-strip_zeros, is_fraction_part-strip_zeros,
  value_from-pad_start, length-pad_start, all_digits-pad_start,
}

-- The whole part of an amount in range has at most 39 digits.
whole_small : (u : ℕ) → u ≤ max_amount_units → u / amount_scale < 10 ^ 39
whole_small u h = omega arith

fraction_small : (u : ℕ) → u % amount_scale < 10 ^ 7
fraction_small u = omega arith

-- What a text whose parts are known is read as.
read_whole :
    (t w : Text)
    → split_point t ≡ (w, none)
    → is_whole_part w ≡ true
    → (amount_pattern t ≡ true) × (to_units_unchecked t ≡ value_from 0 w * amount_scale)
unfolding amount_pattern to_units_unchecked
read_whole t w e h = (rw (e, h), rw e (unfold value_from in omega arith))

read_fraction :
    (t w f padded : Text)
    → split_point t ≡ (w, some f)
    → is_whole_part w ≡ true
    → is_fraction_part (some f) ≡ true
    → pad_fraction f ≡ padded
    → (amount_pattern t ≡ true)
      × (to_units_unchecked t ≡ value_from 0 w * amount_scale + value_from 0 padded)
unfolding amount_pattern to_units_unchecked
read_fraction t w f padded e h k p = (rw (e, h, k), rw (e, p))

render_whole : (u : ℕ) → (u % amount_scale == 0) ≡ true → render u ≡ to_decimal (u / amount_scale)
unfolding render
render_whole u h = rw h

render_fraction :
    (u : ℕ)
    → (u % amount_scale == 0) ≡ false
    → render u
      ≡ to_decimal (u / amount_scale)
        ++ (b'.' ∷ strip_zeros (pad_start (to_decimal (u % amount_scale))))
unfolding render
render_fraction u h = rw h

-- The text of an amount in range has the pattern, and is read as the amount.
pub render_parts :
    (u : ℕ)
    → u ≤ max_amount_units
    → (amount_pattern (render u) ≡ true) × (to_units_unchecked (render u) ≡ u)
render_parts u h =
    let w = to_decimal (u / amount_scale) in
    let whole = is_whole_part-to_decimal (u / amount_scale) (whole_small u h) in
    let digits = all_digits-to_decimal (u / amount_scale) in
    let value = value_from-to_decimal (u / amount_scale) in
    elim (Bool-cases (u % amount_scale == 0)) [
      | inl none_left ↦
          let (fits, units) = read_whole w w (split_point-digits w digits) whole in
          rw (render_whole u none_left) (
            fits,
            omega (arith, units, ap (λ (t : ℕ). t * amount_scale) value, (==_iff _ _).0 none_left),
          )
      | inr some_left ↦
          let f = to_decimal (u % amount_scale) in
          let short = length-to_decimal-le (u % amount_scale) 6 (fraction_small u) in
          let long = length-pad_start f short in
          let fraction = value_from-pad_start f ∙ value_from-to_decimal (u % amount_scale) in
          let positive : 0 < value_from 0 (pad_start f) =
            omega (arith, fraction, positive_of (u % amount_scale) some_left) in
          let ok_fraction =
            is_fraction_part-strip_zeros (pad_start f) long
              (all_digits-pad_start f (all_digits-to_decimal (u % amount_scale))) positive in
          let (fits, units) =
            read_fraction (w ++ (b'.' ∷ strip_zeros (pad_start f))) w (strip_zeros (pad_start f))
              (pad_start f) (split_point_joined w (strip_zeros (pad_start f)) digits) whole
              ok_fraction (pad_fraction-strip_zeros (pad_start f) long) in
          rw (render_fraction u some_left)
            (fits, omega (arith, units, ap (λ (t : ℕ). t * amount_scale) value, fraction))
    ]
  where
    positive_of : (n : ℕ) → (n == 0) ≡ false → 0 < n
    positive_of n e = ground arith

to_units_of :
    (value : Text) (u : ℕ)
    → amount_pattern value ≡ true
    → to_units_unchecked value ≡ u
    → u ≤ max_amount_units
    → to_units value ≡ ok u
unfolding to_units
to_units_of value u p e h = rw (p, e, le→leb u max_amount_units h)

-- Any amount in range is printed, the text is a valid amount string, and reading it gives the
-- amount back.
pub to_units-from_units :
    (u : ℕ)
    → u ≤ max_amount_units
    → (s : Text) × (from_units (pos u) ≡ ok s)
      × (is_valid_amount_string s ≡ true)
      × (to_units s ≡ ok u)
unfolding from_units is_valid_amount_string
to_units-from_units u h =
    let (fits, units) = render_parts u h in
    (
      render u,
      ground arith,
      rw (fits, units, le→leb u max_amount_units h),
      to_units_of (render u) u fits units h,
    )

-- What is read is in range.
pub to_units-le :
    (value : Text) {u : ℕ}
    → to_units value ≡ ok u
    → (u ≤ max_amount_units) × (amount_pattern value ≡ true)
unfolding to_units
to_units-le value h = ground arith

-- A valid amount string is normalised to a valid one of the same value, and normalising that one
-- again changes nothing.
pub normalize_amount_string_idempotent :
    (value : Text) (u : ℕ)
    → to_units value ≡ ok u
    → (s : Text) × (normalize_amount_string value ≡ ok s)
      × (to_units s ≡ ok u)
      × (normalize_amount_string s ≡ ok s)
unfolding normalize_amount_string
normalize_amount_string_idempotent value u h =
    let (s, printed, _, again) = to_units-from_units u (to_units-le value h).0 in
    (s, rw h printed, again, rw again printed)
