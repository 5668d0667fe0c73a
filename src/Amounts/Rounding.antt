-- ===== src/Amounts/Rounding.antt =====
-- Multiplication of an amount by a ratio: how far each rounding mode is from the exact quotient.
use split_naira.Prelude.{
  ℕ, ◌+◌, ◌*◌, ◌≤◌, ◌<◌, ◌≡◌, Text, arith, leb, inl, inr, Bool-cases, ok, lt→ltb, leb→le, leb→lt,
}
use native.Mathlib.Nat.{div-add-mod}
use split_naira.Prelude.Int.{pos}
use split_naira.Amounts.{
  max_amount_units, RoundingMode, floor, ceil, half_up, round_quotient, multiplication_overflow,
  to_units, multiply_amount_by_ratio,
}
use split_naira.Amounts.Arithmetic.{IsExact}
use split_naira.Amounts.RoundTrip.{to_units-from_units}

-- `q` is the quotient of `scaled` by `den`, rounded down, rounded up, or rounded to the nearest
-- integer with halves rounded up.
abbrev pub IsRounded : RoundingMode → ℕ → ℕ → ℕ → Type 0
IsRounded floor scaled den q = (q * den ≤ scaled) × (scaled < q * den + den)
IsRounded ceil scaled den q = (scaled ≤ q * den) × (q * den < scaled + den)
IsRounded half_up scaled den q =
    (2 * scaled < 2 * (q * den) + den) × (2 * (q * den) ≤ 2 * scaled + den)

round_quotient-IsRounded :
    (mode : RoundingMode) (scaled den : ℕ)
    → 0 < den
    → IsRounded mode scaled den (round_quotient scaled den mode)
unfolding round_quotient
round_quotient-IsRounded floor scaled den p = grind (arith, div-add-mod scaled den)
round_quotient-IsRounded ceil scaled den p = grind (arith, div-add-mod scaled den)
round_quotient-IsRounded half_up scaled den p = grind (arith, div-add-mod scaled den)

-- With a positive denominator and a natural numerator the product is the rounded one, where it is
-- in range, and fails as an overflow where it is not.
pub multiply_amount_by_ratio_rounds :
    (value : Text) (units num den : ℕ) (mode : RoundingMode)
    → to_units value ≡ ok units
    → 0 < den
    → (q : ℕ) × IsRounded mode (units * num) den q
      × IsExact (multiply_amount_by_ratio value (pos num) (pos den) mode) q multiplication_overflow
unfolding multiply_amount_by_ratio
multiply_amount_by_ratio_rounds value units num den mode h p =
    let q = round_quotient (units * num) den mode in
    let positive = lt→ltb 0 den p in
    (
      q,
      round_quotient-IsRounded mode (units * num) den p,
      elim (Bool-cases (leb q max_amount_units)) [
        | inl fits ↦
            let (s, printed, _, again) = to_units-from_units q (leb→le _ _ fits) in
            inl (leb→le _ _ fits, (s, rw (positive, h, fits) printed, again))
        | inr over ↦ inr (leb→lt _ _ over, rw (positive, h, over))
      ],
    )
