-- ===== src/Witnesses/AmountTests.antt =====
-- Amounts at concrete inputs.
use split_naira.Prelude.{
  ℕ, ◌+◌, ◌*◌, ◌≤◌, ◌≡◌, refl, arith, Text, codes, List, [], ◌∷◌, ok, true, sum_by,
}
use split_naira.Prelude.Int.{pos}
use split_naira.Amounts.{
  to_units, from_units, is_valid_amount_string, add_amounts, sum_amounts, sum_overflow, half_up,
  multiply_amount_by_ratio, multiplication_overflow,
}
use split_naira.Amounts.RoundTrip.{to_units-from_units}
use split_naira.Amounts.Arithmetic.{IsExact, sum_amounts-IsExact, total}
use split_naira.Amounts.Rounding.{IsRounded, multiply_amount_by_ratio_rounds}
use split_naira.Amounts.ProRata.{
  ProRataShare, ProRataAllocation, allocate_pro_rata, allocate_units, weights, floors, get_or, sum,
}
use split_naira.Amounts.ProRata.Allocation.{IsPrinted, allocate_pro_rata_conserves}
use split_naira.Amounts.ProRata.Quota.{allocate_units_quota}

abbrev ten : Text
ten = codes "10"

abbrev half : Text
half = codes "0.5"

ten_units : to_units ten ≡ ok 100000000
unfolding to_units
ten_units = refl

half_units : to_units half ≡ ok 5000000
unfolding to_units
half_units = refl

abbrev thirds : List ProRataShare
thirds =
    record { key = codes "a"; weight = pos 1 }
    ∷ record { key = codes "b"; weight = pos 1 }
    ∷ record { key = codes "c"; weight = pos 1 }
    ∷ []

allocate_pro_rata_conserves_example :
    (allocations : List ProRataAllocation) × (allocate_pro_rata ten thirds ≡ ok allocations)
    × IsPrinted thirds (allocate_units 100000000 (weights thirds)) allocations
    × (sum_by (λ a. a.units) allocations ≡ 100000000)
allocate_pro_rata_conserves_example =
    allocate_pro_rata_conserves ten thirds 100000000 ten_units (refl, (refl, (refl, tt)))
      (omega arith)

to_units-from_units_example :
    (s : Text) × (from_units (pos 5000000) ≡ ok s)
    × (is_valid_amount_string s ≡ true)
    × (to_units s ≡ ok 5000000)
to_units-from_units_example = to_units-from_units 5000000 (omega arith)

sum_amounts-IsExact_example :
    IsExact (sum_amounts (ten ∷ half ∷ [])) (total (100000000 ∷ 5000000 ∷ [])) sum_overflow
sum_amounts-IsExact_example =
    sum_amounts-IsExact (ten ∷ half ∷ []) (100000000 ∷ 5000000 ∷ []) (ten_units, (half_units, tt))

added : add_amounts ten half ≡ ok (codes "10.5")
unfolding add_amounts
added = refl

multiply_amount_by_ratio_rounds_example :
    (q : ℕ) × IsRounded half_up (5000000 * 1) 3 q
    × IsExact (multiply_amount_by_ratio half (pos 1) (pos 3) half_up) q multiplication_overflow
multiply_amount_by_ratio_rounds_example =
    multiply_amount_by_ratio_rounds half 5000000 1 3 half_up half_units (omega arith)

allocate_units_quota_example :
    (get_or (floors 100 (sum (1 ∷ 1 ∷ 1 ∷ [])) (1 ∷ 1 ∷ 1 ∷ [])) 0
      ≤ get_or (allocate_units 100 (1 ∷ 1 ∷ 1 ∷ [])) 0)
    × (get_or (allocate_units 100 (1 ∷ 1 ∷ 1 ∷ [])) 0
        ≤ get_or (floors 100 (sum (1 ∷ 1 ∷ 1 ∷ [])) (1 ∷ 1 ∷ 1 ∷ [])) 0 + 1)
allocate_units_quota_example = allocate_units_quota 100 (1 ∷ 1 ∷ 1 ∷ []) 0 (omega arith)
