-- ===== src/Amounts/ProRata.antt =====
-- Pro-rata allocation by largest remainders (`allocateProRata` of
-- backend/src/lib/decimal-amounts.ts).
pub mod Conservation
pub mod Allocation
pub mod Quota
use split_naira.Prelude.{
  ℕ, zero, suc, ◌+◌, ◌-◌, ◌*◌, ◌/◌, ◌%◌, Text, codes, Bool, true, false, not, List, [], ◌∷◌, map,
  Option, none, some, ltb, ◌==◌, if◌then◌else◌, length, sum_by, Result, ok, err, ◌>>=◌, ◌>>◌, guard,
  or_else, any,
}
use split_naira.Prelude.Int.{ℤ, pos, negsuc, is_negative}
use split_naira.Amounts.{
  AmountError, zero_shares, zero_weight, invalid_weight, magnitude, to_units, from_units,
}

pub record ProRataShare : Type 0 where
  pub key : Text
  pub weight : ℤ

pub record ProRataAllocation : Type 0 where
  pub key : Text
  pub amount : Text
  pub units : ℕ

abbrev pub get_or : List ℕ → ℕ → ℕ
get_or [] i = 0
get_or (x ∷ xs) zero = x
get_or (x ∷ xs) (suc i) = get_or xs i

-- `units[i] += 1n`.
abbrev pub add_one_at : ℕ → List ℕ → List ℕ
add_one_at i [] = []
add_one_at zero (x ∷ xs) = suc x ∷ xs
add_one_at (suc i) (x ∷ xs) = x ∷ add_one_at i xs

abbrev pub indices_from : ℕ → List ℕ → List ℕ
indices_from i [] = []
indices_from i (x ∷ xs) = i ∷ indices_from (suc i) xs

-- The comparator: the larger remainder first, then the smaller index.
unfoldable pub comes_before : List ℕ → ℕ → ℕ → Bool
comes_before remainders a b =
    if ltb (get_or remainders b) (get_or remainders a)
    then true
    else if ltb (get_or remainders a) (get_or remainders b)
    then false
    else ltb a b

-- `sort` by that comparator, which is a strict total order on the indices.
unfoldable pub insert_by : List ℕ → ℕ → List ℕ → List ℕ
unfolding comes_before
insert_by remainders a [] = a ∷ []
insert_by remainders a (b ∷ bs) =
    let later = b ∷ insert_by remainders a bs in
    if comes_before remainders a b then a ∷ b ∷ bs else later

unfoldable pub sort_by : List ℕ → List ℕ → List ℕ
unfolding insert_by
sort_by remainders [] = []
sort_by remainders (a ∷ rest) = insert_by remainders a (sort_by remainders rest)

-- The loop that hands out what is left, one unit after the other.
unfoldable pub hand_out : List ℕ → ℕ → ℕ → List ℕ → List ℕ
hand_out order i zero units = units
hand_out order i (suc leftover) units =
    hand_out order ((i + 1) % length order) leftover (add_one_at (get_or order i) units)

abbrev pub weights : List ProRataShare → List ℕ
weights = map (λ s. magnitude s.weight)

abbrev pub sum : List ℕ → ℕ
sum = sum_by (λ u. u)

abbrev pub floors : ℕ → ℕ → List ℕ → List ℕ
floors total_units weight_sum ws = map (λ w. total_units * w / weight_sum) ws

-- `totalUnits * s.weight - floors[i] * weightSum`, which is never negative.
abbrev pub remainders_of : ℕ → ℕ → List ℕ → List ℕ
remainders_of total_units weight_sum ws =
    map (λ w. total_units * w - total_units * w / weight_sum * weight_sum) ws

-- The units of each share, once the weights are checked.
unfoldable pub allocate_units : ℕ → List ℕ → List ℕ
unfolding sort_by hand_out
allocate_units total_units ws =
    let base = floors total_units (sum ws) ws in
    let remainders = remainders_of total_units (sum ws) ws in
    hand_out (sort_by remainders (indices_from 0 ws)) 0 (total_units - sum base) base

-- The allocations that are returned, each printed.
unfoldable pub print_shares :
    List ProRataShare → List ℕ → Result AmountError (List ProRataAllocation)
unfolding from_units
print_shares [] units = ok []
print_shares (s ∷ ss) [] = ok []
print_shares (s ∷ ss) (u ∷ us) = do
  amount ← from_units (pos u)
  rest ← print_shares ss us
  ok (record { key = s.key; amount = amount; units = u } ∷ rest)

abbrev pub zero_shares_of : List ProRataShare → List ProRataAllocation
zero_shares_of = map (λ s. record { key = s.key; amount = codes "0"; units = 0 })

-- The cases in which no share has a weight.
abbrev pub allocate_nothing :
    ℕ → AmountError → List ProRataAllocation → Result AmountError (List ProRataAllocation)
allocate_nothing total_units e nothing = if total_units == 0 then ok nothing else err e

unfoldable pub allocate_pro_rata :
    Text → List ProRataShare → Result AmountError (List ProRataAllocation)
unfolding to_units allocate_units print_shares
allocate_pro_rata total [] = do
  total_units ← to_units total
  allocate_nothing total_units zero_shares []
allocate_pro_rata total (s ∷ ss) = do
  total_units ← to_units total
  guard (not (any (λ x. is_negative x.weight) (s ∷ ss))) invalid_weight
  if sum (weights (s ∷ ss)) == 0
      then allocate_nothing total_units zero_weight (zero_shares_of (s ∷ ss))
      else print_shares (s ∷ ss) (allocate_units total_units (weights (s ∷ ss)))
