-- ===== src/Amounts/ProRata/Allocation.antt =====
-- `allocateProRata` (backend/src/lib/decimal-amounts.ts) as a whole.
use split_naira.Prelude.{
  ℕ, ◌≤◌, ◌<◌, ◌≡◌, refl, ◌∙◌, Text, false, List, [], ◌∷◌, arith, All, All-map, length, sum_by, ok,
  any, ◌==◌, length-map,
}
use split_naira.Prelude.Int.{is_negative}
use split_naira.Amounts.{max_amount_units, to_units, magnitude}
use split_naira.Amounts.RoundTrip.{to_units-from_units, to_units-le}
use split_naira.Amounts.ProRata.{
  ProRataShare, ProRataAllocation, weights, sum, allocate_units, print_shares, allocate_pro_rata,
}
use split_naira.Amounts.ProRata.Conservation.{sum-allocate_units}

-- The allocation of each share: its key, its units, and their canonical text.
abbrev pub IsPrinted : List ProRataShare → List ℕ → List ProRataAllocation → Type 0
IsPrinted [] [] [] = Unit
IsPrinted (s ∷ ss) (u ∷ us) (a ∷ rest) =
    (a.key ≡ s.key) × (a.units ≡ u) × (to_units a.amount ≡ ok u) × IsPrinted ss us rest
IsPrinted _ _ _ = ⊥

print_shares-IsPrinted :
    (ss : List ProRataShare) (us : List ℕ)
    → length us ≡ length ss
    → All (λ u. u ≤ max_amount_units) us
    → (allocations : List ProRataAllocation) × (print_shares ss us ≡ ok allocations)
      × IsPrinted ss us allocations
unfolding print_shares
print_shares-IsPrinted [] [] l h = ([], refl, tt)
print_shares-IsPrinted [] (u ∷ us) l h = absurd (omega arith)
print_shares-IsPrinted (s ∷ ss) [] l h = absurd (omega arith)
print_shares-IsPrinted (s ∷ ss) (u ∷ us) l h =
    let (amount, printed, _, again) = to_units-from_units u h.0 in
    let (rest, done, fits) = print_shares-IsPrinted ss us (omega arith) h.1 in
    (
      record { key = s.key; amount = amount; units = u } ∷ rest,
      rw (printed, done),
      (refl, refl, again, fits),
    )

le-sum : (us : List ℕ) → All (λ u. u ≤ sum us) us
le-sum [] = tt
le-sum (u ∷ us) = (omega arith, All-map _ _ (λ v h. omega arith) us (le-sum us))

abbrev pub AllNatural : List ProRataShare → Type 0
AllNatural = All (λ s. is_negative s.weight ≡ false)

none_negative :
    (ss : List ProRataShare) → AllNatural ss → any (λ x. is_negative x.weight) ss ≡ false
none_negative [] h = refl
none_negative (s ∷ ss) h = ground (arith, none_negative ss h.1)

allocate_pro_rata_runs :
    (total : Text) (ss : List ProRataShare) (t : ℕ)
    → to_units total ≡ ok t
    → AllNatural ss
    → 0 < sum (weights ss)
    → allocate_pro_rata total ss ≡ print_shares ss (allocate_units t (weights ss))
unfolding allocate_pro_rata
allocate_pro_rata_runs total [] t h n p = absurd (omega arith)
allocate_pro_rata_runs total (s ∷ ss) t h n p =
    let not_zero = zero_test (sum (weights (s ∷ ss))) p in
    rw (h, none_negative (s ∷ ss) n, not_zero)
  where
    zero_test : (k : ℕ) → 0 < k → (k == 0) ≡ false
    zero_test k q = ground arith

sum-IsPrinted :
    (ss : List ProRataShare) (us : List ℕ) (allocations : List ProRataAllocation)
    → IsPrinted ss us allocations
    → sum_by (λ a. a.units) allocations ≡ sum us
sum-IsPrinted [] [] [] h = refl
sum-IsPrinted (s ∷ ss) (u ∷ us) (a ∷ rest) h = omega (arith, sum-IsPrinted ss us rest h.3)
sum-IsPrinted _ _ _ h = absurd h

-- A valid total is always allocated over shares of natural weights that are not all zero: one
-- allocation for each share, in order and under its key, each printed exactly, and the units add
-- up to the units of the total.
pub allocate_pro_rata_conserves :
    (total : Text) (ss : List ProRataShare) (t : ℕ)
    → to_units total ≡ ok t
    → AllNatural ss
    → 0 < sum (weights ss)
    → (allocations : List ProRataAllocation) × (allocate_pro_rata total ss ≡ ok allocations)
      × IsPrinted ss (allocate_units t (weights ss)) allocations
      × (sum_by (λ a. a.units) allocations ≡ t)
allocate_pro_rata_conserves total ss t h n p =
    let us = allocate_units t (weights ss) in
    let (adds_up, same_length) = sum-allocate_units t (weights ss) p in
    let small : All (λ u. u ≤ max_amount_units) us =
      All-map _ _ (λ u k. omega (arith, (to_units-le total h).0, adds_up)) us (le-sum us) in
    let (allocations, done, printed) =
      print_shares-IsPrinted ss us (same_length ∙ length-map (λ s. magnitude s.weight) ss) small in
    (
      allocations,
      allocate_pro_rata_runs total ss t h n p ∙ done,
      printed,
      sum-IsPrinted ss us allocations printed ∙ adds_up,
    )
