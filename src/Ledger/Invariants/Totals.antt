-- ===== src/Ledger/Invariants/Totals.antt =====
-- The totals of the balance report (backend/src/services/ledger-invariants.ts) in units.
use split_naira.Prelude.{
  ℕ, ◌+◌, ◌≤◌, ◌<◌, ◌≡◌, ◌⊎◌, refl, Text, true, List, [], ◌∷◌, ◌++◌, map, none, some, Option, arith,
  if◌then◌else◌, length, leb, sum_by, All, All-append, inl, inr, ok, and_true,
}
use split_naira.Amounts.{
  max_amount_units, is_valid_amount_string, amount_pattern, split_point, is_whole_part,
  is_fraction_part, value_from, to_units, to_units_unchecked,
}
use split_naira.Amounts.Arithmetic.{UnitsOf, total, sum_amounts-IsExact}
use split_naira.Ledger.{TransactionRecord, LedgerBlock, is_completed}
use split_naira.Ledger.Invariants.{
  InvariantViolation, violation, amount_overflow, Settlements, completed_amounts, settled_amounts,
  valid_amount, primary_amount, zero_text, total_or_overflow,
}
use split_naira.Ledger.Invariants.Index.{sum_of_entries}

-- The units of a valid amount, and none of an invalid one.
unfoldable pub units : Text → ℕ
unfolding is_valid_amount_string to_units_unchecked
units amount = if is_valid_amount_string amount then to_units_unchecked amount else 0

pub to_units-units :
    (amount : Text) → is_valid_amount_string amount ≡ true → to_units amount ≡ ok (units amount)
unfolding units to_units is_valid_amount_string
to_units-units amount h =
    let (shaped, fits) =
      and_true (amount_pattern amount) (leb (to_units_unchecked amount) max_amount_units) h in
    rw (shaped, fits) refl

abbrev pub IsValidAmount : Text → Type 0
IsValidAmount amount = is_valid_amount_string amount ≡ true

pub UnitsOf-All :
    (amounts : List Text) → All IsValidAmount amounts → UnitsOf amounts (map units amounts)
UnitsOf-All [] h = tt
UnitsOf-All (amount ∷ amounts) (h, hs) = (to_units-units amount h, UnitsOf-All amounts hs)

abbrev pub IsTotal : Text × List InvariantViolation → ℕ → Type 0
IsTotal (text, found) sum =
    ((sum ≤ max_amount_units) × (to_units text ≡ ok sum) × (found ≡ []))
    ⊎ ((max_amount_units < sum)
        × (to_units text ≡ ok 0)
        × (found ≡ violation amount_overflow none none ∷ []))

pub zero_text-units : to_units zero_text ≡ ok 0
unfolding to_units to_units_unchecked amount_pattern split_point is_whole_part is_fraction_part
    value_from
zero_text-units = refl

pub total_or_overflow-IsTotal :
    (amounts : List Text)
    → All IsValidAmount amounts
    → IsTotal (total_or_overflow amounts) (total (map units amounts))
unfolding total_or_overflow
total_or_overflow-IsTotal amounts h =
    elim (sum_amounts-IsExact amounts (map units amounts) (UnitsOf-All amounts h)) [
      | inl (fits, (text, summed, again)) ↦ rw (total_or_overflow, summed) (inl (fits, again, refl))
      | inr (over, failed) ↦ rw (total_or_overflow, failed) (inr (over, zero_text-units, refl))
    ]

abbrev pub completed_units : TransactionRecord → ℕ
completed_units tx = if is_completed tx then units tx.amount else 0

pub completed_amounts-AllValid :
    (transactions : List TransactionRecord) → All IsValidAmount (completed_amounts transactions)
unfolding completed_amounts
completed_amounts-AllValid [] = tt
completed_amounts-AllValid (tx ∷ transactions) =
    ground (arith, completed_amounts-AllValid transactions)

pub total-completed_amounts :
    (transactions : List TransactionRecord)
    → total (map units (completed_amounts transactions)) ≡ sum_by completed_units transactions
unfolding completed_amounts units
total-completed_amounts [] = refl
total-completed_amounts (tx ∷ transactions) = ground (arith, total-completed_amounts transactions)

abbrev pub optional_units : Option Text → ℕ
optional_units none = 0
optional_units (some amount) = units amount

abbrev pub block_units : LedgerBlock → ℕ
block_units block = optional_units block.amount

valid_amount-AllValid : (amount : Option Text) → All IsValidAmount (valid_amount amount)
valid_amount-AllValid none = tt
valid_amount-AllValid (some amount) = ground arith

primary_amount-AllValid : (blocks : List LedgerBlock) → All IsValidAmount (primary_amount blocks)
primary_amount-AllValid [] = tt
primary_amount-AllValid (block ∷ blocks) = valid_amount-AllValid block.amount

pub settled_amounts-AllValid : (index : Settlements) → All IsValidAmount (settled_amounts index)
unfolding settled_amounts
settled_amounts-AllValid [] = tt
settled_amounts-AllValid ((k, blocks) ∷ index) =
    All-append IsValidAmount (primary_amount blocks) (settled_amounts index)
      (primary_amount-AllValid blocks) (settled_amounts-AllValid index)

pub total-append :
    (xs ys : List Text) → total (map units (xs ++ ys)) ≡ total (map units xs) + total (map units ys)
total-append [] ys = omega arith
total-append (x ∷ xs) ys = omega (arith, total-append xs ys)

total-valid_amount :
    (amount : Option Text) → total (map units (valid_amount amount)) ≡ optional_units amount
unfolding units
total-valid_amount none = refl
total-valid_amount (some amount) = ground arith

abbrev pub IsUnique : Text × List LedgerBlock → Type 0
IsUnique (tx_hash, blocks) = length blocks ≤ 1

total-primary_amount :
    (blocks : List LedgerBlock)
    → length blocks ≤ 1
    → total (map units (primary_amount blocks)) ≡ sum_by block_units blocks
total-primary_amount [] h = refl
total-primary_amount (block ∷ []) h = omega (arith, total-valid_amount block.amount)
total-primary_amount (block ∷ other ∷ blocks) h = absurd (omega arith)

pub total-settled_amounts :
    (index : Settlements)
    → All IsUnique index
    → total (map units (settled_amounts index)) ≡ sum_of_entries block_units index
unfolding settled_amounts
total-settled_amounts [] h = refl
total-settled_amounts ((k, blocks) ∷ index) (h, hs) = omega (
  arith,
  total-append (primary_amount blocks) (settled_amounts index),
  total-primary_amount blocks h,
  total-settled_amounts index hs,
)
