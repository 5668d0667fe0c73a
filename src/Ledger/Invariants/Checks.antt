-- ===== src/Ledger/Invariants/Checks.antt =====
-- What each check of the balance report (backend/src/services/ledger-invariants.ts) finds nothing
-- against.
use split_naira.Prelude.{
  ℕ, ◌<◌, ◌≡◌, ◌↔◌, refl, Text, false, List, [], ◌∷◌, ◌++◌, none, some, Option, arith,
  if◌then◌else◌, ltb, leb, ◌==◌, length, All, All-append, Bool-cases, inl, inr, Result, ok, leb→le,
  leb→lt,
}
use split_naira.Amounts.{
  AmountError, is_valid_amount_string, to_units, is_zero_amount, compare_amounts, Comparison, less,
  equal, greater,
}
use split_naira.Ledger.{TransactionRecord, LedgerBlock}
use split_naira.Ledger.Invariants.{
  InvariantViolation, critical, collect, check_each, duplicate_violation, invalid_tx,
  invalid_amount, invalid_block, zero_violation, differs,
}
use split_naira.Ledger.Invariants.Totals.{units, to_units-units, IsValidAmount, IsUnique}

-- A check finds nothing exactly where `P` holds.
abbrev pub IsClean : List InvariantViolation → Type 0 → Type 0
IsClean found P = (found ≡ []) ↔ P

pub clean_one : {P : Type 0} (v : InvariantViolation) → ¬ P → IsClean (v ∷ []) P
clean_one v refuted = ((λ h. absurd (cc h)), (λ p. absurd (refuted p)))

pub clean_none : {P : Type 0} → P → IsClean [] P
clean_none p = ((λ _. p), (λ _. refl))

pub append_empty : {A : Type 0} (xs ys : List A) → ((xs ++ ys) ≡ []) ↔ ((xs ≡ []) × (ys ≡ []))
append_empty [] ys = ((λ h. (refl, h)), (λ h. h.1))
append_empty (x ∷ xs) ys = ((λ h. absurd (cc h)), (λ h. absurd (cc (h.0))))

-- The clean case of what follows may rest on that of what comes first.
pub clean_then :
    {P Q : Type 0} (xs ys : List InvariantViolation)
    → IsClean xs P
    → (P → IsClean ys Q)
    → IsClean (xs ++ ys) (P × Q)
clean_then xs ys p q =
    let both = append_empty xs ys in
    (
      (λ h. let held = p.0 (both.0 h).0 in (held, (q held).0 (both.0 h).1)),
      (λ h. both.1 (p.1 h.0, (q h.0).1 h.1)),
    )

pub clean_map : {P Q : Type 0} (xs : List InvariantViolation) → P ↔ Q → IsClean xs P → IsClean xs Q
clean_map xs same clean = ((λ h. same.0 (clean.0 h)), (λ h. clean.1 (same.1 h)))

pub collect-IsClean :
    {A : Type 0} (check : A → List InvariantViolation) (P : A → Type 0)
    → ((x : A) → IsClean (check x) (P x))
    → (xs : List A) → IsClean (collect check xs) (All P xs)
collect-IsClean check P each [] = clean_none tt
collect-IsClean check P each (x ∷ xs) =
    clean_then (check x) (collect check xs) (each x) (λ _. collect-IsClean check P each xs)

abbrev pub IsCritical : InvariantViolation → Type 0
IsCritical v = v.severity ≡ critical

-- A check that may throw returns, all that it finds is critical, and it finds nothing exactly where `P` holds, if `Pre` does.
abbrev pub Returns : Result AmountError (List InvariantViolation) → Type 0 → Type 0 → Type 0
Returns checked Pre P =
    (found : List InvariantViolation) × (checked ≡ ok found)
    × All IsCritical found
    × (Pre → IsClean found P)

pub check_each-Returns :
    {A : Type 0} (check : A → Result AmountError (List InvariantViolation)) (Pre P : A → Type 0)
    → ((x : A) → Returns (check x) (Pre x) (P x))
    → (xs : List A) → Returns (check_each check xs) (All Pre xs) (All P xs)
check_each-Returns check Pre P each [] = ([], refl, tt, λ _. clean_none tt)
check_each-Returns check Pre P each (x ∷ xs) =
    let (found, checked, grave, clean) = each x in
    let (others, rest, grave_rest, clean_rest) = check_each-Returns check Pre P each xs in
    (
      found ++ others,
      rw (checked, rest) refl,
      All-append IsCritical found others grave grave_rest,
      λ pre. clean_then found others (clean pre.0) (λ _. clean_rest pre.1),
    )

pub duplicate_violation-IsClean :
    (entry : Text × List LedgerBlock) → IsClean (duplicate_violation entry) (IsUnique entry)
duplicate_violation-IsClean (tx_hash, blocks) = elim (Bool-cases (leb (length blocks) 1)) [
  | inl fits ↦ rw (fits) (clean_none (leb→le (length blocks) 1 fits))
  | inr over ↦ rw (over) (clean_one _ (λ h. absurd (omega (arith, leb→lt (length blocks) 1 over))))
]

pub invalid_tx-IsClean :
    (tx : TransactionRecord) → IsClean (invalid_tx tx) (IsValidAmount tx.amount)
invalid_tx-IsClean tx = elim (Bool-cases (is_valid_amount_string tx.amount)) [
  | inl valid ↦ rw (valid) (clean_none refl)
  | inr bad ↦ rw (bad) (clean_one _ (λ h. cc h))
]

abbrev pub HasValidAmount : Option Text → Type 0
HasValidAmount none = Unit
HasValidAmount (some amount) = IsValidAmount amount

invalid_amount-IsClean :
    (block : LedgerBlock) (amount : Option Text)
    → IsClean (invalid_amount block amount) (HasValidAmount amount)
invalid_amount-IsClean block none = clean_none tt
invalid_amount-IsClean block (some amount) = elim (Bool-cases (is_valid_amount_string amount)) [
  | inl valid ↦ rw (valid) (clean_none refl)
  | inr bad ↦ rw (bad) (clean_one _ (λ h. cc h))
]

pub invalid_block-IsClean :
    (block : LedgerBlock) → IsClean (invalid_block block) (HasValidAmount block.amount)
invalid_block-IsClean block = invalid_amount-IsClean block block.amount

pub zero_violation-Returns :
    (tx : TransactionRecord)
    → Returns (zero_violation tx) (IsValidAmount tx.amount) (0 < units tx.amount)
unfolding zero_violation is_zero_amount
zero_violation-Returns tx = elim (Bool-cases (is_valid_amount_string tx.amount)) [
  | inr bad ↦ rw (bad) ([], refl, tt, λ valid. absurd (cc (bad, valid)))
  | inl valid ↦
      let counted = to_units-units tx.amount valid in
      elim (Bool-cases (units tx.amount == 0)) [
        | inl zero ↦
            rw (valid, counted, zero)
              (_, refl, (refl, tt), λ _. clean_one _ (λ h. absurd (ground arith)))
        | inr more ↦ rw (valid, counted, more) ([], refl, tt, λ _. clean_none (ground arith))
      ]
]

-- `compareAmounts` of amounts of `x` and `y` units.
pub compare_amounts-differs :
    (a b : Text) (x y : ℕ)
    → to_units a ≡ ok x
    → to_units b ≡ ok y
    → (order : Comparison) × (compare_amounts a b ≡ ok order) × ((differs order ≡ false) ↔ (x ≡ y))
unfolding compare_amounts
compare_amounts-differs a b x y ha hb =
    rw (ha, hb) (if ltb x y then less else if ltb y x then greater else equal, refl, ground arith)
