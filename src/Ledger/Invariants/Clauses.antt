-- ===== src/Ledger/Invariants/Clauses.antt =====
-- The rules of a balanced ledger (backend/src/services/ledger-invariants.ts), one by one, said of the
-- rows themselves.
use split_naira.Prelude.{
  ℕ, ◌≤◌, ◌<◌, ◌≡◌, ◌↔◌, refl, ap, Text, text_eq, ◌&&◌, List, [], ◌∷◌, ◌++◌, arith, if◌then◌else◌,
  length, filter, All, All-map, Bool-cases, inl, inr, ok,
}
use split_naira.Prelude.Dict.{get}
use split_naira.Amounts.{max_amount_units, to_units}
use split_naira.Ledger.{TransactionRecord, LedgerBlock, is_completed, is_settlement}
use split_naira.Ledger.Invariants.{
  InvariantViolation, first, Settlements, settlements_at, index_settlements, differs,
  aggregate_violation,
}
use split_naira.Ledger.Invariants.Index.{
  settlements_of, settlements_at-index_settlements, IsWithin, index_settlements-IsWithin,
}
use split_naira.Ledger.Invariants.Totals.{units, IsTotal, IsUnique}
use split_naira.Ledger.Invariants.Checks.{
  IsClean, IsCritical, Returns, clean_map, HasValidAmount, compare_amounts-differs, clean_one,
  clean_none,
}
use split_naira.Ledger.Invariants.Matching.{HasValidPrimary}

-- A transaction settles at most once.
abbrev pub SettlesOnce : List LedgerBlock → Type 0
SettlesOnce blocks = (tx_hash : Text) → length (settlements_of tx_hash blocks) ≤ 1

pub settlements_listed :
    (k : Text) (blocks : List LedgerBlock)
    → settlements_at k (index_settlements blocks []) ≡ settlements_of k blocks
unfolding get
settlements_listed k blocks = settlements_at-index_settlements k blocks []

length-settlements_at :
    (k : Text) (index : Settlements) → All IsUnique index → length (settlements_at k index) ≤ 1
unfolding get
length-settlements_at k [] h = omega arith
length-settlements_at k ((j, w) ∷ index) (h, hs) = ground (arith, length-settlements_at k index hs)

pub All-IsUnique_iff :
    (blocks : List LedgerBlock) → All IsUnique (index_settlements blocks []) ↔ SettlesOnce blocks
All-IsUnique_iff blocks =
    let index = index_settlements blocks [] in
    (
      (λ h tx_hash. omega (
        arith,
        length-settlements_at tx_hash index h,
        ap length (settlements_listed tx_hash blocks),
      )),
      (λ once.
          All-map (IsWithin index) IsUnique
            (λ entry within.
              omega (arith, within, once entry.0, ap length (settlements_listed entry.0 blocks)))
            index (index_settlements-IsWithin blocks [] tt)),
    )

-- A payout that is completed moves a positive amount.
abbrev pub MovesFunds : TransactionRecord → Type 0
MovesFunds tx = if is_completed tx then (0 < units tx.amount) else Unit

pub All-MovesFunds_iff :
    (txs : List TransactionRecord)
    → All (λ tx. 0 < units tx.amount) (filter is_completed txs) ↔ All MovesFunds txs
All-MovesFunds_iff [] = ((λ _. tt), (λ _. tt))
All-MovesFunds_iff (tx ∷ txs) = elim (Bool-cases (is_completed tx)) [
  | inl completed ↦
      let (to, back) = All-MovesFunds_iff txs in
      rw (completed) ((λ h. (h.0, to h.1)), (λ h. (h.0, back h.1)))
  | inr other ↦
      let (to, back) = All-MovesFunds_iff txs in rw (other) ((λ h. (tt, to h)), (λ h. back h.1))
]

pub All-filter_completed :
    (P : TransactionRecord → Type 0) (txs : List TransactionRecord)
    → All P txs
    → All P (filter is_completed txs)
All-filter_completed P [] h = tt
All-filter_completed P (tx ∷ txs) (h, hs) = ground (arith, All-filter_completed P txs hs)

pub valid_primary :
    (k : Text) (blocks : List LedgerBlock)
    → All (λ block. HasValidAmount block.amount) blocks
    → HasValidPrimary (first (settlements_of k blocks))
unfolding settlements_of
valid_primary k [] h = tt
valid_primary k (block ∷ blocks) (h, hs) =
    elim (Bool-cases (is_settlement block && text_eq block.tx_hash k)) [
      | inl here ↦ rw (here) h
      | inr other ↦ rw (other) (valid_primary k blocks hs)
    ]

aggregate_violation-Returns :
    (a b : Text) (x y : ℕ)
    → to_units a ≡ ok x
    → to_units b ≡ ok y
    → Returns (aggregate_violation a b) Unit (x ≡ y)
unfolding aggregate_violation
aggregate_violation-Returns a b x y ha hb =
    let (order, compared, same) = compare_amounts-differs a b x y ha hb in
    elim (Bool-cases (differs order)) [
      | inl apart ↦
          rw (compared, apart) (_, refl, (refl, tt), λ _. clean_one _ (λ e. cc (same.1 e, apart)))
      | inr agree ↦ rw (compared, agree) ([], refl, tt, λ _. clean_none (same.0 agree))
    ]

-- Both totals are in range and equal.
abbrev pub IsConserved : ℕ → ℕ → Type 0
IsConserved paid settled = (paid ≤ max_amount_units) × (paid ≡ settled)

pub totals-IsClean :
    (paid settled : Text × List InvariantViolation) (x y : ℕ)
    → IsTotal paid x
    → IsTotal settled y
    → (found : List InvariantViolation) × (aggregate_violation paid.0 settled.0 ≡ ok found)
      × All IsCritical (paid.1 ++ (settled.1 ++ found))
      × IsClean (paid.1 ++ (settled.1 ++ found)) (IsConserved x y)
totals-IsClean (a, over_a) (b, over_b) x y (inl (fits, ha, empty_a)) (inl (fits_b, hb, empty_b)) =
    let (found, checked, grave, clean) = aggregate_violation-Returns a b x y ha hb in
    (
      found,
      checked,
      rw (empty_a, empty_b) grave,
      rw (empty_a, empty_b) (clean_map found ((λ e. (fits, e)), (λ h. h.1)) (clean tt)),
    )
totals-IsClean (a, over_a) (b, over_b) x y (inl (fits, ha, empty_a)) (inr (over, hb, full)) =
    let (found, checked, grave, clean) = aggregate_violation-Returns a b x 0 ha hb in
    (
      found,
      checked,
      rw (empty_a, full) (refl, grave),
      rw (empty_a, full) ((λ h. absurd (cc h)), (λ h. absurd (omega (arith, h.0, h.1, over)))),
    )
totals-IsClean (a, over_a) (b, over_b) x y (inr (over, ha, full)) (inl (fits, hb, empty_b)) =
    let (found, checked, grave, clean) = aggregate_violation-Returns a b 0 y ha hb in
    (
      found,
      checked,
      rw (full, empty_b) (refl, grave),
      rw (full) ((λ h. absurd (cc h)), (λ h. absurd (omega (arith, h.0, over)))),
    )
totals-IsClean (a, over_a) (b, over_b) x y (inr (over, ha, full)) (inr (_, hb, full_b)) =
    let (found, checked, grave, clean) = aggregate_violation-Returns a b 0 0 ha hb in
    (
      found,
      checked,
      rw (full, full_b) (refl, (refl, grave)),
      rw (full) ((λ h. absurd (cc h)), (λ h. absurd (omega (arith, h.0, over)))),
    )
