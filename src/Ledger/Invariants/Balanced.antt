-- ===== src/Ledger/Invariants/Balanced.antt =====
-- When the balance report (backend/src/services/ledger-invariants.ts, evaluateLedgerBalance) calls
-- the ledger balanced, said of the rows themselves.
use split_naira.Prelude.{
  ℕ, ◌<◌, ◌≤◌, ◌≡◌, ◌↔◌, ◌⊎◌, length, false, refl, sym, ◌∙◌, subst, Text, List, [], ◌∷◌, ◌++◌, map,
  none, some, Option, arith, filter, sum_by, All, All-map, All-append, ok,
}
use mathlib.Core.List.{append_assoc}
use native.Mathlib.Nat.{zero-add}
use split_naira.Amounts.{max_amount_units, to_units}
use split_naira.Amounts.Arithmetic.{total}
use split_naira.Ledger.{TransactionRecord, LedgerBlock, is_completed}
use split_naira.Ledger.Invariants.{
  InvariantViolation, first, collect, settlements_at, index_settlements, duplicate_violation,
  invalid_tx, invalid_block, invalid_amount, zero_violation, match_violation, total_or_overflow,
  completed_amounts, settled_amounts,
}
use split_naira.Ledger.Invariants.Balance.{
  violations_of, no_violations, RoundBalance, LedgerBalanceReport, evaluate_ledger_balance,
}
use split_naira.Ledger.Invariants.Index.{
  settlements_of, settlement_measure, sum_of_entries-index_settlements,
}
use split_naira.Ledger.Invariants.Totals.{
  units, IsValidAmount, total_or_overflow-IsTotal, completed_units, completed_amounts-AllValid,
  total-completed_amounts, block_units, settled_amounts-AllValid, IsUnique, total-settled_amounts,
}
use split_naira.Ledger.Invariants.Checks.{
  IsClean, IsCritical, clean_then, clean_map, collect-IsClean, check_each-Returns,
  duplicate_violation-IsClean, invalid_tx-IsClean, HasValidAmount, invalid_block-IsClean,
  zero_violation-Returns,
}
use split_naira.Ledger.Invariants.Clauses.{
  SettlesOnce, settlements_listed, All-IsUnique_iff, MovesFunds, All-MovesFunds_iff,
  All-filter_completed, valid_primary, IsConserved, totals-IsClean,
}
use split_naira.Ledger.Invariants.Matching.{
  MatchesPrimary, HasValidPrimary, match_violation-Returns,
}

-- The rows satisfy the balancing rules.
abbrev pub IsBalanced : List TransactionRecord → List LedgerBlock → Type 0
IsBalanced txs blocks =
    SettlesOnce blocks
    × (All (λ tx. IsValidAmount tx.amount) txs
        × (All (λ block. HasValidAmount block.amount) blocks
            × (All MovesFunds txs
                × (All (λ tx. MatchesPrimary tx (first (settlements_of tx.tx_hash blocks))) txs
                    × IsConserved (sum_by completed_units txs)
                        (sum_by (settlement_measure block_units) blocks)))))

settled_total :
    (blocks : List LedgerBlock)
    → All IsUnique (index_settlements blocks [])
    → total (map units (settled_amounts (index_settlements blocks [])))
      ≡ sum_by (settlement_measure block_units) blocks
settled_total blocks h =
    total-settled_amounts (index_settlements blocks []) h
    ∙ sum_of_entries-index_settlements block_units blocks []
    ∙ zero-add (sum_by (settlement_measure block_units) blocks)

primaries_iff :
    (txs : List TransactionRecord) (blocks : List LedgerBlock)
    → All
        (λ tx. MatchesPrimary tx (first (settlements_at tx.tx_hash (index_settlements blocks []))))
        txs
      ↔ All (λ tx. MatchesPrimary tx (first (settlements_of tx.tx_hash blocks))) txs
primaries_iff txs blocks =
    let listed = λ (tx : TransactionRecord). settlements_listed tx.tx_hash blocks in
    (
      All-map _ _ (λ tx h. subst (λ l. MatchesPrimary tx (first l)) (listed tx) h) txs,
      All-map _ _ (λ tx h. subst (λ l. MatchesPrimary tx (first l)) (sym (listed tx)) h) txs,
    )

valid_pairs :
    (txs : List TransactionRecord) (blocks : List LedgerBlock)
    → All (λ tx. IsValidAmount tx.amount) txs
    → All (λ block. HasValidAmount block.amount) blocks
    → All
        (λ tx.
          IsValidAmount tx.amount
          × HasValidPrimary (first (settlements_at tx.tx_hash (index_settlements blocks []))))
        txs
valid_pairs txs blocks h k =
    All-map _ _
      (λ tx valid. (
        valid,
        subst (λ l. HasValidPrimary (first l)) (sym (settlements_listed tx.tx_hash blocks))
            (valid_primary tx.tx_hash blocks k),
      ))
      txs h

duplicate_violation-IsCritical :
    (entry : Text × List LedgerBlock) → All IsCritical (duplicate_violation entry)
duplicate_violation-IsCritical (tx_hash, blocks) = ground arith

invalid_tx-IsCritical : (tx : TransactionRecord) → All IsCritical (invalid_tx tx)
invalid_tx-IsCritical tx = ground arith

invalid_amount-IsCritical :
    (block : LedgerBlock) (amount : Option Text) → All IsCritical (invalid_amount block amount)
invalid_amount-IsCritical block none = tt
invalid_amount-IsCritical block (some amount) = ground arith

invalid_block-IsCritical : (block : LedgerBlock) → All IsCritical (invalid_block block)
invalid_block-IsCritical block = invalid_amount-IsCritical block block.amount

collect_then :
    {A : Type 0} (check : A → List InvariantViolation) (xs : List A)
    (others : List InvariantViolation)
    → ((x : A) → All IsCritical (check x))
    → All IsCritical others
    → All IsCritical (collect check xs ++ others)
collect_then check [] others each h = h
collect_then check (x ∷ xs) others each h =
    rw (append_assoc (check x) (collect check xs) others)
      (All-append IsCritical (check x) _ (each x) (collect_then check xs others each h))

clean_all :
    {A B C D E F : Type 0} {duplicates bs cs ds es fs : List InvariantViolation}
    → IsClean duplicates A
    → IsClean bs B
    → IsClean cs C
    → (B → IsClean ds D)
    → (B → C → IsClean es E)
    → (A → IsClean fs F)
    → IsClean (duplicates ++ (bs ++ (cs ++ (ds ++ (es ++ fs))))) (A × (B × (C × (D × (E × F)))))
clean_all a b c d e f = clean_then _ _ a (λ x.
    clean_then _ _ b
      (λ y. clean_then _ _ c (λ z. clean_then _ _ (d y) (λ _. clean_then _ _ (e y z) (λ _. f x)))))

-- The checks never throw, find only what is critical, and find nothing exactly where the rows satisfy the balancing rules.
violations_of-IsClean :
    (txs : List TransactionRecord) (blocks : List LedgerBlock)
    → (found : List InvariantViolation) × (violations_of txs blocks ≡ ok found)
      × All IsCritical found
      × IsClean found (IsBalanced txs blocks)
unfolding violations_of
violations_of-IsClean txs blocks =
    let index = index_settlements blocks [] in
    let (zeros, zeros_found, zeros_grave, zeros_clean) =
      check_each-Returns zero_violation (λ tx. IsValidAmount tx.amount) (λ tx. 0 < units tx.amount)
        zero_violation-Returns (filter is_completed txs) in
    let (pairs, pairs_found, pairs_grave, pairs_clean) =
      check_each-Returns (match_violation index) _ _ (match_violation-Returns index) txs in
    let (aggregate, aggregate_found, totals_grave, totals_clean) =
      totals-IsClean (total_or_overflow (completed_amounts txs))
        (total_or_overflow (settled_amounts index)) _ _
        (total_or_overflow-IsTotal (completed_amounts txs) (completed_amounts-AllValid txs))
        (total_or_overflow-IsTotal (settled_amounts index) (settled_amounts-AllValid index)) in
    (
      collect duplicate_violation index
          ++ (collect invalid_tx txs
              ++ (collect invalid_block blocks
                  ++ (zeros
                      ++ (pairs
                          ++ ((total_or_overflow (completed_amounts txs)).1
                              ++ ((total_or_overflow (settled_amounts index)).1 ++ aggregate)))))),
      rw (zeros_found, pairs_found, aggregate_found) refl,
      collect_then duplicate_violation index _ duplicate_violation-IsCritical (
          collect_then invalid_tx txs _ invalid_tx-IsCritical (
            collect_then invalid_block blocks _ invalid_block-IsCritical (
              All-append IsCritical zeros _ zeros_grave
                (All-append IsCritical pairs _ pairs_grave totals_grave)))),
      clean_all
          (clean_map _ (All-IsUnique_iff blocks)
            (collect-IsClean duplicate_violation IsUnique duplicate_violation-IsClean index))
          (collect-IsClean invalid_tx (λ tx. IsValidAmount tx.amount) invalid_tx-IsClean txs)
          (collect-IsClean invalid_block (λ block. HasValidAmount block.amount)
            invalid_block-IsClean blocks)
          (λ valid.
            clean_map zeros (All-MovesFunds_iff txs)
              (zeros_clean (All-filter_completed _ txs valid)))
          (λ valid valid_blocks.
            clean_map pairs (primaries_iff txs blocks)
              (pairs_clean (valid_pairs txs blocks valid valid_blocks)))
          (λ once.
            rw
              (total-completed_amounts txs, settled_total blocks ((All-IsUnique_iff blocks).1 once))
              at totals_clean),
    )

pub evaluate_ledger_balance-Found :
    (sort_rounds : List RoundBalance → List RoundBalance) (txs : List TransactionRecord)
    (blocks : List LedgerBlock)
    → (report : LedgerBalanceReport) × (evaluate_ledger_balance sort_rounds txs blocks ≡ ok report)
      × (report.balanced ≡ no_violations report.violations)
      × All IsCritical report.violations
      × IsClean report.violations (IsBalanced txs blocks)
unfolding evaluate_ledger_balance
evaluate_ledger_balance-Found sort_rounds txs blocks =
    let (found, made, grave, clean) = violations_of-IsClean txs blocks in
    rw (made) (_, refl, refl, grave, clean)

-- A text is the total of so many units, or of none where they are out of range.
abbrev pub TotalIs : Text → ℕ → Type 0
TotalIs text sum =
    ((sum ≤ max_amount_units) × (to_units text ≡ ok sum))
    ⊎ ((max_amount_units < sum) × (to_units text ≡ ok 0))

-- The totals of a report: the number of the payouts, the completed units, and where the ledger is
-- balanced, the settled units.
abbrev pub HasTotals : List TransactionRecord → List LedgerBlock → LedgerBalanceReport → Type 0
HasTotals txs blocks report =
    (report.totals.transaction_count ≡ length txs)
    × TotalIs report.totals.completed_total (sum_by completed_units txs)
    × ((report.balanced ≡ false)
        ⊎ TotalIs report.totals.settled_total (sum_by (settlement_measure block_units) blocks))
