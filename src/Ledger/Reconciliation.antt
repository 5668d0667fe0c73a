-- ===== src/Ledger/Reconciliation.antt =====
-- The dry run that joins both checks (backend/src/scripts/reconcile-dry-run.ts).
pub mod Findings
pub mod DryRun
use split_naira.Prelude.{
  ℕ, Text, codes, Bool, true, false, not, List, [], ◌∷◌, ◌++◌, map, Option, none, some, ltb,
  if◌then◌else◌, or_else, length, take, any, Result, ok, err, ◌>>=◌,
}
use split_naira.Prelude.Dict.{Dict, get, set}
use split_naira.Ledger.{TransactionRecord, LedgerBlock}
use split_naira.Ledger.Invariants.{
  InvariantId, invalid_amount_format, nonzero_completed_amount, amount_match, failed_not_settled,
  duplicate_settlement_entry, amount_overflow, aggregate_conservation, InvariantSeverity, critical,
  warning, InvariantViolation,
}
use split_naira.Ledger.Invariants.Balance.{
  RoundBalance, LedgerBalanceReport, evaluate_ledger_balance,
}
use split_naira.Amounts.{AmountError}
use split_naira.Ledger.Orphans.{
  OrphanedTransactionsReport, CompletedTransactionMissingLedgerBlock,
  SettlementLedgerBlockMissingTransaction, LedgerRead, rows, undefined_table, read_failed,
  DatabaseError, query_failed, ledger_blocks_missing_warning, check_orphaned_transactions,
}

-- The message, which is prose, is left out.
pub record ReconciliationFinding : Type 0 where
  pub check_id : Text
  pub severity : InvariantSeverity
  pub count : Option ℕ
  pub sample_ids : Option (List Text)

pub record ReconciliationDryRunReport : Type 0 where
  pub checks_run : List Text
  pub findings : List ReconciliationFinding
  pub ok_to_go : Bool

abbrev pub sample_limit : ℕ
sample_limit = 5

abbrev pub invariant_text : InvariantId → Text
invariant_text invalid_amount_format = codes "INV-1-invalid-amount-format"
invariant_text nonzero_completed_amount = codes "INV-2-nonzero-completed-amount"
invariant_text amount_match = codes "INV-3-amount-match"
invariant_text failed_not_settled = codes "INV-4-failed-not-settled"
invariant_text duplicate_settlement_entry = codes "INV-5-duplicate-settlement-entry"
invariant_text amount_overflow = codes "INV-5-amount-overflow"
invariant_text aggregate_conservation = codes "INV-5-aggregate-conservation"

abbrev pub is_critical : InvariantSeverity → Bool
is_critical critical = true
is_critical warning = false

-- `if (list.length > 0) findings.push(...)`.
abbrev pub finding_if_any : Text → InvariantSeverity → ℕ → List Text → List ReconciliationFinding
finding_if_any check_id severity count sample_ids =
    if ltb 0 count
    then record {
      check_id = check_id;
      severity = severity;
      count = some count;
      sample_ids = some sample_ids;
    }
      ∷ []
    else []

abbrev pub warning_finding : Text → ReconciliationFinding
warning_finding message = record {
  check_id = codes "ledger-blocks-unavailable";
  severity = warning;
  count = none;
  sample_ids = none;
}

unfoldable pub orphan_findings : OrphanedTransactionsReport → List ReconciliationFinding
orphan_findings report =
    let completed = report.completed_transactions_missing_ledger_block in
    let settled = report.settlement_ledger_blocks_missing_transaction in
    finding_if_any (codes "completed-missing-settlement") critical (length completed)
      (map (λ t. t.tx_hash) (take sample_limit completed))
    ++ (finding_if_any (codes "settlement-missing-transaction") critical (length settled)
          (map (λ b. b.tx_hash) (take sample_limit settled))
        ++ (finding_if_any (codes "unregistered-recipients") warning
              report.unregistered_recipients.count report.unregistered_recipients.sample_masked
            ++ map warning_finding report.warnings))

abbrev pub Groups : Type 0
Groups = Dict (List InvariantViolation)

-- `byId`.
unfoldable pub group_by_id : List InvariantViolation → Groups → Groups
group_by_id [] groups = groups
group_by_id (v ∷ violations) groups =
    let key = invariant_text v.invariant_id in
    group_by_id violations (set key (or_else (get key groups) [] ++ (v ∷ [])) groups)

abbrev pub sample_id : InvariantViolation → Text
sample_id v = or_else v.tx_hash (or_else v.row_id (codes "(unknown)"))

abbrev pub any_critical : List InvariantViolation → Bool
any_critical violations = any (λ v. is_critical v.severity) violations

abbrev pub group_finding : Text × List InvariantViolation → ReconciliationFinding
group_finding group = record {
  check_id = group.0;
  severity = if any_critical group.1 then critical else warning;
  count = some (length group.1);
  sample_ids = some (map sample_id (take sample_limit group.1));
}

unfoldable pub invariant_findings : LedgerBalanceReport → List ReconciliationFinding
unfolding group_by_id
invariant_findings report = map group_finding (group_by_id report.violations [])

-- What may stop a run: the database, or an amount that the balance report cannot read.
pub data RunError : Type 0 where
  database_error : DatabaseError → RunError
  amount_error : AmountError → RunError

abbrev pub read_blocks : LedgerRead → Result RunError (List LedgerBlock × List Text)
read_blocks (rows blocks) = ok (blocks, [])
read_blocks undefined_table = ok ([], ledger_blocks_missing_warning ∷ [])
read_blocks read_failed = err (database_error query_failed)

abbrev pub lift_balance :
    Result AmountError LedgerBalanceReport → Result RunError LedgerBalanceReport
lift_balance (ok report) = ok report
lift_balance (err e) = err (amount_error e)

abbrev pub lift_orphans :
    Result DatabaseError OrphanedTransactionsReport → Result RunError (List ReconciliationFinding)
unfolding orphan_findings
lift_orphans (ok report) = ok (orphan_findings report)
lift_orphans (err e) = err (database_error e)

-- The orphan check where the table was read, and a warning where it is missing.
abbrev pub cross_check :
    List Text
    → Result RunError (List ReconciliationFinding)
    → Result RunError (List ReconciliationFinding)
cross_check [] orphans = orphans
cross_check (w ∷ warnings) orphans = ok (map warning_finding (w ∷ warnings))

abbrev pub is_grave : ReconciliationFinding → Bool
is_grave finding = is_critical finding.severity

abbrev pub checks_of : List Text → List Text
checks_of [] = codes "ledger-balancing-invariants" ∷ codes "transaction-ledger-reconciliation" ∷ []
checks_of (w ∷ warnings) = codes "ledger-balancing-invariants" ∷ []

-- The run reads both tables, and the orphan check reads them again: `again` is what it then sees.
unfoldable pub run_reconciliation_dry_run :
    (List RoundBalance → List RoundBalance)
    → (List Text → List Text)
    → List TransactionRecord × LedgerRead
    → List TransactionRecord × LedgerRead
    → Result RunError ReconciliationDryRunReport
unfolding evaluate_ledger_balance check_orphaned_transactions invariant_findings orphan_findings
run_reconciliation_dry_run sort_rounds find_users (transactions, ledger) again = do
  (blocks, warnings) ← read_blocks ledger
  balance ← lift_balance (evaluate_ledger_balance sort_rounds transactions blocks)
  others ←
      cross_check warnings (lift_orphans (check_orphaned_transactions find_users again.0 again.1))
  let findings = invariant_findings balance ++ others
  ok (record {
    checks_run = checks_of warnings;
    findings = findings;
    ok_to_go = not (any is_grave findings);
  })

unfoldable pub exit_code_for_report : ReconciliationDryRunReport → ℕ
exit_code_for_report report = if report.ok_to_go then 0 else 1
