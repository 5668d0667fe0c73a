-- ===== src/Ledger/Aging/Report.antt =====
-- The report on pending payouts (backend/src/scripts/pending-transaction-aging-report.ts) as a whole.
use mathlib.Core.List.{Perm}
use split_naira.Prelude.{
  ℕ, ◌+◌, ◌≤◌, ◌<◌, ◌≡◌, ◌↔◌, refl, List, ltb, if◌then◌else◌, length, arith, ok,
}
use split_naira.Amounts.{max_amount_units, to_units}
use split_naira.Ledger.{TransactionRecord}
use split_naira.Ledger.Aging.{
  AgingThresholds, AgingBucketName, fresh, warning, critical, PendingTransactionAgingReport,
  build_pending_transaction_aging_report, aging_exit_code,
}
use split_naira.Ledger.Aging.Listed.{critical_entries, sorted-critical_entries}
use split_naira.Ledger.Aging.Buckets.{
  count_in, sum_in, filled-count, filled-total, counts_partition,
}

exit_of : ℕ → ℕ
exit_of count = if ltb 0 count then 1 else 0

exit_iff : (count n : ℕ) → count ≡ n → (exit_of count ≡ 1) ↔ (0 < n)
unfolding exit_of
exit_iff count n h = ground arith

-- A bucket of the report counts the payouts whose age is in it, with the exact sum of their units.
abbrev pub IsTallied :
    AgingThresholds
    → ℕ
    → List TransactionRecord
    → PendingTransactionAgingReport
    → AgingBucketName
    → Type 0
IsTallied thresholds now_ms txs report name =
    ((report.buckets name).count ≡ count_in thresholds name now_ms txs)
    × (to_units (report.totals name) ≡ ok (sum_in thresholds name now_ms txs))

-- Where the units of each bucket sum up to an amount in range, the report is made: each bucket counts
-- the payouts whose age in whole seconds is in it, from its threshold on and below the next, and has
-- the exact sum of their valid amounts; the three counts add up to the number of payouts; the critical
-- list has the entry of each payout of a critical age, in some order, and no other; and the exit code
-- is 1 exactly if there are any.
pub build_pending_transaction_aging_report-IsTallied :
    (thresholds : AgingThresholds) (now_ms : ℕ) (txs : List TransactionRecord)
    → sum_in thresholds fresh now_ms txs ≤ max_amount_units
    → sum_in thresholds warning now_ms txs ≤ max_amount_units
    → sum_in thresholds critical now_ms txs ≤ max_amount_units
    → (report : PendingTransactionAgingReport) × (build_pending_transaction_aging_report thresholds
          now_ms txs
        ≡ ok report)
      × IsTallied thresholds now_ms txs report fresh
      × IsTallied thresholds now_ms txs report warning
      × IsTallied thresholds now_ms txs report critical
      × ((report.buckets fresh).count
            + ((report.buckets warning).count + (report.buckets critical).count)
          ≡ report.total_pending)
      × (report.total_pending ≡ length txs)
      × Perm report.critical_transactions (critical_entries thresholds now_ms txs)
      × ((aging_exit_code report ≡ 1) ↔ (0 < count_in thresholds critical now_ms txs))
unfolding build_pending_transaction_aging_report aging_exit_code exit_of
build_pending_transaction_aging_report-IsTallied thresholds now_ms txs fits_a fits_b fits_c =
    let (text_a, made_a, again_a) = filled-total thresholds fresh now_ms txs fits_a in
    let (text_b, made_b, again_b) = filled-total thresholds warning now_ms txs fits_b in
    let (text_c, made_c, again_c) = filled-total thresholds critical now_ms txs fits_c in
    let count_a = filled-count thresholds fresh now_ms txs in
    let count_b = filled-count thresholds warning now_ms txs in
    let count_c = filled-count thresholds critical now_ms txs in
    rw (made_a, made_b, made_c)
      (
        _,
        refl,
        (count_a, again_a),
        (count_b, again_b),
        (count_c, again_c),
        omega (arith, count_a, count_b, count_c, counts_partition thresholds now_ms txs),
        refl,
        sorted-critical_entries thresholds now_ms txs,
        exit_iff _ _ count_c,
      )
