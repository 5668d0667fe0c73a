-- ===== src/Witnesses/LedgerTests.antt =====
-- The reports on the ledger at concrete inputs.
use split_naira.Prelude.{
  ◌+◌, ◌≤◌, ◌<◌, ◌≡◌, ◌↔◌, refl, arith, Text, codes, text_eq, text_eq_iff, Bool, ◌&&◌, List, [],
  ◌∷◌, none, some, leb→le, length, filter, ok,
}
use split_naira.Amounts.{max_amount_units, is_valid_amount_string}
use split_naira.Ledger.Invariants.Totals.{units}
use split_naira.Ledger.{TransactionRecord, TransactionStatus, LedgerBlock, settlement, milestone}
use split_naira.Ledger.Orphans.{includes, find_existing_wallet_addresses}
use split_naira.Ledger.Orphans.Wallets.{find_existing_wallet_addresses_complete}
use split_naira.Ledger.Aging.{
  default_aging_thresholds, fresh, warning, critical, classify_age, PendingTransactionAgingReport,
  build_pending_transaction_aging_report, aging_exit_code,
}
use mathlib.Core.List.{Perm}
use split_naira.Ledger.Aging.Listed.{critical_entries}
use split_naira.Ledger.Aging.Buckets.{count_in, sum_in}
use split_naira.Ledger.Aging.Report.{IsTallied, build_pending_transaction_aging_report-IsTallied}

abbrev paid : TransactionRecord
paid = record {
  id = codes "t1";
  round_id = codes "r1";
  recipient = codes "GALICE";
  amount = codes "10.5";
  timestamp = 1000;
  tx_hash = codes "h1";
  status = TransactionStatus.completed;
}

abbrev open_payout : TransactionRecord
open_payout = record paid {
  id = codes "t2";
  tx_hash = codes "h2";
  status = TransactionStatus.pending;
}

abbrev settled : LedgerBlock
settled = record {
  id = codes "b1";
  ledger_seq = 7;
  tx_hash = codes "h1";
  block_type = settlement;
  project_id = none;
  recipient = some (codes "GALICE");
  amount = some (codes "10.50");
}

abbrev payouts : List TransactionRecord
payouts = paid ∷ open_payout ∷ []

abbrev blocks : List LedgerBlock
blocks = settled ∷ record settled { id = codes "b2"; block_type = milestone } ∷ []

abbrev is_alice : Text → Bool
is_alice a = text_eq a (codes "GALICE")

answers :
    (a : Text) (chunk : List Text)
    → includes a (filter is_alice chunk) ≡ (includes a chunk && is_alice a)
answers a [] = refl
answers a (x ∷ xs) = ground (arith, answers a xs, text_eq_iff x a)

find_existing_wallet_addresses_complete_example :
    includes
      (codes "GALICE")
      (find_existing_wallet_addresses (filter is_alice) 2 (codes "GBOB" ∷ codes "GALICE" ∷ []) [])
    ≡ (includes (codes "GALICE") (codes "GBOB" ∷ codes "GALICE" ∷ []) && is_alice (codes "GALICE"))
find_existing_wallet_addresses_complete_example =
    find_existing_wallet_addresses_complete (filter is_alice) is_alice answers
      (codes "GBOB" ∷ codes "GALICE" ∷ []) (codes "GALICE")

abbrev pending : List TransactionRecord
pending = open_payout ∷ record open_payout { timestamp = 399000 } ∷ []

fresh_fits : sum_in default_aging_thresholds fresh 400000000 pending ≤ max_amount_units
unfolding units classify_age is_valid_amount_string
fresh_fits = leb→le _ _ refl

warning_fits : sum_in default_aging_thresholds warning 400000000 pending ≤ max_amount_units
unfolding units classify_age is_valid_amount_string
warning_fits = leb→le _ _ refl

critical_fits : sum_in default_aging_thresholds critical 400000000 pending ≤ max_amount_units
unfolding units classify_age is_valid_amount_string
critical_fits = leb→le _ _ refl

build_pending_transaction_aging_report-IsTallied_example :
    (report : PendingTransactionAgingReport) × (build_pending_transaction_aging_report
        default_aging_thresholds 400000000 pending
      ≡ ok report)
    × IsTallied default_aging_thresholds 400000000 pending report fresh
    × IsTallied default_aging_thresholds 400000000 pending report warning
    × IsTallied default_aging_thresholds 400000000 pending report critical
    × ((report.buckets fresh).count
          + ((report.buckets warning).count + (report.buckets critical).count)
        ≡ report.total_pending)
    × (report.total_pending ≡ length pending)
    × Perm report.critical_transactions
        (critical_entries default_aging_thresholds 400000000 pending)
    × ((aging_exit_code report ≡ 1)
        ↔ (0 < count_in default_aging_thresholds critical 400000000 pending))
build_pending_transaction_aging_report-IsTallied_example =
    build_pending_transaction_aging_report-IsTallied default_aging_thresholds 400000000 pending
      fresh_fits warning_fits critical_fits
