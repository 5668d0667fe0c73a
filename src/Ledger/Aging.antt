-- ===== src/Ledger/Aging.antt =====
-- The report on payouts that stay pending (backend/src/scripts/pending-transaction-aging-report.ts).
-- Thresholds are whole numbers of hours; ages are kept in seconds, of which the source shows
-- 1/3600th parts.
pub mod Buckets
pub mod Listed
pub mod Report
use split_naira.Prelude.{
  ℕ, ◌+◌, ◌-◌, ◌*◌, ◌/◌, Text, is_empty, Bool, true, false, List, [], ◌∷◌, ◌++◌, map, Option, none,
  some, ltb, leb, if◌then◌else◌, length, Result, ok, err, ◌>>=◌, ◌>>◌, guard,
}
use split_naira.Prelude.Int.{ℤ, pos, negsuc, is_positive}
use split_naira.Amounts.{AmountError, is_valid_amount_string, sum_amounts}
use split_naira.Ledger.{TransactionRecord}
use split_naira.Ledger.Orphans.{mask_wallet_address}

pub record AgingThresholds : Type 0 where
  pub warning_hours : ℕ
  pub critical_hours : ℕ

abbrev pub default_aging_thresholds : AgingThresholds
default_aging_thresholds = record { warning_hours = 24; critical_hours = 72 }

pub data ThresholdConfigurationError : Type 0 where
  not_positive not_increasing : ThresholdConfigurationError

abbrev pub positive_hours : Option ℤ → Result ThresholdConfigurationError ℕ
positive_hours none = err not_positive
positive_hours (some (pos n)) = if ltb 0 n then ok n else err not_positive
positive_hours (some (negsuc n)) = err not_positive

-- `number_of` stands for JavaScript's reading of a text as a number, none where it is not finite.
unfoldable pub parse_hours :
    (Text → Option ℤ) → Option Text → ℕ → Result ThresholdConfigurationError ℕ
parse_hours number_of none fallback = ok fallback
parse_hours number_of (some raw) fallback =
    if is_empty raw then ok fallback else positive_hours (number_of raw)

unfoldable pub resolve_aging_thresholds :
    (Text → Option ℤ)
    → Option Text
    → Option Text
    → Result ThresholdConfigurationError AgingThresholds
unfolding parse_hours
resolve_aging_thresholds number_of warning_raw critical_raw = do
  warning_hours ← parse_hours number_of warning_raw default_aging_thresholds.warning_hours
  critical_hours ← parse_hours number_of critical_raw default_aging_thresholds.critical_hours
  guard (ltb warning_hours critical_hours) not_increasing
  ok (record { warning_hours = warning_hours; critical_hours = critical_hours })

pub data AgingBucketName : Type 0 where
  fresh warning critical : AgingBucketName

unfoldable pub classify_age : ℕ → AgingThresholds → AgingBucketName
classify_age age_seconds thresholds =
    if leb (thresholds.critical_hours * 3600) age_seconds
    then critical
    else if leb (thresholds.warning_hours * 3600) age_seconds
    then warning
    else fresh

pub record AgingBucket : Type 0 where
  pub count : ℕ
  pub oldest_age_seconds : ℕ
  pub amounts : List Text
  pub sample_recipients_masked : List Text

pub record StuckTransactionSummary : Type 0 where
  pub id : Text
  pub tx_hash : Text
  pub round_id : Text
  pub recipient_masked : Text
  pub age_seconds : ℕ
  pub amount : Option Text

abbrev pub Buckets : Type 0
Buckets = AgingBucketName → AgingBucket

abbrev pub empty_bucket : AgingBucket
empty_bucket = record {
  count = 0;
  oldest_age_seconds = 0;
  amounts = [];
  sample_recipients_masked = [];
}

abbrev pub same_bucket : AgingBucketName → AgingBucketName → Bool
same_bucket fresh fresh = true
same_bucket warning warning = true
same_bucket critical critical = true
same_bucket _ _ = false

abbrev pub Aged : Type 0
Aged = TransactionRecord × ℕ

-- `Math.max(0, Math.floor(nowMs / 1000) - timestamp)`.
abbrev pub age_of : ℕ → TransactionRecord → Aged
age_of now_ms tx = (tx, now_ms / 1000 - tx.timestamp)

-- The stable sort that puts the oldest first.
unfoldable pub insert_aged : Aged → List Aged → List Aged
insert_aged aged [] = aged ∷ []
insert_aged aged (other ∷ others) =
    let rest = insert_aged aged others in
    if leb other.1 aged.1 then aged ∷ other ∷ others else other ∷ rest

unfoldable pub sort_aged : List Aged → List Aged
unfolding insert_aged
sort_aged [] = []
sort_aged (aged ∷ others) = insert_aged aged (sort_aged others)

abbrev pub sample_limit : ℕ
sample_limit = 5

unfoldable pub add_to_bucket : Aged → AgingBucket → AgingBucket
unfolding mask_wallet_address
add_to_bucket (tx, age) bucket = record {
  count = bucket.count + 1;
  oldest_age_seconds = if ltb bucket.oldest_age_seconds age then age else bucket.oldest_age_seconds;
  amounts =
      if is_valid_amount_string tx.amount
      then bucket.amounts ++ (tx.amount ∷ [])
      else bucket.amounts;
  sample_recipients_masked =
      if ltb (length bucket.sample_recipients_masked) sample_limit
      then bucket.sample_recipients_masked ++ (mask_wallet_address tx.recipient ∷ [])
      else bucket.sample_recipients_masked;
}

unfoldable pub fill_buckets : AgingThresholds → List Aged → Buckets → Buckets
unfolding classify_age add_to_bucket
fill_buckets thresholds [] buckets = buckets
fill_buckets thresholds (aged ∷ others) buckets = fill_buckets thresholds others (λ name.
    if same_bucket (classify_age aged.1 thresholds) name
    then add_to_bucket aged (buckets name)
    else buckets name)

abbrev pub summarise : Aged → StuckTransactionSummary
unfolding mask_wallet_address
summarise (tx, age) = record {
  id = tx.id;
  tx_hash = tx.tx_hash;
  round_id = tx.round_id;
  recipient_masked = mask_wallet_address tx.recipient;
  age_seconds = age;
  amount = if is_valid_amount_string tx.amount then some tx.amount else none;
}

unfoldable pub critical_of : AgingThresholds → List Aged → List StuckTransactionSummary
unfolding classify_age
critical_of thresholds [] = []
critical_of thresholds (aged ∷ others) =
    let rest = critical_of thresholds others in
    if same_bucket (classify_age aged.1 thresholds) critical then summarise aged ∷ rest else rest

-- The warnings of the report are left out.
pub record PendingTransactionAgingReport : Type 0 where
  pub thresholds : AgingThresholds
  pub total_pending : ℕ
  pub buckets : Buckets
  pub totals : AgingBucketName → Text
  pub critical_transactions : List StuckTransactionSummary

abbrev pub total_texts : Text → Text → Text → AgingBucketName → Text
total_texts a b c fresh = a
total_texts a b c warning = b
total_texts a b c critical = c

unfoldable pub build_pending_transaction_aging_report :
    AgingThresholds → ℕ → List TransactionRecord → Result AmountError PendingTransactionAgingReport
unfolding sort_aged fill_buckets critical_of sum_amounts
build_pending_transaction_aging_report thresholds now_ms pending = do
  let aged = sort_aged (map (age_of now_ms) pending)
  let buckets = fill_buckets thresholds aged (λ name. empty_bucket)
  fresh_total ← sum_amounts (buckets fresh).amounts
  warning_total ← sum_amounts (buckets warning).amounts
  critical_total ← sum_amounts (buckets critical).amounts
  ok (record {
    thresholds = thresholds;
    total_pending = length pending;
    buckets = buckets;
    totals = total_texts fresh_total warning_total critical_total;
    critical_transactions = critical_of thresholds aged;
  })

unfoldable pub aging_exit_code : PendingTransactionAgingReport → ℕ
aging_exit_code report = if ltb 0 (report.buckets critical).count then 1 else 0
