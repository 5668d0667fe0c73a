-- ===== src/Ledger/Aging/Buckets.antt =====
-- The buckets of the report on pending payouts
-- (backend/src/scripts/pending-transaction-aging-report.ts) against the rows.
use split_naira.Prelude.{
  ℕ, ◌+◌, ◌-◌, ◌*◌, ◌/◌, ◌&&◌, leb, ltb, ◌≤◌, ◌≡◌, refl, ap, ◌∙◌, Text, Bool, List, [], ◌∷◌, map,
  if◌then◌else◌, length, sum_by, arith, All, All-append, Bool-cases, inl, inr, ok,
}
use split_naira.Amounts.{max_amount_units, is_valid_amount_string, to_units, sum_amounts}
use split_naira.Amounts.Arithmetic.{total, sum_amounts-IsExact}
use split_naira.Ledger.{TransactionRecord}
use split_naira.Ledger.Invariants.Totals.{units, UnitsOf-All, IsValidAmount, total-append}
use split_naira.Ledger.Aging.{
  AgingThresholds, AgingBucketName, fresh, warning, critical, classify_age, AgingBucket, Buckets,
  empty_bucket, same_bucket, Aged, age_of, insert_aged, sort_aged, add_to_bucket, fill_buckets,
  critical_of,
}

sum_by-insert_aged :
    (f : Aged → ℕ) (aged : Aged) (others : List Aged)
    → sum_by f (insert_aged aged others) ≡ f aged + sum_by f others
unfolding insert_aged
sum_by-insert_aged f aged [] = refl
sum_by-insert_aged f aged (other ∷ others) = ground (arith, sum_by-insert_aged f aged others)

pub sum_by-sort_aged : (f : Aged → ℕ) (aged : List Aged) → sum_by f (sort_aged aged) ≡ sum_by f aged
unfolding sort_aged
sum_by-sort_aged f [] = refl
sum_by-sort_aged f (aged ∷ others) =
    omega (arith, sum_by-insert_aged f aged (sort_aged others), sum_by-sort_aged f others)

pub sum_by-map :
    (f : Aged → ℕ) (now_ms : ℕ) (txs : List TransactionRecord)
    → sum_by f (map (age_of now_ms) txs) ≡ sum_by (λ tx. f (age_of now_ms tx)) txs
sum_by-map f now_ms [] = refl
sum_by-map f now_ms (tx ∷ txs) = ap (λ n. f (age_of now_ms tx) + n) (sum_by-map f now_ms txs)

-- Whether an age in seconds is in a bucket: from its threshold in hours on, and below that of the next.
abbrev pub falls : AgingThresholds → AgingBucketName → ℕ → Bool
falls thresholds critical age = leb (thresholds.critical_hours * 3600) age
falls thresholds warning age =
    leb (thresholds.warning_hours * 3600) age && ltb age (thresholds.critical_hours * 3600)
falls thresholds fresh age =
    ltb age (thresholds.warning_hours * 3600) && ltb age (thresholds.critical_hours * 3600)

pub classify_age-falls :
    (thresholds : AgingThresholds) (name : AgingBucketName) (age : ℕ)
    → same_bucket (classify_age age thresholds) name ≡ falls thresholds name age
unfolding classify_age
classify_age-falls thresholds fresh age = ground arith
classify_age-falls thresholds warning age = ground arith
classify_age-falls thresholds critical age = ground arith

module _ (thresholds : AgingThresholds) (name : AgingBucketName) where
  abbrev pub is_in : Aged → Bool
  is_in aged = same_bucket (classify_age aged.1 thresholds) name

  abbrev pub one_in : Aged → ℕ
  one_in aged = if is_in aged then 1 else 0

  abbrev pub units_in : Aged → ℕ
  units_in aged = if is_in aged then units aged.0.amount else 0

  fill_buckets-count :
      (aged : List Aged) (buckets : Buckets)
      → (fill_buckets thresholds aged buckets name).count
        ≡ (buckets name).count + sum_by one_in aged
  unfolding fill_buckets add_to_bucket
  fill_buckets-count [] buckets = omega arith
  fill_buckets-count (first ∷ others) buckets = elim (Bool-cases (is_in first)) [
    | inl here ↦ rw (fill_buckets-count others _, here) (omega arith)
    | inr there ↦ rw (fill_buckets-count others _, there) (omega arith)
  ]

  add_to_bucket-AllValid :
      (aged : Aged) (bucket : AgingBucket)
      → All IsValidAmount bucket.amounts
      → All IsValidAmount (add_to_bucket aged bucket).amounts
  unfolding add_to_bucket
  add_to_bucket-AllValid (tx, age) bucket h = elim (Bool-cases (is_valid_amount_string tx.amount)) [
    | inl valid ↦
        rw (valid) (All-append IsValidAmount bucket.amounts (tx.amount ∷ []) h (valid, tt))
    | inr bad ↦ rw (bad) h
  ]

  fill_buckets-AllValid :
      (aged : List Aged) (buckets : Buckets)
      → All IsValidAmount (buckets name).amounts
      → All IsValidAmount (fill_buckets thresholds aged buckets name).amounts
  unfolding fill_buckets
  fill_buckets-AllValid [] buckets h = h
  fill_buckets-AllValid (first ∷ others) buckets h =
      fill_buckets-AllValid others _ (elim (Bool-cases (is_in first)) [
        | inl here ↦ rw (here) (add_to_bucket-AllValid first (buckets name) h)
        | inr there ↦ rw (there) h
      ])

  add_to_bucket-units :
      (aged : Aged) (bucket : AgingBucket)
      → total (map units (add_to_bucket aged bucket).amounts)
        ≡ total (map units bucket.amounts) + units aged.0.amount
  unfolding add_to_bucket units
  add_to_bucket-units (tx, age) bucket = elim (Bool-cases (is_valid_amount_string tx.amount)) [
    | inl valid ↦ rw (valid) (total-append bucket.amounts (tx.amount ∷ []) ∙ rw (valid) omega arith)
    | inr bad ↦ rw (bad) (omega arith)
  ]

  fill_buckets-units :
      (aged : List Aged) (buckets : Buckets)
      → total (map units (fill_buckets thresholds aged buckets name).amounts)
        ≡ total (map units (buckets name).amounts) + sum_by units_in aged
  unfolding fill_buckets
  fill_buckets-units [] buckets = omega arith
  fill_buckets-units (first ∷ others) buckets = elim (Bool-cases (is_in first)) [
    | inl here ↦
        rw (fill_buckets-units others _, here) omega
          (arith, add_to_bucket-units first (buckets name))
    | inr there ↦ rw (fill_buckets-units others _, there) (omega arith)
  ]

  -- The pending payouts whose age is in the bucket at a time in milliseconds, and their units.
  abbrev pub is_aged : ℕ → TransactionRecord → Bool
  is_aged now_ms tx = falls thresholds name (now_ms / 1000 - tx.timestamp)

  abbrev pub count_in : ℕ → List TransactionRecord → ℕ
  count_in now_ms txs = sum_by (λ tx. if is_aged now_ms tx then 1 else 0) txs

  abbrev pub sum_in : ℕ → List TransactionRecord → ℕ
  sum_in now_ms txs = sum_by (λ tx. if is_aged now_ms tx then units tx.amount else 0) txs

  pub count_by_class :
      (now_ms : ℕ) (txs : List TransactionRecord)
      → sum_by (λ tx. one_in (age_of now_ms tx)) txs ≡ count_in now_ms txs
  count_by_class now_ms [] = refl
  count_by_class now_ms (tx ∷ txs) =
      let same =
        ap {B = ℕ} (λ b. if b then 1 else 0)
          (classify_age-falls thresholds name (now_ms / 1000 - tx.timestamp)) in
      omega (arith, same, count_by_class now_ms txs)

  sum_by_class :
      (now_ms : ℕ) (txs : List TransactionRecord)
      → sum_by (λ tx. units_in (age_of now_ms tx)) txs ≡ sum_in now_ms txs
  sum_by_class now_ms [] = refl
  sum_by_class now_ms (tx ∷ txs) =
      let same =
        ap (λ b. if b then units tx.amount else 0)
          (classify_age-falls thresholds name (now_ms / 1000 - tx.timestamp)) in
      omega (arith, same, sum_by_class now_ms txs)

  abbrev pub filled : ℕ → List TransactionRecord → AgingBucket
  filled now_ms txs =
      fill_buckets thresholds (sort_aged (map (age_of now_ms) txs)) (λ _. empty_bucket) name

  pub filled-count :
      (now_ms : ℕ) (txs : List TransactionRecord) → (filled now_ms txs).count ≡ count_in now_ms txs
  filled-count now_ms txs = omega (
    arith,
    fill_buckets-count (sort_aged (map (age_of now_ms) txs)) (λ _. empty_bucket),
    sum_by-sort_aged one_in (map (age_of now_ms) txs),
    sum_by-map one_in now_ms txs,
    count_by_class now_ms txs,
  )

  filled-units :
      (now_ms : ℕ) (txs : List TransactionRecord)
      → total (map units (filled now_ms txs).amounts) ≡ sum_in now_ms txs
  filled-units now_ms txs = omega (
    arith,
    fill_buckets-units (sort_aged (map (age_of now_ms) txs)) (λ _. empty_bucket),
    sum_by-sort_aged units_in (map (age_of now_ms) txs),
    sum_by-map units_in now_ms txs,
    sum_by_class now_ms txs,
  )

  pub filled-total :
      (now_ms : ℕ) (txs : List TransactionRecord)
      → sum_in now_ms txs ≤ max_amount_units
      → (text : Text) × (sum_amounts (filled now_ms txs).amounts ≡ ok text)
        × (to_units text ≡ ok (sum_in now_ms txs))
  filled-total now_ms txs fits =
      let amounts = (filled now_ms txs).amounts in
      let summed = filled-units now_ms txs in
      elim (sum_amounts-IsExact amounts (map units amounts) (
        UnitsOf-All amounts
          (fill_buckets-AllValid (sort_aged (map (age_of now_ms) txs)) (λ _. empty_bucket) tt))) [
            | inl (_, (text, made, again)) ↦ (text, made, again ∙ ap ok summed)
            | inr (over, _) ↦ absurd (omega (arith, over, summed, fits))
          ]

pub length-critical_of :
    (thresholds : AgingThresholds) (aged : List Aged)
    → length (critical_of thresholds aged) ≡ sum_by (one_in thresholds critical) aged
unfolding critical_of
length-critical_of thresholds [] = refl
length-critical_of thresholds (first ∷ others) =
    ground (arith, length-critical_of thresholds others)

one_each :
    (thresholds : AgingThresholds) (aged : Aged)
    → one_in thresholds fresh aged
        + (one_in thresholds warning aged + one_in thresholds critical aged)
      ≡ 1
unfolding classify_age
one_each thresholds aged = ground arith

partition_by_class :
    (thresholds : AgingThresholds) (now_ms : ℕ) (txs : List TransactionRecord)
    → sum_by (λ tx. one_in thresholds fresh (age_of now_ms tx)) txs
        + (sum_by (λ tx. one_in thresholds warning (age_of now_ms tx)) txs
            + sum_by (λ tx. one_in thresholds critical (age_of now_ms tx)) txs)
      ≡ length txs
partition_by_class thresholds now_ms [] = refl
partition_by_class thresholds now_ms (tx ∷ txs) =
    omega (arith, one_each thresholds (age_of now_ms tx), partition_by_class thresholds now_ms txs)

pub counts_partition :
    (thresholds : AgingThresholds) (now_ms : ℕ) (txs : List TransactionRecord)
    → count_in thresholds fresh now_ms txs
        + (count_in thresholds warning now_ms txs + count_in thresholds critical now_ms txs)
      ≡ length txs
counts_partition thresholds now_ms txs = omega (
  arith,
  partition_by_class thresholds now_ms txs,
  count_by_class thresholds fresh now_ms txs,
  count_by_class thresholds warning now_ms txs,
  count_by_class thresholds critical now_ms txs,
)
