-- ===== src/Ledger/Aging/Listed.antt =====
-- The critical payouts that the report lists
-- (backend/src/scripts/pending-transaction-aging-report.ts) against the rows.
use mathlib.Core.List.{Perm}
use mathlib.Core.List.Perm
use split_naira.Prelude.{
  ℕ, ◌-◌, ◌/◌, ◌≡◌, refl, ap, subst, Bool, List, [], ◌∷◌, map, filter, none, some, leb,
  if◌then◌else◌, Bool-cases, inl, inr,
}
use split_naira.Amounts.{is_valid_amount_string}
use split_naira.Ledger.{TransactionRecord}
use split_naira.Ledger.Orphans.{mask_wallet_address}
use split_naira.Ledger.Aging.{
  AgingThresholds, critical, StuckTransactionSummary, Aged, age_of, insert_aged, sort_aged,
  summarise, critical_of,
}
use split_naira.Ledger.Aging.Buckets.{is_in, is_aged, classify_age-falls}

-- The entry of a payout: its keys, the masked recipient, the age in seconds, and a valid amount.
pub entry_of : ℕ → TransactionRecord → StuckTransactionSummary
entry_of now_ms tx = record {
  id = tx.id;
  tx_hash = tx.tx_hash;
  round_id = tx.round_id;
  recipient_masked = mask_wallet_address tx.recipient;
  age_seconds = now_ms / 1000 - tx.timestamp;
  amount = if is_valid_amount_string tx.amount then some tx.amount else none;
}

module _ (thresholds : AgingThresholds) where
  abbrev is_critical : Aged → Bool
  is_critical = is_in thresholds critical

  listed_first :
      (aged : Aged) (l m : List Aged)
      → Perm (critical_of thresholds l) (critical_of thresholds m)
      → Perm (critical_of thresholds (aged ∷ l)) (critical_of thresholds (aged ∷ m))
  unfolding critical_of
  listed_first aged l m p = elim (Bool-cases (is_critical aged)) [
    | inl here ↦ rw (here) (Perm.cons (summarise aged) p)
    | inr there ↦ rw (there) p
  ]

  listed_swap :
      (a b : Aged) (l : List Aged)
      → Perm (critical_of thresholds (b ∷ a ∷ l)) (critical_of thresholds (a ∷ b ∷ l))
  unfolding critical_of
  listed_swap a b l = elim (Bool-cases (is_critical a)) [
    | inl a_in ↦ elim (Bool-cases (is_critical b)) [
      | inl b_in ↦
          rw (a_in, b_in) (Perm.swap (summarise a) (summarise b) (critical_of thresholds l))
      | inr b_out ↦ rw (a_in, b_out) (Perm.refl (summarise a ∷ critical_of thresholds l))
    ]
    | inr a_out ↦ elim (Bool-cases (is_critical b)) [
      | inl b_in ↦ rw (a_out, b_in) (Perm.refl (summarise b ∷ critical_of thresholds l))
      | inr b_out ↦ rw (a_out, b_out) (Perm.refl (critical_of thresholds l))
    ]
  ]

  listed_inserted :
      (aged : Aged) (l : List Aged)
      → Perm (critical_of thresholds (insert_aged aged l)) (critical_of thresholds (aged ∷ l))
  unfolding insert_aged
  listed_inserted aged [] = Perm.refl (critical_of thresholds (aged ∷ []))
  listed_inserted aged (other ∷ l) = elim (Bool-cases (leb other.1 aged.1)) [
    | inl older ↦ rw (older) (Perm.refl (critical_of thresholds (aged ∷ other ∷ l)))
    | inr younger ↦ rw (younger) (
        Perm.trans (listed_first other (insert_aged aged l) (aged ∷ l) (listed_inserted aged l))
          (listed_swap aged other l))
  ]

  listed_sorted :
      (l : List Aged) → Perm (critical_of thresholds (sort_aged l)) (critical_of thresholds l)
  unfolding sort_aged
  listed_sorted [] = Perm.refl (critical_of thresholds [])
  listed_sorted (aged ∷ l) =
      Perm.trans (listed_inserted aged (sort_aged l))
        (listed_first aged (sort_aged l) l (listed_sorted l))

  -- The entries of the payouts whose age is critical, in the order of the rows.
  abbrev pub critical_entries : ℕ → List TransactionRecord → List StuckTransactionSummary
  critical_entries now_ms txs =
      map (entry_of now_ms) (filter (is_aged thresholds critical now_ms) txs)

  critical_of-entries :
      (now_ms : ℕ) (txs : List TransactionRecord)
      → critical_of thresholds (map (age_of now_ms) txs) ≡ critical_entries now_ms txs
  unfolding critical_of entry_of summarise
  critical_of-entries now_ms [] = refl
  critical_of-entries now_ms (tx ∷ txs) =
      let same = classify_age-falls thresholds critical (now_ms / 1000 - tx.timestamp) in
      let rest = critical_of-entries now_ms txs in
      elim (Bool-cases (is_aged thresholds critical now_ms tx)) [
        | inl here ↦ rw (same, here) (ap (λ l. entry_of now_ms tx ∷ l) rest)
        | inr there ↦ rw (same, there) rest
      ]

  pub sorted-critical_entries :
      (now_ms : ℕ) (txs : List TransactionRecord)
      → Perm
          (critical_of thresholds (sort_aged (map (age_of now_ms) txs)))
          (critical_entries now_ms txs)
  sorted-critical_entries now_ms txs =
      subst (Perm (critical_of thresholds (sort_aged (map (age_of now_ms) txs))))
        (critical_of-entries now_ms txs) (listed_sorted (map (age_of now_ms) txs))
