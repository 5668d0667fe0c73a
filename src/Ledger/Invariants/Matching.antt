-- ===== src/Ledger/Invariants/Matching.antt =====
-- The check of a payout against its settlement
-- (backend/src/services/ledger-invariants.ts, INV-3 and INV-4).
use split_naira.Prelude.{ℕ, ◌≡◌, refl, Text, true, [], none, some, Option, Bool-cases, inl, inr}
use split_naira.Amounts.{is_valid_amount_string}
use split_naira.Ledger.{TransactionRecord, TransactionStatus, LedgerBlock}
use split_naira.Ledger.Invariants.{
  first, Settlements, settlements_at, differs, judge_status, judge_amount, judge_primary,
  match_violation,
}
use split_naira.Ledger.Invariants.Totals.{units, to_units-units, IsValidAmount}
use split_naira.Ledger.Invariants.Checks.{
  Returns, HasValidAmount, compare_amounts-differs, clean_one, clean_none,
}

-- A payout of `paid` units whose settlement is one of `settled` units.
abbrev pub Matches : TransactionStatus → ℕ → ℕ → Type 0
Matches TransactionStatus.completed paid settled = paid ≡ settled
Matches TransactionStatus.failed paid settled = ⊥
Matches TransactionStatus.pending paid settled = Unit

abbrev pub MatchesAmount : TransactionRecord → Option Text → Type 0
MatchesAmount tx none = Unit
MatchesAmount tx (some settled) = Matches tx.status (units tx.amount) (units settled)

abbrev pub MatchesPrimary : TransactionRecord → Option LedgerBlock → Type 0
MatchesPrimary tx none = Unit
MatchesPrimary tx (some primary) = MatchesAmount tx primary.amount

abbrev pub HasValidPrimary : Option LedgerBlock → Type 0
HasValidPrimary none = Unit
HasValidPrimary (some primary) = HasValidAmount primary.amount

judge_status-Returns :
    (status : TransactionStatus) (tx : TransactionRecord) (settled : Text)
    → is_valid_amount_string tx.amount ≡ true
    → is_valid_amount_string settled ≡ true
    → Returns
        (judge_status status tx settled)
        Unit
        (Matches status (units tx.amount) (units settled))
unfolding judge_status
judge_status-Returns TransactionStatus.completed tx settled h k =
    let (order, compared, same) =
      compare_amounts-differs tx.amount settled (units tx.amount) (units settled)
        (to_units-units tx.amount h) (to_units-units settled k) in
    elim (Bool-cases (differs order)) [
      | inl apart ↦
          rw (compared, apart) (_, refl, (refl, tt), λ _. clean_one _ (λ e. cc (same.1 e, apart)))
      | inr agree ↦ rw (compared, agree) ([], refl, tt, λ _. clean_none (same.0 agree))
    ]
judge_status-Returns TransactionStatus.failed tx settled h k =
    (_, refl, (refl, tt), λ _. clean_one _ (λ no_settlement. no_settlement))
judge_status-Returns TransactionStatus.pending tx settled h k = ([], refl, tt, λ _. clean_none tt)

judge_amount-Returns :
    (tx : TransactionRecord) (amount : Option Text)
    → is_valid_amount_string tx.amount ≡ true
    → Returns (judge_amount tx amount) (HasValidAmount amount) (MatchesAmount tx amount)
unfolding judge_amount
judge_amount-Returns tx none h = ([], refl, tt, λ _. clean_none tt)
judge_amount-Returns tx (some settled) h = elim (Bool-cases (is_valid_amount_string settled)) [
  | inr bad ↦ rw (bad) ([], refl, tt, λ valid. absurd (cc (bad, valid)))
  | inl valid ↦
      let (found, judged, grave, clean) = judge_status-Returns tx.status tx settled h valid in
      rw (valid) (found, judged, grave, λ _. clean tt)
]

judge_primary-Returns :
    (tx : TransactionRecord) (primary : Option LedgerBlock)
    → is_valid_amount_string tx.amount ≡ true
    → Returns (judge_primary tx primary) (HasValidPrimary primary) (MatchesPrimary tx primary)
unfolding judge_primary
judge_primary-Returns tx none h = ([], refl, tt, λ _. clean_none tt)
judge_primary-Returns tx (some primary) h = judge_amount-Returns tx primary.amount h

pub match_violation-Returns :
    (index : Settlements) (tx : TransactionRecord)
    → Returns
        (match_violation index tx)
        (IsValidAmount tx.amount × HasValidPrimary (first (settlements_at tx.tx_hash index)))
        (MatchesPrimary tx (first (settlements_at tx.tx_hash index)))
unfolding match_violation
match_violation-Returns index tx = elim (Bool-cases (is_valid_amount_string tx.amount)) [
  | inr bad ↦ rw (bad) ([], refl, tt, λ pre. absurd (cc (bad, pre.0)))
  | inl valid ↦
      let (found, judged, grave, clean) =
        judge_primary-Returns tx (first (settlements_at tx.tx_hash index)) valid in
      rw (valid) (found, judged, grave, λ pre. clean pre.1)
]
