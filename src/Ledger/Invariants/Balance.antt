-- ===== src/Ledger/Invariants/Balance.antt =====
-- The rounds, the totals and the report of `evaluateLedgerBalance`
-- (backend/src/services/ledger-invariants.ts).
use split_naira.Prelude.{
  ℕ, ◌+◌, Text, Bool, true, false, ◌&&◌, List, [], ◌∷◌, ◌++◌, Option, none, some, if◌then◌else◌,
  or_else, length, filter, find, is_empty, text_eq, Result, ok, err, ◌>>=◌,
}
use split_naira.Prelude.Dict.{Dict, get, set, values}
use split_naira.Amounts.{AmountError, is_valid_amount_string, sum_amounts, add_amounts}
use split_naira.Ledger.{TransactionRecord, LedgerBlock, is_completed}
use split_naira.Ledger.Invariants.{
  InvariantViolation, Settlements, aggregate_violation, check_each, collect, completed_amounts,
  duplicate_violation, index_settlements, invalid_block, invalid_tx, match_violation,
  primary_amount, settled_amounts, total_or_overflow, zero_text, zero_violation,
}

pub record RoundBalance : Type 0 where
  pub round_id : Text
  pub completed_total : Text
  pub settled_total : Text
  pub completed_count : ℕ
  pub settled_count : ℕ

abbrev pub new_round : Text → RoundBalance
new_round round_id = record {
  round_id = round_id;
  completed_total = zero_text;
  settled_total = zero_text;
  completed_count = 0;
  settled_count = 0;
}

-- A round whose total would overflow keeps it.
unfoldable pub add_or_keep : Text → Text → Text
add_or_keep total amount = elim (add_amounts total amount) [ ok sum ↦ sum | err _ ↦ total ]

unfoldable pub count_completed : TransactionRecord → RoundBalance → RoundBalance
unfolding add_or_keep
count_completed tx round =
    if is_completed tx && is_valid_amount_string tx.amount
    then record round {
      completed_count = round.completed_count + 1;
      completed_total = add_or_keep round.completed_total tx.amount;
    }
    else round

unfoldable pub count_settled : Text → RoundBalance → RoundBalance
unfolding add_or_keep
count_settled amount round = record round {
  settled_count = round.settled_count + 1;
  settled_total = add_or_keep round.settled_total amount;
}

abbrev pub round_at : Text → Dict RoundBalance → RoundBalance
round_at round_id rounds = or_else (get round_id rounds) (new_round round_id)

unfoldable pub completed_rounds : List TransactionRecord → Dict RoundBalance → Dict RoundBalance
unfolding count_completed
completed_rounds [] rounds = rounds
completed_rounds (tx ∷ transactions) rounds =
    completed_rounds transactions
      (set tx.round_id (count_completed tx (round_at tx.round_id rounds)) rounds)

-- A settlement without a transaction, and one whose round is the empty text, are passed over.
abbrev pub settle_round :
    Option TransactionRecord → List Text → Dict RoundBalance → Dict RoundBalance
settle_round none amounts rounds = rounds
settle_round (some tx) [] rounds = rounds
settle_round (some tx) (amount ∷ _) rounds =
    if is_empty tx.round_id
    then rounds
    else set tx.round_id (count_settled amount (round_at tx.round_id rounds)) rounds

unfoldable pub settled_rounds :
    List TransactionRecord → Settlements → Dict RoundBalance → Dict RoundBalance
unfolding count_settled
settled_rounds transactions [] rounds = rounds
settled_rounds transactions ((tx_hash, blocks) ∷ index) rounds = settled_rounds transactions index (
    settle_round (find (λ tx. text_eq tx.tx_hash tx_hash) transactions) (primary_amount blocks)
      rounds)

pub record BalanceTotals : Type 0 where
  pub transaction_count : ℕ
  pub settlement_count : ℕ
  pub completed_total : Text
  pub settled_total : Text

pub record LedgerBalanceReport : Type 0 where
  pub balanced : Bool
  pub violations : List InvariantViolation
  pub rounds : List RoundBalance
  pub totals : BalanceTotals

abbrev pub no_violations : List InvariantViolation → Bool
no_violations [] = true
no_violations (_ ∷ _) = false

unfoldable pub violations_of :
    List TransactionRecord → List LedgerBlock → Result AmountError (List InvariantViolation)
unfolding index_settlements zero_violation match_violation completed_amounts settled_amounts
    total_or_overflow aggregate_violation
violations_of transactions ledger_blocks = do
  let index = index_settlements ledger_blocks []
  let completed = total_or_overflow (completed_amounts transactions)
  let settled = total_or_overflow (settled_amounts index)
  zeros ← check_each zero_violation (filter is_completed transactions)
  mismatches ← check_each (match_violation index) transactions
  aggregate ← aggregate_violation completed.0 settled.0
  ok (
      collect duplicate_violation index
      ++ (collect invalid_tx transactions
          ++ (collect invalid_block ledger_blocks
              ++ (zeros ++ (mismatches ++ (completed.1 ++ (settled.1 ++ aggregate)))))))

-- `sort_rounds` stands for the sort of the rounds by the collation of their ids.
unfoldable pub evaluate_ledger_balance :
    (List RoundBalance → List RoundBalance)
    → List TransactionRecord
    → List LedgerBlock
    → Result AmountError LedgerBalanceReport
unfolding violations_of index_settlements completed_amounts settled_amounts total_or_overflow
    completed_rounds settled_rounds
evaluate_ledger_balance sort_rounds transactions ledger_blocks = do
  violations ← violations_of transactions ledger_blocks
  let index = index_settlements ledger_blocks []
  ok (record {
    balanced = no_violations violations;
    violations = violations;
    rounds =
        sort_rounds (values (settled_rounds transactions index (completed_rounds transactions [])));
    totals = record {
      transaction_count = length transactions;
      settlement_count = length (settled_amounts index);
      completed_total = (total_or_overflow (completed_amounts transactions)).0;
      settled_total = (total_or_overflow (settled_amounts index)).0;
    };
  })

unfoldable pub total_completed_amount : List TransactionRecord → Result AmountError Text
unfolding completed_amounts
total_completed_amount transactions = sum_amounts (completed_amounts transactions)
