-- ===== src/Ledger/Invariants.antt =====
-- The balancing rules over the rows of both tables (backend/src/services/ledger-invariants.ts).
pub mod Balance
pub mod Index
pub mod Totals
pub mod Checks
pub mod Matching
pub mod Clauses
pub mod Balanced
use split_naira.Prelude.{
  ℕ, ◌+◌, Text, codes, Bool, true, false, not, ◌&&◌, List, [], ◌∷◌, ◌++◌, map, Option, none, some,
  leb, if◌then◌else◌, or_else, length, filter, find, is_empty, text_eq, Result, ok, err, ◌>>=◌,
}
use split_naira.Prelude.Dict.{Dict, get, set, values}
use split_naira.Amounts.{
  AmountError, Comparison, less, equal, greater, is_valid_amount_string, is_zero_amount,
  compare_amounts, sum_amounts, add_amounts,
}
use split_naira.Ledger.{
  TransactionRecord, TransactionStatus, LedgerBlock, is_completed, is_settlement,
}

pub data InvariantSeverity : Type 0 where
  critical warning : InvariantSeverity

-- `invariantId`.
pub data InvariantId : Type 0 where
  invalid_amount_format nonzero_completed_amount amount_match failed_not_settled : InvariantId
  duplicate_settlement_entry amount_overflow aggregate_conservation : InvariantId

-- The message, which is prose, is left out.
pub record InvariantViolation : Type 0 where
  pub invariant_id : InvariantId
  pub severity : InvariantSeverity
  pub tx_hash : Option Text
  pub row_id : Option Text

abbrev pub violation : InvariantId → Option Text → Option Text → InvariantViolation
violation invariant_id tx_hash row_id = record {
  invariant_id = invariant_id;
  severity = critical;
  tx_hash = tx_hash;
  row_id = row_id;
}

abbrev pub tx_violation : InvariantId → TransactionRecord → InvariantViolation
tx_violation invariant_id tx = violation invariant_id (some tx.tx_hash) (some tx.id)

abbrev pub block_violation : InvariantId → LedgerBlock → InvariantViolation
block_violation invariant_id block = violation invariant_id (some block.tx_hash) (some block.id)

abbrev pub first : {A : Type 0} → List A → Option A
first [] = none
first (x ∷ xs) = some x

-- A loop that pushes what it finds, without and with checks that may throw.
abbrev pub collect : {A V : Type 0} → (A → List V) → List A → List V
collect check [] = []
collect check (x ∷ xs) = check x ++ collect check xs

abbrev pub check_each :
    {A V : Type 0} → (A → Result AmountError (List V)) → List A → Result AmountError (List V)
check_each check [] = ok []
check_each check (x ∷ xs) = do found ← check x; others ← check_each check xs; ok (found ++ others)

abbrev pub Settlements : Type 0
Settlements = Dict (List LedgerBlock)

abbrev pub settlements_at : Text → Settlements → List LedgerBlock
settlements_at tx_hash index = or_else (get tx_hash index) []

-- `settlementByTxHash`.
unfoldable pub index_settlements : List LedgerBlock → Settlements → Settlements
index_settlements [] index = index
index_settlements (block ∷ blocks) index = index_settlements blocks (
    if is_settlement block
    then set block.tx_hash (settlements_at block.tx_hash index ++ (block ∷ [])) index
    else index)

abbrev first_id : List LedgerBlock → Option Text
first_id [] = none
first_id (block ∷ _) = some block.id

abbrev pub duplicate_violation : Text × List LedgerBlock → List InvariantViolation
duplicate_violation (tx_hash, blocks) =
    if leb (length blocks) 1
    then []
    else violation duplicate_settlement_entry (some tx_hash) (first_id blocks) ∷ []

abbrev pub invalid_tx : TransactionRecord → List InvariantViolation
invalid_tx tx =
    if not (is_valid_amount_string tx.amount)
    then tx_violation invalid_amount_format tx ∷ []
    else []

abbrev pub invalid_amount : LedgerBlock → Option Text → List InvariantViolation
invalid_amount block none = []
invalid_amount block (some amount) =
    if not (is_valid_amount_string amount)
    then block_violation invalid_amount_format block ∷ []
    else []

abbrev pub invalid_block : LedgerBlock → List InvariantViolation
invalid_block block = invalid_amount block block.amount

unfoldable pub zero_violation : TransactionRecord → Result AmountError (List InvariantViolation)
zero_violation tx =
    let judged = (do
      zero ← is_zero_amount tx.amount
      ok (if zero then tx_violation nonzero_completed_amount tx ∷ [] else [])) in
    if not (is_valid_amount_string tx.amount) then ok [] else judged

-- `compareAmounts(a, b) !== 0`.
abbrev pub differs : Comparison → Bool
differs equal = false
differs less = true
differs greater = true

unfoldable pub judge_status :
    TransactionStatus → TransactionRecord → Text → Result AmountError (List InvariantViolation)
judge_status TransactionStatus.completed tx settled = do
  order ← compare_amounts tx.amount settled
  ok (if differs order then tx_violation amount_match tx ∷ [] else [])
judge_status TransactionStatus.failed tx settled = ok (tx_violation failed_not_settled tx ∷ [])
judge_status TransactionStatus.pending tx settled = ok []

unfoldable pub judge_amount :
    TransactionRecord → Option Text → Result AmountError (List InvariantViolation)
unfolding judge_status
judge_amount tx none = ok []
judge_amount tx (some settled) =
    if not (is_valid_amount_string settled) then ok [] else judge_status tx.status tx settled

unfoldable pub judge_primary :
    TransactionRecord → Option LedgerBlock → Result AmountError (List InvariantViolation)
unfolding judge_amount
judge_primary tx none = ok []
judge_primary tx (some primary) = judge_amount tx primary.amount

unfoldable pub match_violation :
    Settlements → TransactionRecord → Result AmountError (List InvariantViolation)
unfolding judge_primary
match_violation index tx =
    if not (is_valid_amount_string tx.amount)
    then ok []
    else judge_primary tx (first (settlements_at tx.tx_hash index))

unfoldable pub completed_amounts : List TransactionRecord → List Text
completed_amounts transactions =
    map (λ tx. tx.amount)
      (filter (λ tx. is_valid_amount_string tx.amount) (filter is_completed transactions))

abbrev pub valid_amount : Option Text → List Text
valid_amount none = []
valid_amount (some amount) = if is_valid_amount_string amount then amount ∷ [] else []

-- `blockAmount(blocks[0])`, where it is valid.
abbrev pub primary_amount : List LedgerBlock → List Text
primary_amount [] = []
primary_amount (primary ∷ _) = valid_amount primary.amount

unfoldable pub settled_amounts : Settlements → List Text
settled_amounts index = collect (λ entry. primary_amount entry.1) index

abbrev pub zero_text : Text
zero_text = codes "0"

-- A total, with what its overflow is reported as.
unfoldable pub total_or_overflow : List Text → Text × List InvariantViolation
total_or_overflow amounts = elim (sum_amounts amounts) [
  | ok summed ↦ (summed, [])
  | err _ ↦ (zero_text, violation amount_overflow none none ∷ [])
]

unfoldable pub aggregate_violation : Text → Text → Result AmountError (List InvariantViolation)
aggregate_violation completed_total settled_total = do
  order ← compare_amounts completed_total settled_total
  ok (if differs order then violation aggregate_conservation none none ∷ [] else [])
