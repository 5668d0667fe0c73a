-- ===== src/Ledger/Orphans.antt =====
-- The check for payouts without a settlement and settlements without a payout
-- (backend/src/scripts/check-orphaned-transactions.ts).
pub mod Wallets
use split_naira.Prelude.{
  ℕ, zero, suc, ◌+◌, ◌-◌, Text, codes, text_eq, is_empty, Bool, true, false, ◌&&◌, ◌||◌, not, List,
  [], ◌∷◌, ◌++◌, map, Option, none, some, leb, ◌==◌, if◌then◌else◌, length, take, drop, filter,
  find, any, Result, ok, err,
}
use split_naira.Ledger.{TransactionRecord, LedgerBlock, is_completed, is_settlement}

-- `${address.slice(0, 6)}...${address.slice(-4)}`.
unfoldable pub mask_wallet_address : Text → Text
mask_wallet_address address =
    if is_empty address
    then codes "(none)"
    else if leb (length address) 10
    then address
    else take 6 address ++ (codes "..." ++ drop (length address - 4) address)

pub record CompletedTransactionMissingLedgerBlock : Type 0 where
  pub id : Text
  pub round_id : Text
  pub tx_hash : Text
  pub recipient_masked : Text
  pub timestamp : ℕ

pub record SettlementLedgerBlockMissingTransaction : Type 0 where
  pub id : Text
  pub ledger_seq : ℕ
  pub tx_hash : Text
  pub project_id : Option Text
  pub recipient_masked : Option Text

pub record UnregisteredRecipientsSummary : Type 0 where
  pub count : ℕ
  pub sample_masked : List Text

pub record OrphanedTransactionsReport : Type 0 where
  pub ledger_blocks_table_available : Bool
  pub completed_transactions_missing_ledger_block : List CompletedTransactionMissingLedgerBlock
  pub settlement_ledger_blocks_missing_transaction : List SettlementLedgerBlockMissingTransaction
  pub unregistered_recipients : UnregisteredRecipientsSummary
  pub warnings : List Text

-- `LEDGER_BLOCKS_MISSING_WARNING`, by its opening words.
abbrev pub ledger_blocks_missing_warning : Text
ledger_blocks_missing_warning = codes "The ledger_blocks table does not exist in this database"

-- The membership of a text in a set, its addition, and the set of a list, in insertion order.
abbrev pub includes : Text → List Text → Bool
includes value set = any (λ member. text_eq member value) set

abbrev pub add_all : List Text → List Text → List Text
add_all [] set = set
add_all (value ∷ values) set =
    add_all values (if includes value set then set else set ++ (value ∷ []))

abbrev pub wallet_lookup_chunk_size : ℕ
wallet_lookup_chunk_size = 1000

-- One round of fuel for a chunk. `find_users` stands for the query for the users that have one of
-- the addresses; it returns their addresses.
unfoldable pub find_existing_wallet_addresses :
    (List Text → List Text) → ℕ → List Text → List Text → List Text
find_existing_wallet_addresses find_users zero addresses found = found
find_existing_wallet_addresses find_users (suc fuel) addresses found =
    let rest =
      find_existing_wallet_addresses find_users fuel (drop wallet_lookup_chunk_size addresses)
        (add_all (find_users (take wallet_lookup_chunk_size addresses)) found) in
    if length addresses == 0 then found else rest

-- What reading the ledger_blocks table gives: its rows, the error of a missing table, or another
-- error.
pub data LedgerRead : Type 0 where
  rows : List LedgerBlock → LedgerRead
  undefined_table read_failed : LedgerRead

pub data DatabaseError : Type 0 where
  query_failed : DatabaseError

abbrev pub optional_list : Option Text → List Text
optional_list none = []
optional_list (some value) = if is_empty value then [] else value ∷ []

abbrev pub block_recipients : List LedgerBlock → List Text
block_recipients [] = []
block_recipients (block ∷ blocks) = optional_list block.recipient ++ block_recipients blocks

abbrev mask_recipient : Option Text → Option Text
mask_recipient none = none
mask_recipient (some recipient) =
    if is_empty recipient then none else some (mask_wallet_address recipient)

-- `status === "completed"` without a row of the ledger.
abbrev pub is_unsettled : List LedgerBlock → TransactionRecord → Bool
is_unsettled blocks tx = is_completed tx && not (includes tx.tx_hash (map (λ b. b.tx_hash) blocks))

-- `type === "settlement"` without a row of the transactions.
abbrev pub is_unrecorded : List TransactionRecord → LedgerBlock → Bool
is_unrecorded txs block =
    is_settlement block && not (includes block.tx_hash (map (λ tx. tx.tx_hash) txs))

abbrev pub describe_transaction : TransactionRecord → CompletedTransactionMissingLedgerBlock
describe_transaction tx = record {
  id = tx.id;
  round_id = tx.round_id;
  tx_hash = tx.tx_hash;
  recipient_masked = mask_wallet_address tx.recipient;
  timestamp = tx.timestamp;
}

abbrev pub describe_block : LedgerBlock → SettlementLedgerBlockMissingTransaction
describe_block block = record {
  id = block.id;
  ledger_seq = block.ledger_seq;
  tx_hash = block.tx_hash;
  project_id = block.project_id;
  recipient_masked = mask_recipient block.recipient;
}

unfoldable pub unregistered_of :
    (List Text → List Text) → List TransactionRecord → List LedgerBlock → List Text
unfolding find_existing_wallet_addresses
unregistered_of find_users transactions blocks =
    let distinct = add_all (map (λ tx. tx.recipient) transactions ++ block_recipients blocks) [] in
    let existing = find_existing_wallet_addresses find_users (length distinct) distinct [] in
    filter (λ recipient. not (includes recipient existing)) distinct

unfoldable pub orphan_report :
    (List Text → List Text)
    → List TransactionRecord
    → Bool
    → List LedgerBlock
    → OrphanedTransactionsReport
unfolding mask_wallet_address unregistered_of
orphan_report find_users transactions available blocks =
    let unregistered = unregistered_of find_users transactions blocks in
    record {
      ledger_blocks_table_available = available;
      completed_transactions_missing_ledger_block =
          if available
          then map describe_transaction (filter (is_unsettled blocks) transactions)
          else [];
      settlement_ledger_blocks_missing_transaction =
          if available then map describe_block (filter (is_unrecorded transactions) blocks) else [];
      unregistered_recipients = record {
        count = length unregistered;
        sample_masked = map mask_wallet_address (take 5 unregistered);
      };
      warnings = if available then [] else ledger_blocks_missing_warning ∷ [];
    }

unfoldable pub check_orphaned_transactions :
    (List Text → List Text)
    → List TransactionRecord
    → LedgerRead
    → Result DatabaseError OrphanedTransactionsReport
unfolding orphan_report
check_orphaned_transactions find_users transactions (rows blocks) =
    ok (orphan_report find_users transactions true blocks)
check_orphaned_transactions find_users transactions undefined_table =
    ok (orphan_report find_users transactions false [])
check_orphaned_transactions find_users transactions read_failed = err query_failed

pub record OrphanedTransactionsCliOptions : Type 0 where
  pub cleanup_preview : Bool

pub data CliError : Type 0 where
  destructive_flag : Text → CliError
  unsupported_options : CliError

abbrev disabled_destructive_flags : List Text
disabled_destructive_flags = codes "--apply" ∷ codes "--cleanup" ∷ codes "--delete" ∷ []

abbrev pub is_destructive : Text → Bool
is_destructive arg = includes arg disabled_destructive_flags

abbrev pub accepted_options : List Text → Result CliError OrphanedTransactionsCliOptions
accepted_options [] = ok (record { cleanup_preview = false })
accepted_options (arg ∷ []) =
    if text_eq arg (codes "--cleanup-preview")
    then ok (record { cleanup_preview = true })
    else err unsupported_options
accepted_options (_ ∷ _ ∷ _) = err unsupported_options

abbrev pub refused_or : Option Text → List Text → Result CliError OrphanedTransactionsCliOptions
refused_or (some arg) args = err (destructive_flag arg)
refused_or none args = accepted_options args

unfoldable pub parse_orphaned_transactions_cli_options :
    List Text → Result CliError OrphanedTransactionsCliOptions
parse_orphaned_transactions_cli_options args = refused_or (find is_destructive args) args
