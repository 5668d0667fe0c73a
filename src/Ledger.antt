-- ===== src/Ledger.antt =====
-- The rows that the payout side and the settlement side of the database hold
-- (backend/src/entities/Transaction.ts, backend/src/entities/LedgerBlock.ts), and the reports that
-- operators read off them.
pub mod Invariants
pub mod Orphans
pub mod Reconciliation
pub mod Aging
use split_naira.Prelude.{ℕ, Text, Bool, true, false, Option}
pub use split_naira.Finality.{TransactionStatus}

-- The token of a row is left out: no report reads it.
pub record TransactionRecord : Type 0 where
  pub id : Text
  pub round_id : Text
  pub recipient : Text
  pub amount : Text
  pub timestamp : ℕ
  pub tx_hash : Text
  pub status : TransactionStatus

pub data LedgerBlockType : Type 0 where
  settlement milestone : LedgerBlockType

-- The closing time is left out: the reports only copy it.
pub record LedgerBlock : Type 0 where
  pub id : Text
  pub ledger_seq : ℕ
  pub tx_hash : Text
  pub block_type : LedgerBlockType
  pub project_id : Option Text
  pub recipient : Option Text
  pub amount : Option Text

abbrev pub is_completed : TransactionRecord → Bool
is_completed tx = elim tx.status [ TransactionStatus.completed ↦ true | _ ↦ false ]

abbrev pub is_settlement : LedgerBlock → Bool
is_settlement block = elim block.block_type [ settlement ↦ true | milestone ↦ false ]
