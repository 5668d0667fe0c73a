-- ===== src/Lib.antt =====
-- SplitNaira: the core logic of the API server (backend/src), as functions and theorems.
--
-- The parts, each with the file that models it; paths are those of the repository.
-- - Amounts: backend/src/lib/decimal-amounts.ts. Amount strings and their value in units of 1e-7
--   (toUnits, fromUnits, the arithmetic), and in Amounts.ProRata the split of a total by weights
--   (allocateProRata).
-- - Finality: backend/src/services/ledger-finality.ts. The state machine of a submitted
--   transaction (evaluateFinality) and the policies by network; Finality.History is what repeated
--   polls leave.
-- - Lifecycle: backend/src/lib/split-lifecycle.ts. The state of a split (deriveSplitState), the
--   actions that it permits, and the payment status of the participants (summariseCompletion).
-- - Collaboration: backend/src/services/collaboration. Permissions (permissions.ts) are what
--   Membership (membership-changes.ts) asks before it plans a change; applyCollaborationChange
--   reads, plans and writes under a version, up to five times. Invitations and Reinvitations are
--   invitation-registry.ts.
-- - Splits: backend/src/services/splits (Drafts, Ownership, Expiration) and project-deletion.ts of
--   backend/src/services/collaboration (Deletion).
-- - Stores: backend/src/services/read-cache.ts, backend/src/services/idempotency.ts with
--   backend/src/middleware/idempotency.ts, and backend/src/services/rpc-provider-health.ts.
-- - Accounts: login-attempts.ts, verification-resend-cooldown.ts and email-verification-token.ts
--   (Verification) of backend/src/services.
-- - Ledger: the rows of backend/src/entities (Transaction.ts, LedgerBlock.ts) and the reports on
--   them: Invariants, with Balance, is backend/src/services/ledger-invariants.ts; Orphans,
--   Reconciliation and Aging are check-orphaned-transactions.ts, reconcile-dry-run.ts and
--   pending-transaction-aging-report.ts of backend/src/scripts. Reconciliation calls the first
--   two.
-- - Listener: backend/src/services/EventListenerService.ts. Listener has its state, starts and
--   stops, Events the payments of a response, and Polls the end of a poll; a history is a list of
--   starts, stops, ticks of the timer and ends of polls, where a start runs from its call to its end
--   with nothing in between.
-- - Retry: executeWithRetry of backend/src/services/stellar.ts with
--   backend/src/services/rpc-retry-budget.ts, and frontend/src/lib/retry.ts. An operation is the
--   function of its outcomes by the number of the attempt.
-- - Client: amounts.ts, submission-guard.ts and toast-history.ts of frontend/src/lib. Its amounts
--   meet those of Amounts.
-- - Exports: backend/src/lib/csv.ts, and the listings that exports walk,
--   backend/src/services/PayoutHistoryService.ts (Payouts).
-- - Prelude: texts, dictionaries (JavaScript's Map in insertion order), results with errors,
--   lists.
-- - Witnesses: concrete inputs at which the theorems apply.
--
-- How code corresponds to definitions. A function keeps its name in snake_case (toUnits is
-- to_units); a class method is a function on the state of the object, and a module's own maps and
-- arrays are one record. An operation that changes state returns the state afterwards, also where
-- it throws, and a thrown error is a constructor that is named after its code. The clock, drawn
-- ids and the digests of the platform are arguments. Code that awaits is cut at the await: an
-- attempt of applyCollaborationChange takes as arguments what other requests commit before its
-- read and before its write, a poll of the event listener is a begin and an end, a sign-in is a
-- begin and a finish, and a fetch of the read cache is a start, a resolution and a settlement.
--
-- Bounds and fuel. Texts are lists of UTF-16 code units, whose case maps change ASCII letters
-- only. Times are milliseconds and counts natural numbers; where a number may fail to be an
-- integer (ledger numbers), it is an integer or no integer. Amounts are unbounded natural numbers,
-- with the bound 2^127 - 1 (times 10^7) of the source as an explicit test. Printing a number n has
-- n + 1 rounds of fuel, one for a digit, of which it has at most n + 1; the loop over attempts has
-- the source's five, the look-up of wallets in chunks a round for each address, and the walk over
-- payouts one round more than there are rows. All other recursion is structural.
--
-- Not modelled: the routes and Express glue, the database entities, schemas and migrations, the
-- Stellar SDK and the RPC clients, the other scripts and the health checks (I/O), metrics and
-- logging, the rest of the frontend, and the contracts in Rust.
pub mod Prelude
pub mod Finality
pub mod Lifecycle
pub mod Collaboration
pub mod Amounts
pub mod Splits
pub mod Stores
pub mod Accounts
pub mod Ledger
pub mod Listener
pub mod Retry
pub mod Client
pub mod Exports
pub mod Witnesses
