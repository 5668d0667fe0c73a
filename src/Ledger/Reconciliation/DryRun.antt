-- ===== src/Ledger/Reconciliation/DryRun.antt =====
-- When the dry run (backend/src/scripts/reconcile-dry-run.ts) ends with exit code 0.
use split_naira.Prelude.{ℕ, Bool, not, if◌then◌else◌}

exit_code_of : Bool → ℕ
exit_code_of grave = if not grave then 0 else 1
