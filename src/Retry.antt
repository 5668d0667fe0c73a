-- ===== src/Retry.antt =====
-- Calls that are tried again: those of the server to the RPC
-- (backend/src/services/stellar.ts, backend/src/services/rpc-retry-budget.ts) and those of the
-- browser (frontend/src/lib/retry.ts). The n-th call of an operation is `call n`.
pub mod Budget
pub mod Browser
use split_naira.Prelude.{
  ℕ, zero, suc, ◌+◌, ◌*◌, ◌^◌, Bool, true, false, Option, none, some, List, [], ◌∷◌, ◌++◌, Text,
  codes, or_else, leb, if◌then◌else◌, Result, ok, err,
}
use split_naira.Prelude.Int.{ℤ, pos, negsuc}

abbrev pub default_rpc_max_retries : ℕ
default_rpc_max_retries = 3

abbrev pub rpc_retry_budget_max_retries : ℕ
rpc_retry_budget_max_retries = 5

abbrev pub min_of : ℕ → ℕ → ℕ
min_of a b = if leb a b then a else b

-- The request as its floor, none where it is no finite number.
unfoldable pub bound_retry_budget : Option ℤ → ℕ
bound_retry_budget none = default_rpc_max_retries
bound_retry_budget (some (pos n)) = min_of n rpc_retry_budget_max_retries
bound_retry_budget (some (negsuc n)) = 0

-- An error of an attempt: one of the request's validation, a rejection that no retry can fix, with
-- its scrubbed message where it is an `Error`, a time-out, or another.
pub data AttemptError (E : Type 0) : Type 0 where
  validation_error : E → AttemptError E
  terminal_rejection : Option Text → AttemptError E
  timed_out : AttemptError E
  other_error : E → AttemptError E

abbrev pub is_retryable : {E : Type 0} → AttemptError E → Bool
is_retryable (validation_error _) = false
is_retryable (terminal_rejection _) = false
is_retryable timed_out = true
is_retryable (other_error _) = true

-- What the sequence throws: the error of an attempt, or an `RpcError` with its status.
pub data ThrownError (E : Type 0) : Type 0 where
  attempt_error : AttemptError E → ThrownError E
  rpc_error : Text → ℕ → ThrownError E

abbrev pub sequence_recovery_instructions : Text
sequence_recovery_instructions =
    codes
      "This account has activity the pending transaction did not account for. Reload the account, then re-sign and resubmit. Retrying the same signed transaction will fail again."

unfoldable pub to_terminal_transaction_error : {E : Type 0} → Option Text → ThrownError E
to_terminal_transaction_error message =
    rpc_error (or_else message (codes "rejected") ++ codes " " ++ sequence_recovery_instructions)
      409

abbrev pub thrown : {E : Type 0} → AttemptError E → ThrownError E
thrown (validation_error e) = attempt_error (validation_error e)
thrown (terminal_rejection message) = to_terminal_transaction_error message
thrown timed_out = attempt_error timed_out
thrown (other_error e) = attempt_error (other_error e)

pub data RpcRetryOutcome : Type 0 where
  success validation_outcome timeout exhausted_outcome : RpcRetryOutcome

abbrev pub final_outcome : {E : Type 0} → AttemptError E → RpcRetryOutcome
final_outcome (validation_error _) = validation_outcome
final_outcome (terminal_rejection _) = validation_outcome
final_outcome timed_out = timeout
final_outcome (other_error _) = exhausted_outcome

-- What a sequence of attempts returns or throws, with what it records: the retries used, whether the
-- budget is exhausted, the outcome, and the delays before the retries.
pub record RetryRun (E A : Type 0) : Type 0 where
  pub result : Result (ThrownError E) A
  pub used : ℕ
  pub exhausted : Bool
  pub outcome : RpcRetryOutcome
  pub delays : List ℕ

abbrev pub max_delay_ms : ℕ
max_delay_ms = 30000

abbrev pub backoff_delay : ℕ → ℕ → ℕ
backoff_delay initial_delay_ms attempt = min_of (initial_delay_ms * 2 ^ attempt) max_delay_ms

abbrev pub succeeded : {E A : Type 0} → ℕ → A → RetryRun E A
succeeded attempt value = record {
  result = ok value;
  used = attempt;
  exhausted = false;
  outcome = success;
  delays = [];
}

-- An error that ends the sequence, with whether the budget was spent.
abbrev pub failed_with : {E A : Type 0} → ℕ → Bool → AttemptError E → RetryRun E A
failed_with attempt spent e = record {
  result = err (thrown e);
  used = attempt;
  exhausted = spent;
  outcome = final_outcome e;
  delays = [];
}

abbrev pub after_delay : {E A : Type 0} → ℕ → RetryRun E A → RetryRun E A
after_delay delay run = record run { delays = delay ∷ run.delays }

-- The loop from an attempt on, with the retries that are left.
unfoldable pub attempts_from :
    {E A : Type 0} → (ℕ → Result (AttemptError E) A) → ℕ → ℕ → ℕ → RetryRun E A
attempts_from call initial_delay_ms zero attempt = elim (call attempt) [
  | ok value ↦ succeeded attempt value
  | err e ↦ failed_with attempt (is_retryable e) e
]
attempts_from call initial_delay_ms (suc left) attempt =
    let rest = attempts_from call initial_delay_ms left (attempt + 1) in
    elim (call attempt) [
      | ok value ↦ succeeded attempt value
      | err e ↦
          if is_retryable e
          then after_delay (backoff_delay initial_delay_ms attempt) rest
          else failed_with attempt false e
    ]

unfoldable pub execute_with_retry :
    {E A : Type 0} → (ℕ → Result (AttemptError E) A) → ℕ → Option ℤ → RetryRun E A
unfolding bound_retry_budget attempts_from
execute_with_retry call initial_delay_ms requested =
    attempts_from call initial_delay_ms (bound_retry_budget requested) 0

-- `withRetry`: what it returns or throws (nothing, where it makes no call), its calls, and its waits.
pub record BrowserRun (E A : Type 0) : Type 0 where
  pub result : Option (Result E A)
  pub calls : ℕ
  pub waits : List ℕ

abbrev pub ended : {E A : Type 0} → ℕ → Result E A → BrowserRun E A
ended attempt result = record { result = some result; calls = attempt; waits = [] }

abbrev pub after_wait : {E A : Type 0} → ℕ → BrowserRun E A → BrowserRun E A
after_wait wait run = record run { waits = wait ∷ run.waits }

-- The loop from an attempt on (they count from 1), with the attempts that are left after it.
unfoldable pub browser_attempts :
    {E A : Type 0} → (ℕ → Result E A) → (E → Bool) → ℕ → ℕ → ℕ → BrowserRun E A
browser_attempts call should_retry delay_ms zero attempt = ended attempt (call attempt)
browser_attempts call should_retry delay_ms (suc left) attempt =
    let rest = browser_attempts call should_retry delay_ms left (attempt + 1) in
    elim (call attempt) [
      | ok value ↦ ended attempt (ok value)
      | err e ↦
          if should_retry e then after_wait (delay_ms * attempt) rest else ended attempt (err e)
    ]

unfoldable pub with_retry : {E A : Type 0} → (ℕ → Result E A) → ℕ → ℕ → (E → Bool) → BrowserRun E A
unfolding browser_attempts
with_retry call zero delay_ms should_retry = record { result = none; calls = 0; waits = [] }
with_retry call (suc left) delay_ms should_retry =
    browser_attempts call should_retry delay_ms left 1
