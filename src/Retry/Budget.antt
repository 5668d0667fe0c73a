-- ===== src/Retry/Budget.antt =====
-- How often and how long a call to the RPC is tried (backend/src/services/stellar.ts,
-- executeWithRetry, under boundRetryBudget).
use split_naira.Prelude.{
  ℕ, zero, suc, ◌+◌, ◌*◌, ◌^◌, ◌≤◌, ◌≡◌, ◌↔◌, refl, sym, ap, ◌∙◌, subst, Bool, true, false, Option,
  none, some, List, ◌++◌, codes, or_else, arith, if_elim, sum_by, Result, ok, err, Result-cases,
  inl, inr,
}
use split_naira.Prelude.Int.{ℤ, pos, negsuc}
use split_naira.Retry.{
  bound_retry_budget, rpc_retry_budget_max_retries, AttemptError, validation_error,
  terminal_rejection, timed_out, other_error, ThrownError, attempt_error, rpc_error,
  sequence_recovery_instructions, to_terminal_transaction_error, thrown, is_retryable, RetryRun,
  max_delay_ms, backoff_delay, succeeded, failed_with, after_delay, attempts_from,
  execute_with_retry, min_of,
}

-- An attempt that fails in a way that is tried again.
abbrev pub FailsRetryably : {E A : Type 0} → Result (AttemptError E) A → Type 0
FailsRetryably (ok value) = ⊥
FailsRetryably (err e) = is_retryable e ≡ true

-- So many attempts in a row fail that way, from one on.
abbrev pub FailFrom : {E A : Type 0} → (ℕ → Result (AttemptError E) A) → ℕ → ℕ → Type 0
FailFrom call attempt zero = Unit
FailFrom call attempt (suc k) = FailsRetryably (call attempt) × FailFrom call (attempt + 1) k

abbrev pub total_delay : List ℕ → ℕ
total_delay delays = sum_by (λ n. n) delays

-- A call's value, or what is thrown for its error: a rejection that no retry can fix becomes a conflict
-- with instructions for the recovery, and any other error stays as it is.
abbrev pub settled_as : {E A : Type 0} → Result (AttemptError E) A → Result (ThrownError E) A
settled_as (ok value) = ok value
settled_as (err (terminal_rejection message)) = err (
    rpc_error (or_else message (codes "rejected") ++ codes " " ++ sequence_recovery_instructions)
      409)
settled_as (err (validation_error e)) = err (attempt_error (validation_error e))
settled_as (err timed_out) = err (attempt_error timed_out)
settled_as (err (other_error e)) = err (attempt_error (other_error e))

thrown-settled :
    {E A : Type 0} (e : AttemptError E)
    → Path (Result (ThrownError E) A) (err (thrown e)) (settled_as (err e))
unfolding to_terminal_transaction_error
thrown-settled (validation_error e) = refl
thrown-settled (terminal_rejection message) = refl
thrown-settled timed_out = refl
thrown-settled (other_error e) = refl

-- A sequence that starts at an attempt with so many retries left: it makes `k` of them after failures
-- that are tried again, and then returns or throws what the last attempt does; the budget is
-- exhausted exactly if that one could be tried again too, with no retry left.
abbrev pub IsRun : {E A : Type 0} → (ℕ → Result (AttemptError E) A) → ℕ → ℕ → RetryRun E A → Type 0
IsRun call left attempt run =
    (k : ℕ) × (k ≤ left)
    × (run.used ≡ attempt + k)
    × (run.result ≡ settled_as (call (attempt + k)))
    × FailFrom call attempt k
    × ((run.exhausted ≡ true) ↔ ((k ≡ left) × FailsRetryably (call (attempt + k))))
    × (total_delay run.delays ≤ k * max_delay_ms)

first_attempt :
    {E A : Type 0} (call : ℕ → Result (AttemptError E) A) (attempt : ℕ)
    → call (attempt + 0) ≡ call attempt
first_attempt call attempt = ap call (omega arith)

succeeded-IsRun :
    {E A : Type 0} (call : ℕ → Result (AttemptError E) A) (left attempt : ℕ) (value : A)
    → call attempt ≡ ok value
    → IsRun call left attempt (succeeded attempt value)
succeeded-IsRun call left attempt value h =
    let here = first_attempt call attempt ∙ h in
    (
      0,
      omega arith,
      omega arith,
      sym (ap settled_as here),
      tt,
      ((λ e. absurd (cc e)), (λ e. absurd (rw (here) at (e.1)))),
      omega arith,
    )

failed_with-IsRun :
    {E A : Type 0} (call : ℕ → Result (AttemptError E) A) (left attempt : ℕ) (spent : Bool)
    (e : AttemptError E)
    → call attempt ≡ err e
    → (spent ≡ true) ↔ ((0 ≡ left) × (is_retryable e ≡ true))
    → IsRun call left attempt (failed_with attempt spent e)
failed_with-IsRun call left attempt spent e h same =
    let here = first_attempt call attempt ∙ h in
    (
      0,
      omega arith,
      omega arith,
      thrown-settled e ∙ sym (ap settled_as here),
      tt,
      rw (here) same,
      omega arith,
    )

after_delay-IsRun :
    {E A : Type 0} (call : ℕ → Result (AttemptError E) A) (left attempt delay : ℕ)
    (run : RetryRun E A)
    → FailsRetryably (call attempt)
    → delay ≤ max_delay_ms
    → IsRun call left (attempt + 1) run
    → IsRun call (suc left) attempt (after_delay delay run)
after_delay-IsRun call left attempt delay run fails short
      (k, fits, used, result, failures, spent, slept) =
    let shift : attempt + suc k ≡ attempt + 1 + k = omega arith in
    (
      suc k,
      omega (arith, fits),
      omega (arith, used),
      result ∙ sym (ap (λ n. settled_as (call n)) shift),
      (fails, failures),
      (
        (λ e.
            let (all, last) = spent.0 e in
            (omega (arith, all), subst FailsRetryably (sym (ap call shift)) last)),
        (λ e. spent.1 (omega (arith, e.0), subst FailsRetryably (ap call shift) e.1)),
      ),
      omega (arith, slept, short),
    )

delay_capped : (initial attempt : ℕ) → backoff_delay initial attempt ≤ max_delay_ms
delay_capped initial attempt = capped (initial * 2 ^ attempt)
  where
    capped : (d : ℕ) → min_of d 30000 ≤ 30000
    capped d = ground arith

attempts_from-IsRun :
    {E A : Type 0} (call : ℕ → Result (AttemptError E) A) (initial left attempt : ℕ)
    → IsRun call left attempt (attempts_from call initial left attempt)
unfolding attempts_from
attempts_from-IsRun call initial zero attempt = elim (Result-cases (call attempt)) [
  | inl (value, done) ↦ rw (attempts_from, done) (succeeded-IsRun call 0 attempt value done)
  | inr (e, failed) ↦
      rw (attempts_from, failed)
        (failed_with-IsRun call 0 attempt (is_retryable e) e failed ((λ h. (refl, h)), (λ h. h.1)))
]
attempts_from-IsRun call initial (suc left) attempt = elim (Result-cases (call attempt)) [
  | inl (value, done) ↦
      rw (attempts_from, done) (succeeded-IsRun call (suc left) attempt value done)
  | inr (e, failed) ↦
      rw (attempts_from, failed)
        (if_elim (IsRun call (suc left) attempt) (is_retryable e)
          (λ again.
            after_delay-IsRun call left attempt (backoff_delay initial attempt)
              (attempts_from call initial left (attempt + 1))
              (subst FailsRetryably (sym failed) again) (delay_capped initial attempt)
              (attempts_from-IsRun call initial left (attempt + 1)))
          (λ lost.
            failed_with-IsRun call (suc left) attempt false e failed
              ((λ h. absurd (cc h)), (λ h. absurd (omega (arith, h.0))))))
]

bound_retry_budget-le :
    (requested : Option ℤ) → bound_retry_budget requested ≤ rpc_retry_budget_max_retries
unfolding bound_retry_budget
bound_retry_budget-le none = omega arith
bound_retry_budget-le (some (pos n)) = ground arith
bound_retry_budget-le (some (negsuc n)) = omega arith

-- Whatever budget is asked for, a call to the RPC is made at most six times, with waits of at most
-- 150 seconds in all; each attempt but the last fails in a way that is tried again, the result is
-- the value of the last or its error, which for a rejection that no retry can fix is thrown as a
-- conflict with instructions for the recovery; and the budget is reported as exhausted exactly if its retries are spent and the
-- last attempt failed in such a way too.
pub execute_with_retry-IsRun :
    {E A : Type 0} (call : ℕ → Result (AttemptError E) A) (initial_delay_ms : ℕ)
    (requested : Option ℤ)
    → IsRun call
        (bound_retry_budget requested)
        0
        (execute_with_retry call initial_delay_ms requested)
      × ((execute_with_retry call initial_delay_ms requested).used ≤ 5)
      × (total_delay (execute_with_retry call initial_delay_ms requested).delays ≤ 150000)
unfolding execute_with_retry
execute_with_retry-IsRun call initial requested =
    let run = attempts_from-IsRun call initial (bound_retry_budget requested) 0 in
    let bound = bound_retry_budget-le requested in
    (run, omega (arith, run.1, run.2, bound), omega (arith, run.1, run.6, bound))
