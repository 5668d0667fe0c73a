-- ===== src/Retry/Browser.antt =====
-- How often the browser tries a request (frontend/src/lib/retry.ts, withRetry).
use split_naira.Prelude.{
  ℕ, zero, suc, ◌+◌, ◌*◌, ◌≤◌, ◌≡◌, ◌⊎◌, refl, sym, ap, ◌∙◌, subst, Bool, true, false, some, arith,
  if_elim, length, Result, ok, err, Result-cases, inl, inr,
}
use split_naira.Retry.{BrowserRun, ended, after_wait, browser_attempts, with_retry}

module _ {E A : Type 0} (call : ℕ → Result E A) (should_retry : E → Bool) where
  -- A call that fails with an error that the predicate lets be tried again, and one that does not.
  abbrev pub IsRetried : Result E A → Type 0
  IsRetried (ok value) = ⊥
  IsRetried (err e) = should_retry e ≡ true

  abbrev pub IsFinal : Result E A → Type 0
  IsFinal (ok value) = Unit
  IsFinal (err e) = should_retry e ≡ false

  abbrev pub RetriedFrom : ℕ → ℕ → Type 0
  RetriedFrom attempt zero = Unit
  RetriedFrom attempt (suc k) = IsRetried (call attempt) × RetriedFrom (attempt + 1) k

  -- From an attempt on, with so many left after it: `k` retries, each after an error that may be tried
  -- again; the last call is final, or no attempt is left after it.
  abbrev pub IsBrowserRun : ℕ → ℕ → BrowserRun E A → Type 0
  IsBrowserRun left attempt run =
      (k : ℕ) × (k ≤ left)
      × (run.calls ≡ attempt + k)
      × (run.result ≡ some (call (attempt + k)))
      × RetriedFrom attempt k
      × ((k ≡ left) ⊎ IsFinal (call (attempt + k)))
      × (length run.waits ≡ k)

  ended-IsBrowserRun :
      (left attempt : ℕ) (result : Result E A)
      → call attempt ≡ result
      → (0 ≡ left) ⊎ IsFinal result
      → IsBrowserRun left attempt (ended attempt result)
  ended-IsBrowserRun left attempt result h end =
      let here : call (attempt + 0) ≡ result = ap call (omega arith) ∙ h in
      (0, omega arith, omega arith, ap some (sym here), tt, rw (here) end, refl)

  after_wait-IsBrowserRun :
      (left attempt wait : ℕ) (run : BrowserRun E A)
      → IsRetried (call attempt)
      → IsBrowserRun left (attempt + 1) run
      → IsBrowserRun (suc left) attempt (after_wait wait run)
  after_wait-IsBrowserRun left attempt wait run again
        (k, fits, calls, result, retried, end, waits) =
      let shift : attempt + suc k ≡ attempt + 1 + k = omega arith in
      (
        suc k,
        omega (arith, fits),
        omega (arith, calls),
        result ∙ ap (λ n. some (call n)) (sym shift),
        (again, retried),
        elim end [
          | inl all ↦ inl (omega (arith, all))
          | inr last ↦ inr (subst IsFinal (sym (ap call shift)) last)
        ],
        omega (arith, waits),
      )

  browser_attempts-IsBrowserRun :
      (delay_ms left attempt : ℕ)
      → IsBrowserRun left attempt (browser_attempts call should_retry delay_ms left attempt)
  unfolding browser_attempts
  browser_attempts-IsBrowserRun delay_ms zero attempt =
      ended-IsBrowserRun 0 attempt (call attempt) refl (inl refl)
  browser_attempts-IsBrowserRun delay_ms (suc left) attempt = elim (Result-cases (call attempt)) [
    | inl (value, done) ↦
        rw (browser_attempts, done) (ended-IsBrowserRun (suc left) attempt (ok value) done (inr tt))
    | inr (e, failed) ↦
        rw (browser_attempts, failed)
          (if_elim (IsBrowserRun (suc left) attempt) (should_retry e)
            (λ again.
              after_wait-IsBrowserRun left attempt (delay_ms * attempt)
                (browser_attempts call should_retry delay_ms left (attempt + 1))
                (subst IsRetried (sym failed) again)
                (browser_attempts-IsBrowserRun delay_ms left (attempt + 1)))
            (λ final_error. ended-IsBrowserRun (suc left) attempt (err e) failed (inr final_error)))
  ]

  -- With at least one attempt, withRetry ends after at most that many calls: each call but the last
  -- fails with an error that may be tried again, the outcome is that of the last, and unless all
  -- attempts are spent the last is a success or an error that must not be tried again.
  pub with_retry-IsBrowserRun :
      (left delay_ms : ℕ) → IsBrowserRun left 1 (with_retry call (suc left) delay_ms should_retry)
  unfolding with_retry
  with_retry-IsBrowserRun left delay_ms = browser_attempts-IsBrowserRun delay_ms left 1
