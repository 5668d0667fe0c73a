-- ===== src/Finality/Conflicts.antt =====
-- When an evaluation books a transaction as final, and when it refuses to.
use split_naira.Prelude.{
  ℕ, ◌+◌, ◌-◌, ◌≤◌, ◌<◌, ◌≡◌, ◌≢◌, ◌⊎◌, ◌↔◌, refl, Option, none, some, arith, ok, err, or_else,
  >>=-eq-ok,
}
use split_naira.Prelude.Int.{pos, negsuc, Number, integer, not_integer, max_safe_integer}
use split_naira.Finality.{
  FinalityState, submitted, included, final, not_found, success, failure, EvaluateFinalityInput,
  NetworkFinalityPolicy, LookupStatus, finality_conflict, FinalityEvaluation, assert_ledger,
  assert_bound, is_expired, observe, decide_next, evaluate_finality,
}
use split_naira.Finality.Steps.{evaluate_finality-Trace}

-- The network showed the transaction in ledger `l`, at the depth that the policy asks for.
pub record IsConfirmed (input : EvaluateFinalityInput) : Type 0 where
  pub ledger : ℕ
  pub latest : ℕ
  pub seen : input.observation.status ≡ success
  pub ledger_seen : input.observation.ledger ≡ some (integer (pos ledger))
  pub latest_seen : input.latest_ledger ≡ integer (pos latest)
  pub deep : input.policy.confirmation_depth ≤ latest - ledger

assert_ledger-eq-ok :
    (n : Option Number) {l : ℕ}
    → assert_ledger n ≡ ok l
    → (n ≡ some (integer (pos l))) × (0 < l) × (l ≤ max_safe_integer)
unfolding assert_ledger
assert_ledger-eq-ok (some (integer (pos n))) h = ground arith
assert_ledger-eq-ok (some (integer (negsuc n))) h = cc
assert_ledger-eq-ok (some not_integer) h = cc
assert_ledger-eq-ok none h = cc

decide_next-final :
    (previous next : FinalityState) (depth : Option ℕ) {e : FinalityEvaluation}
    → previous ≢ final
    → decide_next previous (next, depth) ≡ ok e
    → e.state ≡ final
    → next ≡ final
unfolding decide_next
decide_next-final previous next depth p h f = ground arith

observe-final :
    (policy : NetworkFinalityPolicy) (status : LookupStatus) (ledger : Option Number)
    (latest submitted_at : ℕ) (valid_until : Option ℕ) {depth : Option ℕ}
    → observe policy status ledger latest submitted_at valid_until ≡ ok (final, depth)
    → (l : ℕ) × (status ≡ success)
      × (assert_ledger ledger ≡ ok l)
      × (policy.confirmation_depth ≤ latest - l)
unfolding observe
observe-final policy not_found ledger latest submitted_at valid_until h = absurd (ground arith)
observe-final policy failure ledger latest submitted_at valid_until h =
    let (l, _, h1) = >>=-eq-ok (assert_ledger ledger) _ h in absurd (ground arith)
observe-final policy success ledger latest submitted_at valid_until h =
    let (l, found, h1) = >>=-eq-ok (assert_ledger ledger) _ h in (l, refl, found, ground arith)

-- An evaluation that turns a state other than `final` into `final` rests on a confirmed sight of
-- the transaction: found in a ledger, with at least the policy's number of ledgers after it.
pub evaluate_finality-IsConfirmed :
    (input : EvaluateFinalityInput) {e : FinalityEvaluation}
    → or_else input.previous submitted ≢ final
    → evaluate_finality input ≡ ok e
    → e.state ≡ final
    → IsConfirmed input
evaluate_finality-IsConfirmed input p h f =
    let t = evaluate_finality-Trace input h in
    let booked : t.seen.0 ≡ final =
      decide_next-final (or_else input.previous submitted) t.seen.0 t.seen.1 p t.decided f in
    let (l, found, sound, deep) =
      observe-final input.policy input.observation.status input.observation.ledger t.latest
        t.submitted_at t.valid_until {depth = t.seen.1} (cc (t.observed, booked)) in
    record {
      ledger = l;
      latest = t.latest;
      seen = found;
      ledger_seen = (assert_ledger-eq-ok _ sound).0;
      latest_seen = cc ((assert_ledger-eq-ok _ t.latest_valid).0);
      deep = deep;
    }

-- The ledger numbers of an input that pass the checks, with no known validity bound.
pub record IsPlain (input : EvaluateFinalityInput) (latest submitted_at : ℕ) : Type 0 where
  pub latest_given : input.latest_ledger ≡ integer (pos latest)
  pub submitted_given : input.submitted_at_ledger ≡ integer (pos submitted_at)
  pub latest_safe : (0 < latest) × (latest ≤ max_safe_integer)
  pub submitted_safe : (0 < submitted_at) × (submitted_at ≤ max_safe_integer)
  pub unbounded : input.valid_until_ledger ≡ none

assert_ledger_safe :
    {n : ℕ} → (0 < n) × (n ≤ max_safe_integer) → assert_ledger (some (integer (pos n))) ≡ ok n
unfolding assert_ledger
assert_ledger_safe h = ground arith

-- For a transaction that is recorded as included or final, without a known validity bound, a lookup
-- that does not find it raises a conflict exactly when more ledgers than the submission timeout
-- have closed since the submission.
pub not_found_after_inclusion :
    (input : EvaluateFinalityInput) (latest submitted_at : ℕ) (recorded : FinalityState)
    → IsPlain input latest submitted_at
    → input.observation.status ≡ not_found
    → input.previous ≡ some recorded
    → (recorded ≡ included) ⊎ (recorded ≡ final)
    → (evaluate_finality input ≡ err finality_conflict)
      ↔ (submitted_at + input.policy.submission_timeout_ledgers < latest)
unfolding evaluate_finality assert_bound is_expired
not_found_after_inclusion input latest submitted_at recorded p s r i =
    ground (arith, assert_ledger_safe p.latest_safe, assert_ledger_safe p.submitted_safe)
