-- ===== src/Finality/Steps.antt =====
-- What one evaluation can do to the recorded state of a transaction.
use split_naira.Prelude.{ℕ, ◌≡◌, ◌⊎◌, Option, some, arith, ok, or_else, ◌>>=◌, >>=-eq-ok}
use split_naira.Finality.{
  FinalityState, submitted, included, final, failed, expired, EvaluateFinalityInput,
  FinalityEvaluation, assert_ledger, assert_bound, observe, decide_next, evaluate_at,
  evaluate_finality, to_transaction_status,
}

-- The forward edges of the life of a transaction.
pub data Advances : FinalityState → FinalityState → Type 0 where
  include : Advances submitted included
  settle_at_once : Advances submitted final
  fail : Advances submitted failed
  expire : Advances submitted expired
  settle : Advances included final

ruleset edges = (include, settle_at_once, fail, expire, settle)

decide_next_step :
    (previous next : FinalityState) (depth : Option ℕ) {e : FinalityEvaluation}
    → decide_next previous (next, depth) ≡ ok e
    → ((e.state ≡ previous) ⊎ Advances previous e.state)
      × (e.transaction_status ≡ to_transaction_status e.state)
unfolding decide_next
decide_next_step submitted next depth h = grind (arith, edges)
decide_next_step included next depth h = grind (arith, edges)
decide_next_step final next depth h = grind (arith, edges)
decide_next_step failed next depth h = grind (arith, edges)
decide_next_step expired next depth h = grind (arith, edges)

-- The parts of an evaluation that succeeds.
pub record Trace (input : EvaluateFinalityInput) (e : FinalityEvaluation) : Type 0 where
  pub latest : ℕ
  pub submitted_at : ℕ
  pub valid_until : Option ℕ
  pub seen : FinalityState × Option ℕ
  pub latest_valid : assert_ledger (some input.latest_ledger) ≡ ok latest
  pub observed :
      observe input.policy input.observation.status input.observation.ledger latest submitted_at
        valid_until
      ≡ ok seen
  pub decided : decide_next (or_else input.previous submitted) seen ≡ ok e

evaluate_at-Trace :
    (input : EvaluateFinalityInput) (latest submitted_at : ℕ) (valid_until : Option ℕ)
    {e : FinalityEvaluation}
    → assert_ledger (some input.latest_ledger) ≡ ok latest
    → evaluate_at input latest submitted_at valid_until ≡ ok e
    → Trace input e
unfolding evaluate_at
evaluate_at-Trace input latest submitted_at valid_until valid h =
    let (seen, observed, decided) = >>=-eq-ok _ _ h in
    record {
      latest = latest;
      submitted_at = submitted_at;
      valid_until = valid_until;
      seen = seen;
      latest_valid = valid;
      observed = observed;
      decided = decided;
    }

pub evaluate_finality-Trace :
    (input : EvaluateFinalityInput) {e : FinalityEvaluation}
    → evaluate_finality input ≡ ok e
    → Trace input e
unfolding evaluate_finality
evaluate_finality-Trace input h =
    let (l, valid, h1) = >>=-eq-ok _ _ h in
    let (s, _, h2) =
      >>=-eq-ok (assert_ledger (some input.submitted_at_ledger))
        (λ s. assert_bound input.valid_until_ledger >>= evaluate_at input l s) h1 in
    let (v, _, h3) = >>=-eq-ok (assert_bound input.valid_until_ledger) (evaluate_at input l s) h2 in
    evaluate_at-Trace input l s v valid h3

-- A successful evaluation keeps the recorded state or moves it along one edge of `Advances`,
-- and the transaction status that it reports is the one of the new state.
pub evaluate_finality-Advances :
    (input : EvaluateFinalityInput) {e : FinalityEvaluation}
    → evaluate_finality input ≡ ok e
    → ((e.state ≡ or_else input.previous submitted)
        ⊎ Advances (or_else input.previous submitted) e.state)
      × (e.transaction_status ≡ to_transaction_status e.state)
evaluate_finality-Advances input h =
    let t = evaluate_finality-Trace input h in
    decide_next_step (or_else input.previous submitted) t.seen.0 t.seen.1 t.decided
