-- ===== src/Witnesses/FinalityTests.antt =====
-- Finality at concrete inputs.
use split_naira.Prelude.{
  ◌+◌, ◌<◌, ◌↔◌, inl, [], ◌∷◌, err, arith, ◌≡◌, refl, ◌⊎◌, none, some, ok, false,
}
use split_naira.Prelude.Int.{pos, integer}
use split_naira.Finality.{
  included, final, success, not_found, finality_conflict, EvaluateFinalityInput, FinalityEvaluation,
  finality_policies, mainnet, to_transaction_status, evaluate_finality,
}
use split_naira.Finality.Conflicts.{IsPlain, not_found_after_inclusion}
use split_naira.Finality.History.{poll, poll_all, SomeConfirmed, poll_all-SomeConfirmed}
use split_naira.Finality.Steps.{Advances, evaluate_finality-Advances}

abbrev seen_deep : EvaluateFinalityInput
seen_deep = record {
  policy = finality_policies mainnet;
  previous = some included;
  observation = record { status = success; ledger = some (integer (pos 100)) };
  latest_ledger = integer (pos 105);
  submitted_at_ledger = integer (pos 98);
  valid_until_ledger = none;
}

abbrev booked : FinalityEvaluation
booked = record {
  state = final;
  transaction_status = to_transaction_status final;
  depth = some 5;
  regression_ignored = false;
}

evaluated : evaluate_finality seen_deep ≡ ok booked
unfolding evaluate_finality
evaluated = refl

evaluate_finality-Advances_example :
    ((booked.state ≡ included) ⊎ Advances included booked.state)
    × (booked.transaction_status ≡ to_transaction_status booked.state)
evaluate_finality-Advances_example = evaluate_finality-Advances seen_deep evaluated

polled_final : poll_all included (seen_deep ∷ []) ≡ final
unfolding poll_all poll evaluate_finality
polled_final = refl

poll_all-SomeConfirmed_example : SomeConfirmed (seen_deep ∷ [])
poll_all-SomeConfirmed_example =
    poll_all-SomeConfirmed (seen_deep ∷ []) included (λ e. cc) polled_final

abbrev missing : EvaluateFinalityInput
missing = record {
  policy = finality_policies mainnet;
  previous = some included;
  observation = record { status = not_found; ledger = none };
  latest_ledger = integer (pos 1000);
  submitted_at_ledger = integer (pos 98);
  valid_until_ledger = none;
}

missing-IsPlain : IsPlain missing 1000 98
missing-IsPlain = record {
  latest_given = refl;
  submitted_given = refl;
  latest_safe = (omega arith, omega arith);
  submitted_safe = (omega arith, omega arith);
  unbounded = refl;
}

not_found_after_inclusion_example :
    (evaluate_finality missing ≡ err finality_conflict)
    ↔ (98 + missing.policy.submission_timeout_ledgers < 1000)
not_found_after_inclusion_example =
    not_found_after_inclusion missing 1000 98 included missing-IsPlain refl refl (inl refl)
