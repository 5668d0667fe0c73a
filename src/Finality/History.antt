-- ===== src/Finality/History.antt =====
-- A transaction that is polled again and again: the state that is kept between the polls.
use split_naira.Prelude.{
  ◌≡◌, ◌≢◌, ◌⊎◌, inl, inr, refl, List, [], ◌∷◌, some, true, Result, ok, err, Result-cases,
}
use split_naira.Finality.{
  FinalityState, submitted, final, EvaluateFinalityInput, FinalityEvaluation, FinalityPolicyError,
  is_terminal_finality_state, evaluate_finality,
}
use split_naira.Finality.Steps.{
  Advances, include, settle_at_once, fail, expire, settle, evaluate_finality-Advances,
}
use split_naira.Finality.Conflicts.{IsConfirmed, evaluate_finality-IsConfirmed}

abbrev pub polled : FinalityState → EvaluateFinalityInput → EvaluateFinalityInput
polled state input = record input { previous = some state }

-- A conflict is escalated, and leaves the recorded state as it is.
abbrev pub keep : FinalityState → Result FinalityPolicyError FinalityEvaluation → FinalityState
keep state (ok e) = e.state
keep state (err e) = state

unfoldable pub poll : FinalityState → EvaluateFinalityInput → FinalityState
poll state input = keep state (evaluate_finality (polled state input))

unfoldable pub poll_all : FinalityState → List EvaluateFinalityInput → FinalityState
poll_all state [] = state
poll_all state (input ∷ inputs) = poll_all (poll state input) inputs

Advances-not_terminal :
    {s t : FinalityState} → is_terminal_finality_state s ≡ true → Advances s t → ⊥
Advances-not_terminal h include = cc
Advances-not_terminal h settle_at_once = cc
Advances-not_terminal h fail = cc
Advances-not_terminal h expire = cc
Advances-not_terminal h settle = cc

poll_terminal :
    (state : FinalityState) (input : EvaluateFinalityInput)
    → is_terminal_finality_state state ≡ true
    → poll state input ≡ state
unfolding poll
poll_terminal state input h = elim (Result-cases (evaluate_finality (polled state input))) [
  | inr (e, refused) ↦ rw refused
  | inl (e, accepted) ↦ elim (evaluate_finality-Advances (polled state input) accepted).0 [
    | inl same ↦ rw accepted same
    | inr moved ↦ absurd (Advances-not_terminal h moved)
  ]
]

-- Whatever the network reports later, a transaction in a terminal state stays in it.
pub poll_all_terminal :
    (inputs : List EvaluateFinalityInput) (state : FinalityState)
    → is_terminal_finality_state state ≡ true
    → poll_all state inputs ≡ state
unfolding poll_all
poll_all_terminal [] state h = refl
poll_all_terminal (input ∷ inputs) state h =
    rw (poll_terminal state input h) (poll_all_terminal inputs state h)

abbrev pub SomeConfirmed : List EvaluateFinalityInput → Type 0
SomeConfirmed [] = ⊥
SomeConfirmed (input ∷ inputs) = IsConfirmed input ⊎ SomeConfirmed inputs

poll-final :
    (state : FinalityState) (input : EvaluateFinalityInput)
    → state ≢ final
    → poll state input ≡ final
    → IsConfirmed input
unfolding poll
poll-final state input p h = elim (Result-cases (evaluate_finality (polled state input))) [
  | inr (e, refused) ↦ absurd (p (rw refused at h))
  | inl (e, accepted) ↦
      let c = evaluate_finality-IsConfirmed (polled state input) p accepted (rw accepted at h) in
      record {
        ledger = c.ledger;
        latest = c.latest;
        seen = c.seen;
        ledger_seen = c.ledger_seen;
        latest_seen = c.latest_seen;
        deep = c.deep;
      }
]

final-cases : (s : FinalityState) → (s ≡ final) ⊎ (s ≢ final)
final-cases final = inl refl
final-cases submitted = inr (λ e. cc)
final-cases _ = inr (λ e. cc)

-- A transaction that was not final and ends up final over a run of observations was confirmed by
-- one of them: seen in a ledger at the policy's depth.
pub poll_all-SomeConfirmed :
    (inputs : List EvaluateFinalityInput) (state : FinalityState)
    → state ≢ final
    → poll_all state inputs ≡ final
    → SomeConfirmed inputs
unfolding poll_all
poll_all-SomeConfirmed [] state p h = p h
poll_all-SomeConfirmed (input ∷ inputs) state p h = elim (final-cases (poll state input)) [
  | inl done ↦ inl (poll-final state input p done)
  | inr open_still ↦ inr (poll_all-SomeConfirmed inputs (poll state input) open_still h)
]
