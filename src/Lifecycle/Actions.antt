-- ===== src/Lifecycle/Actions.antt =====
-- The table of permitted actions.
use split_naira.Prelude.{◌≡◌, ◌≢◌, ◌↔◌, refl, true, false, arith, ok, err}
use split_naira.Lifecycle.{
  SplitState, draft, active, distributing, settled, cancelled, expired, SplitAction, read, deposit,
  distribute, cancel, is_terminal, is_action_allowed, assert_action_allowed, is_cancellable,
  is_financial_action_allowed,
}

-- A state is terminal exactly when it permits no action but `read`.
is_terminal_iff :
    (state : SplitState)
    → (is_terminal state ≡ true)
      ↔ ((action : SplitAction) → action ≢ read → is_action_allowed state action ≡ false)
unfolding is_terminal is_action_allowed
is_terminal_iff draft = (λ h. cc, λ f. absurd (cc (f cancel (λ e. cc))))
is_terminal_iff active = (λ h. cc, λ f. absurd (cc (f cancel (λ e. cc))))
is_terminal_iff distributing = (λ h. cc, λ f. absurd (cc (f distribute (λ e. cc))))
is_terminal_iff settled = (λ h a n. ground arith, λ f. refl)
is_terminal_iff cancelled = (λ h a n. ground arith, λ f. refl)
is_terminal_iff expired = (λ h a n. ground arith, λ f. refl)

-- The guard lets exactly the permitted actions pass, and its error names the state and the action.
pub assert_action_allowed_lem :
    (state : SplitState) (action : SplitAction)
    → ((assert_action_allowed state action ≡ ok tt) ↔ (is_action_allowed state action ≡ true))
      × ((assert_action_allowed state action ≡ err (record { state = state; action = action }))
          ↔ (is_action_allowed state action ≡ false))
unfolding assert_action_allowed
assert_action_allowed_lem state action = ground arith

-- The states in which the API accepts financial actions are not terminal, permit a distribution,
-- and can be cancelled only while the split is active.
pub is_financial_action_allowed_lem :
    (state : SplitState)
    → is_financial_action_allowed state ≡ true
    → (is_terminal state ≡ false)
      × (is_action_allowed state distribute ≡ true)
      × ((is_cancellable state ≡ true) ↔ (state ≡ active))
      × ((is_action_allowed state deposit ≡ true) ↔ (state ≡ active))
unfolding is_financial_action_allowed is_terminal is_cancellable
is_financial_action_allowed_lem state h = ground arith
