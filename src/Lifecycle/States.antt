-- ===== src/Lifecycle/States.antt =====
-- The order of the rules that derive a split's state.
use split_naira.Prelude.{ℕ, ◌≡◌, ◌≢◌, some, arith, err}
use split_naira.Lifecycle.{
  cancelled, SplitAction, read, ProjectSnapshot, CancellationSnapshot, derive_split_state,
  assert_action_allowed,
}

-- A cancelled split refuses every action but `read`, whatever the snapshot and the time.
pub cancelled_refuses :
    (project : ProjectSnapshot) (c : CancellationSnapshot) (now : ℕ) (action : SplitAction)
    → action ≢ read
    → assert_action_allowed (derive_split_state project (some c) now) action
      ≡ err (record { state = cancelled; action = action })
unfolding derive_split_state assert_action_allowed
cancelled_refuses project c now action h = ground arith
