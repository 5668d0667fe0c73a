-- ===== src/Collaboration/Reinvitations/Histories.antt =====
-- Sequences of commands on an invitation registry
-- (backend/src/services/collaboration/invitation-registry.ts).
use split_naira.Prelude.{ℕ, ◌≡◌, Text, List, [], ◌∷◌, Option, none, map}
use split_naira.Prelude.Dict.{get}
use split_naira.Collaboration.Invitations.{Registry, InvitationInput, InvitationError}
use split_naira.Collaboration.Invitations.Closed.{
  KeepsClosed, KeepsClosed-refl, KeepsClosed-trans, cancel_invitation-KeepsClosed,
}
use split_naira.Collaboration.Reinvitations.{
  visit_all, reinvite, list_pending_invitations, Command, register, invite_again, cancel, accept,
  look_up, look_up_token, list_pending, execute, execute_all,
}
use split_naira.Collaboration.Reinvitations.Steps.{
  by_id_keeps, by_token_keeps, accept_keeps, mark_all_keeps, visit_all_keeps, register_keeps,
  after_keeps,
}

-- The registry after the loop of `reinvite`.
unfoldable pub visited_by : Registry → InvitationInput → ℕ → ℕ → Registry × Option InvitationError
unfolding visit_all
visited_by reg input now clock = visit_all (map (λ e. e.0) reg.invitations) reg input now clock

reinvite_keeps :
    (reg : Registry) (id : Text) (input : InvitationInput) (now clock : ℕ)
    → get id (visited_by reg input now clock).0.invitations ≡ none
    → KeepsClosed reg.invitations (reinvite reg id input now clock).0.invitations
unfolding reinvite visited_by
reinvite_keeps reg id input now clock fresh =
    let keys = map (λ e. e.0) reg.invitations in
    KeepsClosed-trans reg.invitations _ _ (visit_all_keeps keys reg input now clock)
      (after_keeps (visit_all keys reg input now clock) id input now fresh)

-- The id of a registration is not in use when it is stored.
unfoldable pub IsFresh : Registry → Command → Type 0
IsFresh reg (register id input now) = get id reg.invitations ≡ none
IsFresh reg (invite_again id input now clock) =
    get id (visited_by reg input now clock).0.invitations ≡ none
IsFresh reg _ = Unit

unfoldable pub AllFresh : Registry → List Command → Type 0
unfolding IsFresh
AllFresh reg [] = Unit
AllFresh reg (c ∷ cs) = IsFresh reg c × AllFresh (execute reg c) cs

execute_keeps :
    (reg : Registry) (c : Command)
    → IsFresh reg c
    → KeepsClosed reg.invitations (execute reg c).invitations
unfolding execute IsFresh list_pending_invitations
execute_keeps reg (register id input now) f = register_keeps reg id input now f
execute_keeps reg (invite_again id input now clock) f = reinvite_keeps reg id input now clock f
execute_keeps reg (cancel id actor owner clock) f =
    cancel_invitation-KeepsClosed reg id actor owner clock
execute_keeps reg (accept jti now clock) f = accept_keeps reg jti now clock
execute_keeps reg (look_up id clock) f = by_id_keeps reg id clock
execute_keeps reg (look_up_token jti clock) f = by_token_keeps reg jti clock
execute_keeps reg (list_pending project inviter now) f =
    mark_all_keeps (map (λ e. e.0) reg.invitations) reg now

-- An invitation that has been accepted or cancelled, or has expired, is still there and unchanged in
-- every field after any sequence of registrations, re-invitations, cancellations, acceptances,
-- lookups and listings, where each registration stores its record under an id that is not in use.
pub execute_all-KeepsClosed :
    (reg : Registry) (cs : List Command)
    → AllFresh reg cs
    → KeepsClosed reg.invitations (execute_all reg cs).invitations
unfolding execute_all AllFresh
execute_all-KeepsClosed reg [] f = KeepsClosed-refl reg.invitations
execute_all-KeepsClosed reg (c ∷ cs) (f, fs) =
    KeepsClosed-trans reg.invitations _ _ (execute_keeps reg c f)
      (execute_all-KeepsClosed (execute reg c) cs fs)
