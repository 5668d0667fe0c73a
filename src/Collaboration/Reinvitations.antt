-- ===== src/Collaboration/Reinvitations.antt =====
-- Acceptance, lookup and re-invitation (backend/src/services/collaboration/invitation-registry.ts),
-- over the registry of Collaboration.Invitations, and the commands that a registry receives.
pub mod Steps
pub mod Histories
use split_naira.Prelude.{
  ℕ, Text, text_eq, to_lower_case, is_empty, Bool, true, false, ◌&&◌, ◌||◌, not, List, [], ◌∷◌,
  Option, none, some, if◌then◌else◌, filter, Result, ok, err, or_else, map,
}
use split_naira.Prelude.Dict.{Dict, get, set, values}
use split_naira.Collaboration.Invitations.{
  InvitationStatus, pending, accepted, cancelled, expired, InvitationRecord, Registry,
  InvitationError, invitation_not_tracked, invitation_cancelled, invitation_expired, Outcome,
  is_pending, mark_expired_if_needed, InvitationInput, register_invitation, cancel_invitation,
  reset_invitation_registry_for_tests,
}

-- The record found at a key, marked as expired if it is due.
abbrev pub marked_at :
    Registry → Text → Option InvitationRecord → ℕ → Registry × Option InvitationRecord
marked_at reg key none now = (reg, none)
marked_at reg key (some r) now =
    let (reg', r') = mark_expired_if_needed reg key r now in (reg', some r')

unfoldable pub get_invitation_by_id : Registry → Text → ℕ → Registry × Option InvitationRecord
unfolding mark_expired_if_needed
get_invitation_by_id reg id clock = marked_at reg id (get id reg.invitations) clock

-- `if (!id)` takes an empty id for a missing one.
abbrev pub id_found : Registry → Option Text → ℕ → Registry × Option InvitationRecord
id_found reg none clock = (reg, none)
id_found reg (some id) clock =
    if is_empty id then (reg, none) else marked_at reg id (get id reg.invitations) clock

unfoldable pub get_invitation_by_token_jti :
    Registry → Text → ℕ → Registry × Option InvitationRecord
unfolding mark_expired_if_needed
get_invitation_by_token_jti reg jti clock = id_found reg (get jti reg.token_index) clock

-- By the status, after both expiry checks.
pub accept_as : InvitationStatus → Registry → Text → InvitationRecord → ℕ → Outcome
accept_as cancelled reg key r now = (reg, err invitation_cancelled)
accept_as expired reg key r now = (reg, err invitation_expired)
accept_as accepted reg key r now = (reg, ok r)
accept_as pending reg key r now =
    let r' = record r { status = accepted; accepted_at = some now } in
    (record reg { invitations = set key r' reg.invitations }, ok r')

pub accept_found : Text → ℕ → Registry × Option InvitationRecord → Outcome
unfolding accept_as mark_expired_if_needed
accept_found key now (reg, none) = (reg, err invitation_not_tracked)
accept_found key now (reg, some r) =
    let (marked, r') = mark_expired_if_needed reg key r now in accept_as r'.status marked key r' now

unfoldable pub accept_invitation_by_token_jti : Registry → Text → ℕ → ℕ → Outcome
unfolding accept_found get_invitation_by_token_jti
accept_invitation_by_token_jti reg jti now clock =
    accept_found (or_else (get jti reg.token_index) []) now
      (get_invitation_by_token_jti reg jti clock)

-- `input.projectId && existing.projectId !== input.projectId`, and likewise for the inviter.
abbrev pub text_present : Option Text → Bool
text_present none = false
text_present (some t) = not (is_empty t)

abbrev pub same_text : Option Text → Option Text → Bool
same_text none none = true
same_text (some a) (some b) = text_eq a b
same_text _ _ = false

abbrev pub concerns : InvitationInput → InvitationRecord → Bool
concerns input r =
    text_eq r.email (to_lower_case input.email)
    && not (text_present input.project_id && not (same_text r.project_id input.project_id))

-- An error of the nested cancellation ends the loop.
abbrev pub error_of : Outcome → Registry × Option InvitationError
error_of (reg, ok r) = (reg, none)
error_of (reg, err e) = (reg, some e)

-- What the loop does with a record of the same e-mail and project, once it is marked.
pub cancel_prior : Registry × InvitationRecord → Option Text → ℕ → Registry × Option InvitationError
cancel_prior (reg, r) inviter clock =
    if is_pending r.status && text_present inviter
    then error_of (cancel_invitation reg r.id (or_else inviter []) none clock)
    else (reg, none)

pub visit_prior :
    Registry
    → Text
    → Option InvitationRecord
    → InvitationInput
    → ℕ
    → ℕ
    → Registry × Option InvitationError
unfolding cancel_prior mark_expired_if_needed
visit_prior reg key none input now clock = (reg, none)
visit_prior reg key (some r) input now clock =
    if concerns input r
    then cancel_prior (mark_expired_if_needed reg key r now) input.inviter_wallet_address clock
    else (reg, none)

abbrev pub unless_error :
    Registry
    → Option InvitationError
    → Registry × Option InvitationError
    → Registry × Option InvitationError
unless_error reg none later = later
unless_error reg (some e) later = (reg, some e)

-- The loop over `invitations.values()`, by the keys that the map has when it starts: the loop
-- changes records and adds no key.
pub visit_all : List Text → Registry → InvitationInput → ℕ → ℕ → Registry × Option InvitationError
unfolding visit_prior
visit_all [] reg input now clock = (reg, none)
visit_all (key ∷ keys) reg input now clock =
    let (reg', error) = visit_prior reg key (get key reg.invitations) input now clock in
    unless_error reg' error (visit_all keys reg' input now clock)

abbrev pub after_visits : Registry × Option InvitationError → Text → InvitationInput → ℕ → Outcome
after_visits (reg, some e) id input now = (reg, err e)
after_visits (reg, none) id input now = register_invitation reg id input now

unfoldable pub reinvite : Registry → Text → InvitationInput → ℕ → ℕ → Outcome
unfolding visit_all
reinvite reg id input now clock =
    after_visits (visit_all (map (λ e. e.0) reg.invitations) reg input now clock) id input now

-- The filter of `listPendingInvitations` marks each record that it looks at.
pub mark_all : List Text → Registry → ℕ → Registry
unfolding mark_expired_if_needed
mark_all [] reg now = reg
mark_all (key ∷ keys) reg now =
    mark_all keys (marked_at reg key (get key reg.invitations) now).0 now

abbrev pub is_listed : Option Text → Option Text → InvitationRecord → Bool
is_listed project_id inviter r =
    is_pending r.status
    && not (text_present project_id && not (same_text r.project_id project_id))
    && not (text_present inviter && not (same_text r.inviter_wallet_address inviter))

unfoldable pub list_pending_invitations :
    Registry → Option Text → Option Text → ℕ → Registry × List InvitationRecord
unfolding mark_all
list_pending_invitations reg project_id inviter now =
    let marked = mark_all (map (λ e. e.0) reg.invitations) reg now in
    (marked, filter (is_listed project_id inviter) (values marked.invitations))

-- What a registry is asked to do, with the clock, and the id that a registration draws.
pub data Command : Type 0 where
  register : Text → InvitationInput → ℕ → Command
  invite_again : Text → InvitationInput → ℕ → ℕ → Command
  cancel : Text → Text → Option Text → ℕ → Command
  accept : Text → ℕ → ℕ → Command
  look_up : Text → ℕ → Command
  look_up_token : Text → ℕ → Command
  list_pending : Option Text → Option Text → ℕ → Command

unfoldable pub execute : Registry → Command → Registry
execute reg (register id input now) = (register_invitation reg id input now).0
execute reg (invite_again id input now clock) = (reinvite reg id input now clock).0
execute reg (cancel id actor owner clock) = (cancel_invitation reg id actor owner clock).0
execute reg (accept jti now clock) = (accept_invitation_by_token_jti reg jti now clock).0
execute reg (look_up id clock) = (get_invitation_by_id reg id clock).0
execute reg (look_up_token jti clock) = (get_invitation_by_token_jti reg jti clock).0
execute reg (list_pending project inviter now) =
    (list_pending_invitations reg project inviter now).0

unfoldable pub execute_all : Registry → List Command → Registry
execute_all reg [] = reg
execute_all reg (c ∷ cs) = execute_all (execute reg c) cs
