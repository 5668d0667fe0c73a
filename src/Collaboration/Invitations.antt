-- ===== src/Collaboration/Invitations.antt =====
-- Invitations (backend/src/services/collaboration/invitation-registry.ts). The registry is the
-- module's state; a record that the code mutates is written back under the key it was found at.
-- The clock and the generated id are arguments.
pub mod Closed
use split_naira.Prelude.{
  ℕ, ◌+◌, Text, text_eq, trim, to_lower_case, is_empty, Bool, true, false, ◌&&◌, ◌||◌, not, List,
  [], ◌∷◌, ◌++◌, Option, none, some, leb, if◌then◌else◌, filter, Result, ok, err, or_else, is_some,
}
use split_naira.Prelude.Dict.{Dict, get, set, values}
use split_naira.Lifecycle.{Deadline, at, not_a_date}

pub data InvitationStatus : Type 0 where
  pending accepted cancelled expired : InvitationStatus

abbrev pub default_invitation_ttl_ms : ℕ
default_invitation_ttl_ms = 604800000

pub record InvitationRecord : Type 0 where
  pub id : Text
  pub email : Text
  pub token_jti : Text
  pub project_id : Option Text
  pub inviter_wallet_address : Option Text
  pub status : InvitationStatus
  pub created_at : ℕ
  pub expires_at : ℕ
  pub cancelled_at : Option ℕ
  pub cancelled_by : Option Text
  pub accepted_at : Option ℕ
  pub expired_at : Option ℕ

pub data InvitationCancelAuthority : Type 0 where
  inviter project_owner : InvitationCancelAuthority

pub record InvitationCancelEvent : Type 0 where
  pub invitation_id : Text
  pub email : Text
  pub project_id : Option Text
  pub cancelled_by : Text
  pub authority : InvitationCancelAuthority
  pub at : ℕ

pub record InvitationExpiredEvent : Type 0 where
  pub invitation_id : Text
  pub email : Text
  pub project_id : Option Text
  pub at : ℕ

pub record Registry : Type 0 where
  pub invitations : Dict InvitationRecord
  pub token_index : Dict Text
  pub cancel_events : List InvitationCancelEvent
  pub expired_events : List InvitationExpiredEvent

pub data InvitationError : Type 0 where
  invitation_expires_in_past invitation_not_found invitation_already_accepted : InvitationError
  invitation_expired actor_required inviter_unknown forbidden_not_inviter : InvitationError
  invitation_not_tracked invitation_cancelled invalid_time : InvitationError

-- An operation changes the registry, also where it throws.
abbrev pub Outcome : Type 0
Outcome = Registry × Result InvitationError InvitationRecord

unfoldable pub reset_invitation_registry_for_tests : Registry
reset_invitation_registry_for_tests = record {
  invitations = [];
  token_index = [];
  cancel_events = [];
  expired_events = [];
}

abbrev pub is_pending : InvitationStatus → Bool
is_pending pending = true
is_pending _ = false

unfoldable pub mark_expired_if_needed :
    Registry → Text → InvitationRecord → ℕ → Registry × InvitationRecord
mark_expired_if_needed reg key r now =
    if is_pending r.status && leb r.expires_at now
    then (
      record reg {
        invitations =
            set key (record r { status = expired; expired_at = some now }) reg.invitations;
        expired_events =
            reg.expired_events
            ++ record { invitation_id = r.id; email = r.email; project_id = r.project_id; at = now }
              ∷ [];
      },
      record r { status = expired; expired_at = some now },
    )
    else (reg, r)

abbrev pub expired_as : InvitationStatus → ℕ → ℕ → Bool
expired_as expired expires_at now = true
expired_as pending expires_at now = leb expires_at now
expired_as _ expires_at now = false

unfoldable pub is_invitation_expired : InvitationRecord → ℕ → Bool
is_invitation_expired r now = expired_as r.status r.expires_at now

pub record InvitationInput : Type 0 where
  pub email : Text
  pub token_jti : Text
  pub project_id : Option Text
  pub inviter_wallet_address : Option Text
  pub ttl_ms : Option ℕ
  pub expires_at : Option Deadline

-- The absolute expiry, or the time to live from now on.
abbrev pub expiry_of : InvitationInput → ℕ → Deadline
expiry_of input now =
    or_else input.expires_at (at (now + or_else input.ttl_ms default_invitation_ttl_ms))

abbrev pub new_record : Text → InvitationInput → ℕ → ℕ → InvitationRecord
new_record id input now expires_at = record {
  id = id;
  email = to_lower_case input.email;
  token_jti = input.token_jti;
  project_id = input.project_id;
  inviter_wallet_address = input.inviter_wallet_address;
  status = pending;
  created_at = now;
  expires_at = expires_at;
  cancelled_at = none;
  cancelled_by = none;
  accepted_at = none;
  expired_at = none;
}

-- An invalid date passes the comparison, and `toISOString` throws on it.
pub register_until : Registry → Text → InvitationInput → ℕ → Deadline → Outcome
register_until reg id input now not_a_date = (reg, err invalid_time)
register_until reg id input now (at t) =
    if leb t now then (reg, err invitation_expires_in_past) else (
      record reg {
        invitations = set id (new_record id input now t) reg.invitations;
        token_index = set input.token_jti id reg.token_index;
      },
      ok (new_record id input now t),
    )

unfoldable pub register_invitation : Registry → Text → InvitationInput → ℕ → Outcome
unfolding register_until
register_invitation reg id input now = register_until reg id input now (expiry_of input now)

-- The trimmed text of an optional address.
abbrev pub trimmed : Option Text → Text
trimmed a = trim (or_else a [])

-- `x !== "" && actor === x`.
unfoldable pub matches : Text → Text → Bool
matches actor x = not (is_empty x) && text_eq actor x

-- The part of `cancelInvitation` for a pending record.
pub cancel_pending : Registry → Text → InvitationRecord → Text → Option Text → ℕ → Outcome
unfolding matches
cancel_pending reg key r actor owner clock =
    if is_empty (trim actor)
    then (reg, err actor_required)
    else if matches (trim actor) (trimmed r.inviter_wallet_address)
        || matches (trim actor) (trimmed owner)
    then (
      record reg {
        invitations =
            set key
              (record r {
                status = cancelled;
                cancelled_at = some clock;
                cancelled_by = some (trim actor);
              })
              reg.invitations;
        cancel_events =
            reg.cancel_events
            ++ record {
              invitation_id = r.id;
              email = r.email;
              project_id = r.project_id;
              cancelled_by = trim actor;
              authority = if matches (trim actor) (trimmed owner) then project_owner else inviter;
              at = clock;
            }
              ∷ [];
      },
      ok (record r {
        status = cancelled;
        cancelled_at = some clock;
        cancelled_by = some (trim actor);
      }),
    )
    else (
      reg,
      err (
          if is_empty (trimmed r.inviter_wallet_address)
          then inviter_unknown
          else forbidden_not_inviter),
    )

-- By the status, after the expiry check.
pub cancel_as :
    InvitationStatus → Registry → Text → InvitationRecord → Text → Option Text → ℕ → Outcome
unfolding cancel_pending
cancel_as cancelled reg key r actor owner clock = (reg, ok r)
cancel_as accepted reg key r actor owner clock = (reg, err invitation_already_accepted)
cancel_as expired reg key r actor owner clock = (reg, err invitation_expired)
cancel_as pending reg key r actor owner clock = cancel_pending reg key r actor owner clock

pub cancel_found : Registry → Text → Option InvitationRecord → Text → Option Text → ℕ → Outcome
unfolding cancel_as mark_expired_if_needed
cancel_found reg key none actor owner clock = (reg, err invitation_not_found)
cancel_found reg key (some r) actor owner clock =
    let (marked, r') = mark_expired_if_needed reg key r clock in
    cancel_as r'.status marked key r' actor owner clock

unfoldable pub cancel_invitation : Registry → Text → Text → Option Text → ℕ → Outcome
unfolding cancel_found
cancel_invitation reg invitation_id actor owner clock =
    cancel_found reg invitation_id (get invitation_id reg.invitations) actor owner clock
