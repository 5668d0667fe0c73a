-- ===== src/Splits/Expiration.antt =====
-- Split expiration (backend/src/services/splits/split-expiration.registry.ts). Times are
-- milliseconds; a date that does not parse is `not_a_date`.
pub mod Reached
pub mod Configured
use split_naira.Prelude.{
  ℕ, Text, codes, text_eq, is_empty, Bool, true, false, ◌&&◌, not, List, [], ◌∷◌, ◌++◌, Option,
  none, some, ltb, leb, if◌then◌else◌, filter, any, Result, ok, err, is_some,
}
use split_naira.Prelude.Dict.{Dict, get, set}
use split_naira.Lifecycle.{Deadline, at, not_a_date}

pub data ExpirationTransition : Type 0 where
  configured updated cleared reached : ExpirationTransition

pub record SplitExpirationRecord : Type 0 where
  pub project_id : Text
  pub created_at : ℕ
  pub expires_at : Option ℕ
  pub configured_by : Text
  pub updated_at : ℕ

pub record ExpirationLifecycleEvent : Type 0 where
  pub kind : ExpirationTransition
  pub project_id : Text
  pub actor : Text
  pub expires_at : Option ℕ
  pub at : ℕ

pub record Expirations : Type 0 where
  pub records : Dict SplitExpirationRecord
  pub events : List ExpirationLifecycleEvent

-- `invalid_time` is the `RangeError` of `toISOString` on an invalid date.
pub data ExpirationError : Type 0 where
  invalid_expiration expiration_before_creation expiration_in_past : ExpirationError
  invalid_time split_expired : ExpirationError

pub record ExpirationInput : Type 0 where
  pub project_id : Text
  pub created_at : Deadline
  pub expires_at : Option Deadline
  pub actor : Text

unfoldable pub reset_split_expiration_registry_for_tests : Expirations
reset_split_expiration_registry_for_tests = record { records = []; events = [] }

-- `a.getTime() <= b.getTime()` with `b` possibly not a number.
abbrev pub not_after : ℕ → Deadline → Bool
not_after t not_a_date = false
not_after t (at created) = leb t created

-- The checks on the requested deadline.
pub checked_expiry : Bool → Deadline → Option Deadline → ℕ → Result ExpirationError (Option ℕ)
checked_expiry exists created none now = ok none
checked_expiry exists created (some not_a_date) now = err invalid_expiration
checked_expiry exists created (some (at t)) now =
    if not_after t created
    then err expiration_before_creation
    else if not exists && leb t now
    then err expiration_in_past
    else ok (some t)

abbrev pub transition_of : Bool → Option ℕ → ExpirationTransition
transition_of false expires_at = configured
transition_of true none = cleared
transition_of true (some t) = updated

abbrev pub expiration_record : ExpirationInput → ℕ → Option ℕ → ℕ → SplitExpirationRecord
expiration_record input created expires_at now = record {
  project_id = input.project_id;
  created_at = created;
  expires_at = expires_at;
  configured_by = input.actor;
  updated_at = now;
}

-- The writes, after the checks; an invalid creation date throws before them.
pub store_expiry :
    Expirations
    → ExpirationInput
    → Deadline
    → Option ℕ
    → ℕ
    → Expirations × Result ExpirationError SplitExpirationRecord
store_expiry s input not_a_date expires_at now = (s, err invalid_time)
store_expiry s input (at created) expires_at now = (
  record {
    records = set input.project_id (expiration_record input created expires_at now) s.records;
    events =
        s.events
        ++ record {
          kind = transition_of (is_some (get input.project_id s.records)) expires_at;
          project_id = input.project_id;
          actor = input.actor;
          expires_at = expires_at;
          at = now;
        }
          ∷ [];
  },
  ok (expiration_record input created expires_at now),
)

pub store_checked :
    Expirations
    → ExpirationInput
    → Result ExpirationError (Option ℕ)
    → ℕ
    → Expirations × Result ExpirationError SplitExpirationRecord
unfolding store_expiry
store_checked s input (err e) now = (s, err e)
store_checked s input (ok expires_at) now = store_expiry s input input.created_at expires_at now

unfoldable pub configure_expiration :
    Expirations → ExpirationInput → ℕ → Expirations × Result ExpirationError SplitExpirationRecord
unfolding store_checked checked_expiry
configure_expiration s input now =
    store_checked s input
      (checked_expiry (is_some (get input.project_id s.records)) input.created_at input.expires_at
        now)
      now

abbrev pub get_expiration : Expirations → Text → Option SplitExpirationRecord
get_expiration s project_id = get project_id s.records

-- `record?.expiresAt`.
abbrev pub deadline_of : Option SplitExpirationRecord → Option ℕ
deadline_of none = none
deadline_of (some r) = r.expires_at

abbrev pub is_due : Option ℕ → ℕ → Bool
is_due none now = false
is_due (some t) now = leb t now

unfoldable pub is_split_expired : Expirations → Text → ℕ → Bool
is_split_expired s project_id now = is_due (deadline_of (get project_id s.records)) now

abbrev pub is_kind_reached : ExpirationTransition → Bool
is_kind_reached reached = true
is_kind_reached _ = false

abbrev pub is_reached_event : Text → ExpirationLifecycleEvent → Bool
is_reached_event project_id e = text_eq e.project_id project_id && is_kind_reached e.kind

abbrev pub reached_event : Text → ℕ → ℕ → ExpirationLifecycleEvent
reached_event project_id t now = record {
  kind = reached;
  project_id = project_id;
  actor = codes "system";
  expires_at = some t;
  at = now;
}

pub assert_deadline :
    Expirations → Text → Option ℕ → ℕ → Expirations × Result ExpirationError (Unit {0})
assert_deadline s project_id none now = (s, ok tt)
assert_deadline s project_id (some t) now =
    if ltb now t
    then (s, ok tt)
    else if any (is_reached_event project_id) s.events
    then (s, err split_expired)
    else (record s { events = s.events ++ reached_event project_id t now ∷ [] }, err split_expired)

unfoldable pub assert_not_expired :
    Expirations → Text → ℕ → Expirations × Result ExpirationError (Unit {0})
unfolding assert_deadline
assert_not_expired s project_id now =
    assert_deadline s project_id (deadline_of (get project_id s.records)) now

unfoldable pub list_expiration_events : Expirations → Option Text → List ExpirationLifecycleEvent
list_expiration_events s none = s.events
list_expiration_events s (some id) =
    if is_empty id then s.events else filter (λ e. text_eq e.project_id id) s.events
