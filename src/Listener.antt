-- ===== src/Listener.antt =====
-- The background worker that follows the contract's events
-- (backend/src/services/EventListenerService.ts): its state, its starts and stops, and what failed
-- and successful polls make of its status. Events and Polls are the two steps of a poll.
pub mod Events
pub mod Polls
pub mod Cadence
pub mod Recovery
pub mod Commits
pub mod Payments
pub mod Writes
pub mod Rows
pub mod Skipped
pub mod Stored
pub mod Resumes
use split_naira.Prelude.{
  ℕ, zero, suc, ◌+◌, ◌-◌, ◌≤◌, Text, codes, text_eq, is_empty, Bool, true, false, ◌&&◌, ◌||◌, not,
  List, [], ◌∷◌, ◌++◌, Option, none, some, ltb, leb, ◌==◌, if◌then◌else◌, or_else, is_some, Result,
  ok, err, ◌>>=◌,
}
use split_naira.Prelude.Int.{ℤ, pos, negsuc, Number, integer, not_integer, max_safe_integer}
use split_naira.Prelude.Dict.{Dict, has}

abbrev pub normal_poll_interval_ms : ℕ
normal_poll_interval_ms = 5000

abbrev pub backoff_poll_interval_ms : ℕ
backoff_poll_interval_ms = 30000

abbrev pub error_threshold : ℕ
error_threshold = 3

abbrev pub max_catchup_ledgers : ℕ
max_catchup_ledgers = 10000

abbrev pub startup_lookback_ledgers : ℕ
startup_lookback_ledgers = 100

pub data ServiceStatus : Type 0 where
  stopped healthy degraded : ServiceStatus

-- The variables of the module; `poll_interval` is whether the timer is armed.
pub record EventListener : Type 0 where
  pub poll_interval : Bool
  pub is_polling : Bool
  pub start_ledger : Option ℕ
  pub cursor : Option Text
  pub consecutive_errors : ℕ
  pub last_successful_poll : Option ℕ
  pub current_poll_delay_ms : ℕ
  pub latest_observed_ledger : Option ℕ
  pub last_processed_ledger : Option ℕ
  pub last_ledger_observation_at : Option ℕ

abbrev pub new_listener : EventListener
new_listener = record {
  poll_interval = false;
  is_polling = false;
  start_ledger = none;
  cursor = none;
  consecutive_errors = 0;
  last_successful_poll = none;
  current_poll_delay_ms = normal_poll_interval_ms;
  latest_observed_ledger = none;
  last_processed_ledger = none;
  last_ledger_observation_at = none;
}

-- A completed payment as the listener creates it.
pub record PaymentRow : Type 0 where
  pub round_id : Text
  pub recipient : Text
  pub amount : Text
  pub token : Text
  pub timestamp : ℕ
  pub tx_hash : Text

-- The rows of ServiceState under the listener's two keys, and those of the transactions by hash.
pub record Database : Type 0 where
  pub cursor_row : Option Text
  pub ledger_row : Option Number
  pub transactions : Dict PaymentRow

-- What JavaScript takes for true: a text that is not empty, a number that is not 0.
abbrev pub truthy_text : Option Text → Bool
truthy_text none = false
truthy_text (some s) = not (is_empty s)

abbrev pub truthy_number : Option ℕ → Bool
truthy_number none = false
truthy_number (some n) = ltb 0 n

unfoldable pub get_ledger_lag : EventListener → Option ℕ
get_ledger_lag l = elim l.latest_observed_ledger [
  | none ↦ none
  | some latest ↦ elim l.last_processed_ledger [ none ↦ none | some last ↦ some (latest - last) ]
]

unfoldable pub schedule_polling : ℕ → EventListener → EventListener
schedule_polling delay_ms l =
    if l.poll_interval && l.current_poll_delay_ms == delay_ms
    then l
    else record l { poll_interval = true; current_poll_delay_ms = delay_ms }

-- The comparison of the difference of two ledgers with the limit, without a negative number.
unfoldable pub cap_catch_up_window : ℕ → ℕ → ℕ
cap_catch_up_window latest_ledger desired_start_ledger =
    if ltb (desired_start_ledger + max_catchup_ledgers) latest_ledger
    then latest_ledger - max_catchup_ledgers
    else desired_start_ledger

abbrev pub max_of : ℕ → ℕ → ℕ
max_of a b = if leb a b then b else a

-- `Number.isSafeInteger(value) && value >= 0 ? value : null`.
abbrev pub persisted_ledger : Option Number → Option ℕ
persisted_ledger (some (integer (pos n))) = if leb n max_safe_integer then some n else none
persisted_ledger _ = none

abbrev pub resume : Option Text → Option ℕ → EventListener → EventListener
resume (some value) latest l = record l { cursor = some value; start_ledger = none }
resume none none l = l
resume none (some sequence) l = record l {
  start_ledger =
      some (cap_catch_up_window sequence (max_of 1 (sequence - startup_lookback_ledgers)));
}

abbrev pub read_ledger : Database → EventListener → EventListener
read_ledger db l = record l { last_processed_ledger = persisted_ledger db.ledger_row }

abbrev pub persisted_cursor : Database → Option Text
persisted_cursor db = if truthy_text db.cursor_row then db.cursor_row else none

-- What a start awaits: whether a read of the state fails, and the answer to getLatestLedger, none
-- where that call fails.
pub record StartReads : Type 0 where
  pub cursor_read_fails : Bool
  pub ledger_read_fails : Bool
  pub latest_ledger : Option ℕ

-- The part of a start before its first await, where the timer is not armed.
abbrev pub begin_start : EventListener → EventListener
begin_start l = record l { consecutive_errors = 0 }

-- The part after it. Where a read fails, the polls start from what the variables hold.
unfoldable pub finish_start : StartReads → EventListener × Database → EventListener
unfolding schedule_polling cap_catch_up_window
finish_start reads (l, db) = schedule_polling normal_poll_interval_ms (
    if reads.cursor_read_fails || reads.ledger_read_fails
    then l
    else resume (persisted_cursor db) reads.latest_ledger (read_ledger db l))

-- A start whose reads nothing else comes between.
unfoldable pub start_event_listener_service : StartReads → EventListener × Database → EventListener
unfolding finish_start
start_event_listener_service reads (l, db) =
    if l.poll_interval then l else finish_start reads (begin_start l, db)

unfoldable pub stop_event_listener_service : EventListener → EventListener
stop_event_listener_service l =
    if l.poll_interval
    then record l {
      poll_interval = false;
      current_poll_delay_ms = normal_poll_interval_ms;
      consecutive_errors = 0;
    }
    else l

unfoldable pub service_status : EventListener → ServiceStatus
service_status l =
    if not l.poll_interval
    then stopped
    else if leb error_threshold l.consecutive_errors
    then degraded
    else healthy

unfoldable pub record_poll_failure : EventListener → EventListener
unfolding schedule_polling
record_poll_failure l =
    let failed = record l { consecutive_errors = l.consecutive_errors + 1 } in
    if leb error_threshold failed.consecutive_errors
      && not (failed.current_poll_delay_ms == backoff_poll_interval_ms)
    then schedule_polling backoff_poll_interval_ms failed
    else failed

unfoldable pub record_poll_success : ℕ → EventListener → EventListener
unfolding schedule_polling
record_poll_success now l =
    let recovered = record l { consecutive_errors = 0; last_successful_poll = some now } in
    if not (recovered.current_poll_delay_ms == normal_poll_interval_ms)
    then schedule_polling normal_poll_interval_ms recovered
    else recovered
