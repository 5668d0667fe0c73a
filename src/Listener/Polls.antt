-- ===== src/Listener/Polls.antt =====
-- The end of a poll, its commit and what the listener makes of it, and runs of the listener: the
-- second half of `pollEvents` in EventListenerService.ts.
use split_naira.Prelude.{
  ℕ, Text, text_eq, Bool, true, false, ◌&&◌, ◌||◌, not, List, [], ◌∷◌, Option, none, some, ltb,
  if◌then◌else◌, or_else, is_some, ok, err,
}
use split_naira.Prelude.Int.{pos, integer}
use split_naira.Prelude.Dict.{Dict}
use split_naira.Listener.{
  Database, EventListener, PaymentRow, StartReads, max_of, record_poll_failure, record_poll_success,
  start_event_listener_service, stop_event_listener_service, truthy_text,
}
use split_naira.Listener.Events.{
  ContractEvent, GetEventsResponse, PollContext, begin_poll, new_records,
}

abbrev pub highest_ledger : List ContractEvent → ℕ
highest_ledger [] = 0
highest_ledger (event ∷ events) = max_of (or_else event.ledger 0) (highest_ledger events)

-- `batchLastProcessedLedger`; an empty batch has seen everything up to the latest ledger.
unfoldable pub batch_last_processed_ledger : EventListener → GetEventsResponse → ℕ
batch_last_processed_ledger l response =
    let last = or_else l.last_processed_ledger 0 in
    elim response.events [
      | [] ↦ max_of last (or_else response.latest_ledger (or_else l.latest_observed_ledger 0))
      | _ ∷ _ ↦ max_of last (highest_ledger response.events)
    ]

abbrev pub no_records : List PaymentRow → Bool
no_records [] = true
no_records (_ ∷ _) = false

abbrev pub text_differs : Option Text → Option Text → Bool
text_differs (some a) (some b) = not (text_eq a b)
text_differs none none = false
text_differs _ _ = true

-- What a batch changes: its new rows, the cursor after it, and the last ledger that it has seen.
pub record Batch : Type 0 where
  pub records : List PaymentRow
  pub next_cursor : Option Text
  pub last_ledger : ℕ

abbrev pub ledger_advances : EventListener → Batch → Bool
ledger_advances l batch = ltb (or_else l.last_processed_ledger 0) batch.last_ledger

abbrev pub needs_commit : EventListener → Batch → Bool
needs_commit l batch =
    not (no_records batch.records)
    || (truthy_text batch.next_cursor && text_differs batch.next_cursor l.cursor)
    || ledger_advances l batch

-- A transaction of the database that upserts rows by their hash and stores the cursor and the ledger:
-- the rows after the upsert, or none where any of its writes fails, also one without rows.
abbrev pub Upsert : Type 0
Upsert = List PaymentRow → Dict PaymentRow → Option (Dict PaymentRow)

-- The upsert is left out where there are no new rows.
abbrev pub rows_after :
    List PaymentRow → Dict PaymentRow → Option (Dict PaymentRow) → Option (Dict PaymentRow)
rows_after records stored none = none
rows_after [] stored (some after) = some stored
rows_after (_ ∷ _) stored (some after) = some after

abbrev pub upserted : Upsert → List PaymentRow → Dict PaymentRow → Option (Dict PaymentRow)
upserted upsert records stored = rows_after records stored (upsert records stored)

abbrev pub committed_rows : EventListener → Batch → Database → Dict PaymentRow → Database
committed_rows l batch db transactions = record {
  cursor_row = if truthy_text batch.next_cursor then batch.next_cursor else db.cursor_row;
  ledger_row =
      if ledger_advances l batch then some (integer (pos batch.last_ledger)) else db.ledger_row;
  transactions = transactions;
}

-- The transaction: all of its writes, or none.
unfoldable pub commit_batch : Upsert → EventListener → Batch → Database → Option Database
commit_batch upsert l batch db = elim (upserted upsert batch.records db.transactions) [
  | none ↦ none
  | some transactions ↦ some (committed_rows l batch db transactions)
]

unfoldable pub advance : EventListener → Batch → EventListener
advance l batch = record l {
  cursor = if truthy_text batch.next_cursor then batch.next_cursor else l.cursor;
  start_ledger = if truthy_text batch.next_cursor then none else l.start_ledger;
  last_processed_ledger =
      if ledger_advances l batch then some batch.last_ledger else l.last_processed_ledger;
}

abbrev pub observe_ledger : ℕ → Option ℕ → EventListener → EventListener
observe_ledger now none l = l
observe_ledger now (some latest) l = record l {
  latest_observed_ledger = some latest;
  last_ledger_observation_at = some now;
}

abbrev pub done : EventListener → EventListener
done l = record l { is_polling = false }

-- The commit, where there is something to commit, and what follows it.
unfoldable pub commit_and_advance :
    Upsert → ℕ → EventListener → Batch → Database → EventListener × Database
unfolding commit_batch advance record_poll_success record_poll_failure
commit_and_advance upsert now l batch db =
    let committed = if needs_commit l batch then commit_batch upsert l batch db else some db in
    elim committed [
      | none ↦ (done (record_poll_failure l), db)
      | some next ↦ (done (record_poll_success now (advance l batch)), next)
    ]

abbrev pub batch_of : EventListener → GetEventsResponse → List PaymentRow → Batch
unfolding batch_last_processed_ledger
batch_of l response records = record {
  records = records;
  next_cursor = if is_some response.next_cursor then response.next_cursor else l.cursor;
  last_ledger = batch_last_processed_ledger l response;
}

-- The second step of a poll; no response stands for a call that failed or a malformed answer.
unfoldable pub finish_poll :
    PollContext
    → Upsert
    → ℕ
    → Option GetEventsResponse
    → EventListener × Database
    → EventListener × Database
unfolding new_records batch_last_processed_ledger commit_and_advance record_poll_failure
finish_poll context upsert now none (l, db) = (done (record_poll_failure l), db)
finish_poll context upsert now (some response) (l, db) =
    elim (new_records context db.transactions response.events) [
      | err _ ↦ (done (record_poll_failure l), db)
      | ok records ↦
          let observed = observe_ledger now response.latest_ledger l in
          commit_and_advance upsert now observed (batch_of l response records) db
    ]

-- What happens to the listener: starts and stops, the ticks of its timer, and the ends of polls. A
-- tick where the timer is not armed, and an end where no poll is under way, do not happen. A start is
-- one event: nothing else happens while it awaits its reads.
pub data ListenerEvent : Type 0 where
  started : StartReads → ListenerEvent
  stopped_by_call : ListenerEvent
  ticked : ListenerEvent
  poll_ended : ℕ → Option GetEventsResponse → ListenerEvent

unfoldable pub step_listener :
    PollContext → Upsert → ListenerEvent → EventListener × Database → EventListener × Database
unfolding start_event_listener_service stop_event_listener_service begin_poll finish_poll
step_listener context upsert (started reads) (l, db) =
    (start_event_listener_service reads (l, db), db)
step_listener context upsert stopped_by_call (l, db) = (stop_event_listener_service l, db)
step_listener context upsert ticked (l, db) =
    if l.poll_interval then ((begin_poll l).0, db) else (l, db)
step_listener context upsert (poll_ended now response) (l, db) =
    if l.is_polling then finish_poll context upsert now response (l, db) else (l, db)

unfoldable pub run_listener :
    PollContext → Upsert → List ListenerEvent → EventListener × Database → EventListener × Database
unfolding step_listener
run_listener context upsert [] s = s
run_listener context upsert (event ∷ events) s =
    run_listener context upsert events (step_listener context upsert event s)
