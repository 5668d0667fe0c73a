-- ===== src/Witnesses/ListenerTests.antt =====
-- The event listener at concrete inputs.
use split_naira.Prelude.{
  ◌≡◌, ◌↔◌, refl, ap, arith, Text, codes, text_eq, text_eq_iff, true, false, List, [], ◌∷◌, Option,
  none, some, ok, subst, ◌∙◌, inl, inr, if_true, if_false, Bool-cases,
}
use split_naira.Prelude.Dict.{Dict, get, set, get-set}
use split_naira.Listener.{
  EventListener, new_listener, Database, PaymentRow, service_status, degraded, healthy, truthy_text,
  start_event_listener_service, backoff_poll_interval_ms, normal_poll_interval_ms,
}
use split_naira.Listener.Events.{
  ContractEvent, PollContext, GetEventsResponse, is_payout, decode_payout_event, new_records,
}
use split_naira.Listener.Polls.{
  Upsert, ListenerEvent, started, stopped_by_call, ticked, poll_ended, finish_poll, run_listener,
}
use split_naira.Listener.Cadence.{run_listener-service_status}
use split_naira.Listener.Recovery.{
  failing_polls, IsReady, failing_polls_degrade, IsHealthyAt, successful_poll_recovers,
}
use split_naira.Listener.Writes.{Written, Upserts}
use split_naira.Listener.Rows.{AllOrNothing, finish_poll-AllOrNothing}
use split_naira.Listener.Skipped.{one_event, finish_poll-lookup_failed}
use split_naira.Listener.Resumes.{reads_succeed, start-run_listener}

abbrev context : PollContext
context = record {
  contract_id = codes "C1";
  is_symbol = λ topic. true;
  lookup_fails = λ tx_hash. false;
  token_of = λ project. none;
}

abbrev empty_database : Database
empty_database = record { cursor_row = none; ledger_row = none; transactions = [] }

abbrev upsert_all : List PaymentRow → Dict PaymentRow → Dict PaymentRow
upsert_all [] rows = rows
upsert_all (r ∷ rs) rows = upsert_all rs (set r.tx_hash r rows)

abbrev upsert : Upsert
upsert records rows = some (upsert_all records rows)

set_and_more :
    (r : PaymentRow) (rs : List PaymentRow) (rows after : Dict PaymentRow) (h : Text)
    → Written rs (set r.tx_hash r rows) after h
    → Written (r ∷ rs) rows after h
set_and_more r rs rows after h (inr (x, found, given)) = inr (x, found, inr given)
set_and_more r rs rows after h (inl (none_more, same)) = elim (Bool-cases (text_eq r.tx_hash h)) [
  | inl this ↦ inr (
    r,
    same ∙ get-set r.tx_hash h r rows ∙ if_true (some r) (get h rows) this,
    inl (refl, (text_eq_iff r.tx_hash h).0 this),
  )
  | inr other ↦ inl (
    rw (other) none_more,
    same ∙ get-set r.tx_hash h r rows ∙ if_false (some r) (get h rows) other,
  )
]

upsert_all-Written :
    (records : List PaymentRow) (rows : Dict PaymentRow) (h : Text)
    → Written records rows (upsert_all records rows) h
upsert_all-Written [] rows h = inl (refl, refl)
upsert_all-Written (r ∷ rs) rows h =
    set_and_more r rs rows (upsert_all rs (set r.tx_hash r rows)) h
      (upsert_all-Written rs (set r.tx_hash r rows) h)

rows_of : Option (Dict PaymentRow) → Dict PaymentRow
rows_of none = []
rows_of (some rows) = rows

upsert-Upserts : Upserts upsert
unfolding rows_of
upsert-Upserts records rows after e h =
    subst (λ l. Written records rows l h) (ap rows_of e) (upsert_all-Written records rows h)

abbrev payout : ContractEvent
payout = record {
  topics = codes "payment_sent" ∷ codes "rent" ∷ [];
  tx_hash = codes "h1";
  ledger = some 50;
  contract_id = some (codes "C1");
  payout = some (codes "GALICE", codes "25000000");
  closed_at = 1700000000;
}

abbrev response : GetEventsResponse
response = record { events = payout ∷ []; latest_ledger = some 51; next_cursor = some (codes "c1") }

abbrev history : List ListenerEvent
history =
    started (reads_succeed (some 100))
    ∷ ticked
    ∷ poll_ended 1 (some response)
    ∷ ticked
    ∷ poll_ended 2 none
    ∷ stopped_by_call
    ∷ []

abbrev running : EventListener
running = record new_listener { poll_interval = true }

running-IsReady : IsReady running
running-IsReady = (refl, refl, ground arith)

run_listener-service_status_example :
    ((service_status (run_listener context upsert history (new_listener, empty_database)).0
        ≡ degraded)
      ↔ ((run_listener context upsert history
            (new_listener, empty_database)).0.current_poll_delay_ms
          ≡ backoff_poll_interval_ms))
    × ((service_status (run_listener context upsert history (new_listener, empty_database)).0
          ≡ healthy)
        ↔ (((run_listener context upsert history (new_listener, empty_database)).0.poll_interval
              ≡ true)
            × ((run_listener context upsert history
                  (new_listener, empty_database)).0.current_poll_delay_ms
                ≡ normal_poll_interval_ms)))
run_listener-service_status_example =
    run_listener-service_status context upsert history empty_database

failing_polls_degrade_example :
    (service_status (run_listener context upsert (failing_polls 4) (running, empty_database)).0
      ≡ degraded)
    × ((run_listener context upsert
          (failing_polls 4)
          (running, empty_database)).0.current_poll_delay_ms
        ≡ backoff_poll_interval_ms)
    × ((run_listener context upsert (failing_polls 4) (running, empty_database)).1 ≡ empty_database)
failing_polls_degrade_example =
    failing_polls_degrade context upsert 4 running empty_database running-IsReady (omega arith)

abbrev created : PaymentRow
created = record {
  round_id = codes "rent";
  recipient = codes "GALICE";
  amount = codes "25000000";
  token = codes "Native";
  timestamp = 1700000000;
  tx_hash = codes "h1";
}

decodes : new_records context [] (payout ∷ []) ≡ ok (created ∷ [])
unfolding new_records text_eq get
decodes = refl

successful_poll_recovers_example :
    IsHealthyAt 9
      (run_listener context upsert
        (ticked ∷ poll_ended 9 (some response) ∷ [])
        (running, empty_database)).0
successful_poll_recovers_example =
    successful_poll_recovers context upsert running empty_database 9 response (created ∷ [])
      (upsert_all (created ∷ []) []) running-IsReady decodes refl

finish_poll-AllOrNothing_example :
    AllOrNothing context
      (payout ∷ [])
      none
      empty_database
      (finish_poll context upsert 9 (some response) (running, empty_database))
finish_poll-AllOrNothing_example =
    finish_poll-AllOrNothing context upsert 9 response running empty_database upsert-Upserts

abbrev broken : PollContext
broken = record context { lookup_fails = λ tx_hash. true }

payout_named : is_payout payout ≡ true
unfolding text_eq
payout_named = refl

payout_decodes : decode_payout_event broken payout ≡ ok created
unfolding decode_payout_event text_eq
payout_decodes = refl

finish_poll-lookup_failed_example :
    ((finish_poll broken upsert 9
        (some (one_event payout (codes "c1")))
        (running, empty_database)).0.cursor
      ≡ some (codes "c1"))
    × ((finish_poll broken upsert 9
          (some (one_event payout (codes "c1")))
          (running, empty_database)).1.transactions
        ≡ [])
finish_poll-lookup_failed_example =
    finish_poll-lookup_failed broken upsert 9 payout created (codes "c1") running empty_database []
      payout_named payout_decodes refl refl refl

holds_cursor :
    truthy_text (run_listener context upsert history (new_listener, empty_database)).0.cursor ≡ true
unfolding run_listener text_eq get set
holds_cursor = refl

start-run_listener_example :
    (start_event_listener_service
      (reads_succeed none)
      (new_listener, (run_listener context upsert history (new_listener, empty_database)).1)).cursor
    ≡ (run_listener context upsert history (new_listener, empty_database)).0.cursor
start-run_listener_example =
    start-run_listener context upsert history empty_database none holds_cursor
