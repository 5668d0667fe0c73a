-- ===== src/Listener/Skipped.antt =====
-- Payouts whose look-up the database fails (backend/src/services/EventListenerService.ts, the inner
-- catch of pollEvents).
use split_naira.Prelude.{
  ℕ, ◌≡◌, refl, ◌∙◌, Text, true, false, [], ◌∷◌, none, some, arith, if_true, is_empty, Bool-cases,
  inl, inr, ok,
}
use split_naira.Prelude.Dict.{Dict}
use split_naira.Listener.{
  EventListener, Database, PaymentRow, record_poll_success, schedule_polling, truthy_text,
}
use split_naira.Listener.Events.{
  ContractEvent, PollContext, GetEventsResponse, is_payout, decode_payout_event, process_event,
  new_records,
}
use split_naira.Listener.Polls.{
  Upsert, Batch, batch_of, needs_commit, commit_batch, upserted, advance, done, commit_and_advance,
  finish_poll,
}

abbrev pub one_event : ContractEvent → Text → GetEventsResponse
one_event event next = record { events = event ∷ []; latest_ledger = none; next_cursor = some next }

skipped :
    (context : PollContext) (stored : Dict PaymentRow) (event : ContractEvent)
    (payment : PaymentRow)
    → is_payout event ≡ true
    → decode_payout_event context event ≡ ok payment
    → context.lookup_fails event.tx_hash ≡ true
    → new_records context stored (event ∷ []) ≡ ok []
unfolding new_records process_event
skipped context stored event payment payout decoded fails =
    rw (new_records, process_event, payout, decoded, fails) refl

success_cursor :
    (now : ℕ) (l : EventListener) → (done (record_poll_success now l)).cursor ≡ l.cursor
unfolding record_poll_success schedule_polling
success_cursor now l = ground arith

advanced :
    (upsert : Upsert) (now : ℕ) (l : EventListener) (batch : Batch) (db : Database)
    (kept : Dict PaymentRow)
    → batch.records ≡ []
    → upsert [] db.transactions ≡ some kept
    → truthy_text batch.next_cursor ≡ true
    → ((commit_and_advance upsert now l batch db).0.cursor ≡ batch.next_cursor)
      × ((commit_and_advance upsert now l batch db).1.transactions ≡ db.transactions)
unfolding commit_and_advance commit_batch advance
advanced upsert now l batch db kept empty taken named =
    let moved : (advance l batch).cursor ≡ batch.next_cursor =
      if_true batch.next_cursor l.cursor named in
    let cursor = success_cursor now (advance l batch) ∙ moved in
    let same : upserted upsert batch.records db.transactions ≡ some db.transactions =
      rw (empty, taken) refl in
    elim (Bool-cases (needs_commit l batch)) [
      | inl due ↦ rw (commit_and_advance, due, commit_batch, same) (cursor, refl)
      | inr idle ↦ rw (commit_and_advance, idle) (cursor, refl)
    ]

-- Where the one payout event of a batch decodes but its look-up fails, the database takes a
-- transaction without rows, and the response has a next cursor that is not empty, the poll moves the cursor to it and leaves the stored payments as they
-- were.
pub finish_poll-lookup_failed :
    (context : PollContext) (upsert : Upsert) (now : ℕ) (event : ContractEvent)
    (payment : PaymentRow) (next : Text) (l : EventListener) (db : Database)
    (kept : Dict PaymentRow)
    → is_payout event ≡ true
    → decode_payout_event context event ≡ ok payment
    → context.lookup_fails event.tx_hash ≡ true
    → upsert [] db.transactions ≡ some kept
    → is_empty next ≡ false
    → ((finish_poll context upsert now (some (one_event event next)) (l, db)).0.cursor ≡ some next)
      × ((finish_poll context upsert now (some (one_event event next)) (l, db)).1.transactions
          ≡ db.transactions)
unfolding finish_poll
finish_poll-lookup_failed context upsert now event payment next l db kept payout decoded fails taken
      named =
    let truthy : truthy_text (some next) ≡ true = ground arith in
    let response = one_event event next in
    rw (finish_poll, skipped context db.transactions event payment payout decoded fails)
      (advanced upsert now l (batch_of l response []) db kept refl taken truthy)
