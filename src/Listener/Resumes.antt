-- ===== src/Listener/Resumes.antt =====
-- The cursor in memory and the one that is stored (backend/src/services/EventListenerService.ts)
-- over histories of the listener, and what a restart resumes from.
use split_naira.Prelude.{
  ℕ, ◌≡◌, ◌⊎◌, refl, ap, ◌∙◌, Text, true, false, ◌||◌, List, [], ◌∷◌, Option, none, some, if_elim,
  if_true, inl, inr, leb,
}
use split_naira.Prelude.Int.{pos, negsuc, Number, integer, not_integer, max_safe_integer}
use split_naira.Listener.{
  EventListener, new_listener, Database, truthy_text, schedule_polling, persisted_ledger, resume,
  read_ledger, persisted_cursor, StartReads, begin_start, finish_start,
  start_event_listener_service, stop_event_listener_service, normal_poll_interval_ms,
}
use split_naira.Listener.Events.{PollContext, begin_poll}
use split_naira.Listener.Polls.{
  Upsert, ListenerEvent, started, stopped_by_call, ticked, poll_ended, step_listener, run_listener,
}
use split_naira.Listener.Stored.{
  LedgerAgrees, KeepsStored, moved, schedule-SamePlace, stop-SamePlace, begin-SamePlace,
  finish_poll-KeepsStored,
}

persisted_ledger-LedgerAgrees : (row : Option Number) → LedgerAgrees (persisted_ledger row) row
persisted_ledger-LedgerAgrees none = tt
persisted_ledger-LedgerAgrees (some not_integer) = tt
persisted_ledger-LedgerAgrees (some (integer (negsuc n))) = tt
persisted_ledger-LedgerAgrees (some (integer (pos n))) =
    if_elim (λ last. LedgerAgrees last (some (integer (pos n)))) (leb n max_safe_integer)
      (λ _. refl) (λ _. tt)

resume-KeepsStored :
    (latest : Option ℕ) (persisted : Option Text) (l : EventListener) (db : Database)
    → (persisted ≡ none) ⊎ (db.cursor_row ≡ persisted)
    → KeepsStored (l, db)
    → KeepsStored (resume persisted latest l, db)
resume-KeepsStored latest (some c) l db (inl e) (h, k) = absurd (cc e)
resume-KeepsStored latest (some c) l db (inr e) (h, k) = (inr e, k)
resume-KeepsStored none none l db e h = h
resume-KeepsStored (some sequence) none l db e h = h

persisted_row :
    (db : Database) → (persisted_cursor db ≡ none) ⊎ (db.cursor_row ≡ persisted_cursor db)
persisted_row db =
    if_elim (λ c. (c ≡ none) ⊎ (db.cursor_row ≡ c)) (truthy_text db.cursor_row) (λ _. inr refl)
      (λ _. inl refl)

scheduled-KeepsStored :
    (l : EventListener) (db : Database)
    → KeepsStored (l, db)
    → KeepsStored (schedule_polling normal_poll_interval_ms l, db)
scheduled-KeepsStored l db h =
    moved (schedule_polling normal_poll_interval_ms l) l db
      (schedule-SamePlace normal_poll_interval_ms l) h

start-KeepsStored :
    (reads : StartReads) (l : EventListener) (db : Database)
    → KeepsStored (l, db)
    → KeepsStored (start_event_listener_service reads (l, db), db)
unfolding start_event_listener_service finish_start
start-KeepsStored reads l db (h, k) =
    let begun = begin_start l in
    let resumed = resume (persisted_cursor db) reads.latest_ledger (read_ledger db begun) in
    if_elim (λ (next : EventListener). KeepsStored (next, db)) l.poll_interval (λ _. (h, k))
      (λ _.
        if_elim
          (λ (next : EventListener).
            KeepsStored (schedule_polling normal_poll_interval_ms next, db))
          (reads.cursor_read_fails || reads.ledger_read_fails)
          (λ _. scheduled-KeepsStored begun db (h, k))
          (λ _. scheduled-KeepsStored resumed db (
            resume-KeepsStored reads.latest_ledger (persisted_cursor db) (read_ledger db begun) db
              (persisted_row db) (h, persisted_ledger-LedgerAgrees db.ledger_row))))

step_listener-KeepsStored :
    (context : PollContext) (upsert : Upsert) (event : ListenerEvent) (l : EventListener)
    (db : Database)
    → KeepsStored (l, db)
    → KeepsStored (step_listener context upsert event (l, db))
unfolding step_listener
step_listener-KeepsStored context upsert (started reads) l db h = start-KeepsStored reads l db h
step_listener-KeepsStored context upsert stopped_by_call l db h =
    moved (stop_event_listener_service l) l db (stop-SamePlace l) h
step_listener-KeepsStored context upsert ticked l db h =
    if_elim KeepsStored l.poll_interval (λ _. moved (begin_poll l).0 l db (begin-SamePlace l) h)
      (λ _. h)
step_listener-KeepsStored context upsert (poll_ended now response) l db h =
    if_elim KeepsStored l.is_polling
      (λ _. finish_poll-KeepsStored context upsert now response l db h) (λ _. h)

run_listener-KeepsStored :
    (context : PollContext) (upsert : Upsert) (events : List ListenerEvent) (l : EventListener)
    (db : Database)
    → KeepsStored (l, db)
    → KeepsStored (run_listener context upsert events (l, db))
unfolding run_listener
run_listener-KeepsStored context upsert [] l db h = h
run_listener-KeepsStored context upsert (event ∷ events) l db h =
    let next = step_listener context upsert event (l, db) in
    run_listener-KeepsStored context upsert events next.0 next.1
      (step_listener-KeepsStored context upsert event l db h)

resume_some :
    (latest : Option ℕ) (c : Option Text) (l : EventListener)
    → truthy_text c ≡ true
    → (resume c latest l).cursor ≡ c
resume_some latest none l h = absurd (cc h)
resume_some latest (some c) l h = refl

abbrev pub reads_succeed : Option ℕ → StartReads
reads_succeed latest = record {
  cursor_read_fails = false;
  ledger_read_fails = false;
  latest_ledger = latest;
}

resumed_cursor :
    (latest : Option ℕ) (db : Database)
    → truthy_text db.cursor_row ≡ true
    → (start_event_listener_service (reads_succeed latest) (new_listener, db)).cursor
      ≡ db.cursor_row
unfolding start_event_listener_service finish_start
resumed_cursor latest db truthy =
    let persisted = if_true db.cursor_row none truthy in
    let begun = read_ledger db (begin_start new_listener) in
    (schedule-SamePlace normal_poll_interval_ms (resume (persisted_cursor db) latest begun)).0
    ∙ ap (λ c. (resume c latest begun).cursor) persisted
    ∙ resume_some latest db.cursor_row begun truthy

-- After any history of a new listener in which nothing comes between the reads of a start, whatever
-- reads and polls failed or were cut off by stops: a process that starts anew over the database, and
-- whose two reads of the state succeed, resumes from the cursor that the old one held, if it held one.
pub start-run_listener :
    (context : PollContext) (upsert : Upsert) (events : List ListenerEvent) (db : Database)
    (latest : Option ℕ)
    → truthy_text (run_listener context upsert events (new_listener, db)).0.cursor ≡ true
    → (start_event_listener_service
        (reads_succeed latest)
        (new_listener, (run_listener context upsert events (new_listener, db)).1)).cursor
      ≡ (run_listener context upsert events (new_listener, db)).0.cursor
start-run_listener context upsert events db latest truthy =
    let after = run_listener context upsert events (new_listener, db) in
    let (agrees, _) =
      run_listener-KeepsStored context upsert events new_listener db (inl refl, tt) in
    elim agrees [
      | inl falsy ↦ absurd (cc (falsy, truthy))
      | inr stored ↦ resumed_cursor latest after.1 (ap truthy_text stored ∙ truthy) ∙ stored
    ]
