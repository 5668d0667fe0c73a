-- ===== src/Listener/Recovery.antt =====
-- Failing polls and the poll that ends them (backend/src/services/EventListenerService.ts).
use split_naira.Prelude.{
  ℕ, zero, suc, ◌+◌, ◌≤◌, ◌≡◌, refl, ap, sym, subst, ◌∙◌, true, false, List, [], ◌∷◌, Option, none,
  some, arith, if_true, if_false, inl, inr, ok, Bool-cases,
}
use split_naira.Prelude.Dict.{Dict}
use split_naira.Listener.{
  normal_poll_interval_ms, backoff_poll_interval_ms, EventListener, Database, PaymentRow,
  service_status, degraded, healthy, schedule_polling, record_poll_failure, record_poll_success,
}
use split_naira.Listener.Events.{
  PollContext, GetEventsResponse, EventFilter, filter_options, begin_poll, new_records,
}
use split_naira.Listener.Polls.{
  Upsert, Batch, ListenerEvent, ticked, poll_ended, needs_commit, commit_batch, upserted, advance,
  observe_ledger, done, commit_and_advance, finish_poll, step_listener, run_listener,
}
use split_naira.Listener.Cadence.{CadenceOf, KeepsCadence, failure-KeepsCadence}

-- A tick and the end of its poll, which gets no valid response.
abbrev pub failing_polls : ℕ → List ListenerEvent
failing_polls zero = []
failing_polls (suc n) = ticked ∷ poll_ended 0 none ∷ failing_polls n

-- Running, with no poll under way.
abbrev pub IsReady : EventListener → Type 0
IsReady l = (l.poll_interval ≡ true) × (l.is_polling ≡ false) × KeepsCadence l

begun :
    (l : EventListener)
    → l.poll_interval ≡ true
    → KeepsCadence l
    → CadenceOf l.poll_interval true l.consecutive_errors l.current_poll_delay_ms
begun l armed h = ground arith

failure_armed :
    (l : EventListener)
    → l.poll_interval ≡ true
    → ((record_poll_failure l).poll_interval ≡ true)
      × ((record_poll_failure l).consecutive_errors ≡ l.consecutive_errors + 1)
unfolding record_poll_failure schedule_polling
failure_armed l armed = ground arith

abbrev polling : EventListener → EventListener
polling l = record l { is_polling = true }

tick_ready :
    (context : PollContext) (upsert : Upsert) (l : EventListener) (db : Database)
    → IsReady l
    → step_listener context upsert ticked (l, db) ≡ (polling l, db)
unfolding step_listener begin_poll
tick_ready context upsert l db (armed, idle, h) =
    if_true ((begin_poll l).0, db) (l, db) armed
    ∙ ap (λ (r : EventListener × Option EventFilter). (r.0, db))
        (if_false (l, none) (polling l, some (filter_options l)) idle)

-- A poll that a ready listener starts, up to its end.
poll_ready :
    (context : PollContext) (upsert : Upsert) (l : EventListener) (db : Database) (now : ℕ)
    (response : Option GetEventsResponse)
    → IsReady l
    → run_listener context upsert (ticked ∷ poll_ended now response ∷ []) (l, db)
      ≡ finish_poll context upsert now response (polling l, db)
unfolding run_listener step_listener
poll_ready context upsert l db now response h =
    ap (step_listener context upsert (poll_ended now response)) (tick_ready context upsert l db h)

pub failing_poll :
    (context : PollContext) (upsert : Upsert) (l : EventListener) (db : Database)
    → IsReady l
    → IsReady (finish_poll context upsert 0 none (polling l, db)).0
      × ((finish_poll context upsert 0 none (polling l, db)).0.consecutive_errors
          ≡ l.consecutive_errors + 1)
      × ((finish_poll context upsert 0 none (polling l, db)).1 ≡ db)
unfolding finish_poll
failing_poll context upsert l db (armed, idle, h) =
    let (still, counted) = failure_armed (polling l) armed in
    ((still, refl, failure-KeepsCadence (polling l) refl (begun l armed h)), counted, refl)

many_errors :
    (l : EventListener)
    → IsReady l
    → 3 ≤ l.consecutive_errors
    → (service_status l ≡ degraded) × (l.current_poll_delay_ms ≡ backoff_poll_interval_ms)
unfolding service_status
many_errors l h many = ground arith

-- Ready, with so many errors, over an unchanged database.
abbrev HasFailed : Database → ℕ → EventListener × Database → Type 0
HasFailed db errors s = IsReady s.0 × (s.0.consecutive_errors ≡ errors) × (s.1 ≡ db)

failing_polls-HasFailed :
    (context : PollContext) (upsert : Upsert) (n : ℕ) (l : EventListener) (db : Database)
    → IsReady l
    → HasFailed db
        (l.consecutive_errors + n)
        (run_listener context upsert (failing_polls n) (l, db))
unfolding run_listener finish_poll
failing_polls-HasFailed context upsert zero l db h = (h, omega arith, refl)
failing_polls-HasFailed context upsert (suc n) l db h =
    let (ready, counted, _) = failing_poll context upsert l db h in
    let (after, errors, same) =
      failing_polls-HasFailed context upsert n (done (record_poll_failure (polling l))) db ready in
    subst (HasFailed db (l.consecutive_errors + suc n))
      (sym (
        ap (run_listener context upsert (failing_polls n))
          (poll_ready context upsert l db 0 none h)))
      (after, omega (arith, errors, counted), same)

-- While the service runs with no poll under way, three or more polls in a row that get no valid
-- response leave it degraded, with its polls 30 seconds apart and the database as it was.
pub failing_polls_degrade :
    (context : PollContext) (upsert : Upsert) (n : ℕ) (l : EventListener) (db : Database)
    → IsReady l
    → 3 ≤ n
    → (service_status (run_listener context upsert (failing_polls n) (l, db)).0 ≡ degraded)
      × ((run_listener context upsert (failing_polls n) (l, db)).0.current_poll_delay_ms
          ≡ backoff_poll_interval_ms)
      × ((run_listener context upsert (failing_polls n) (l, db)).1 ≡ db)
failing_polls_degrade context upsert n l db h many =
    let (ready, errors, same) = failing_polls-HasFailed context upsert n l db h in
    let (status, delay) =
      many_errors (run_listener context upsert (failing_polls n) (l, db)).0 ready
        (omega (arith, errors, many)) in
    (status, delay, same)

success_armed :
    (now : ℕ) (l : EventListener)
    → l.poll_interval ≡ true
    → KeepsCadence l
    → (service_status (done (record_poll_success now l)) ≡ healthy)
      × ((done (record_poll_success now l)).current_poll_delay_ms ≡ normal_poll_interval_ms)
      × ((record_poll_success now l).consecutive_errors ≡ 0)
      × ((record_poll_success now l).last_successful_poll ≡ some now)
unfolding service_status record_poll_success schedule_polling
success_armed now l armed h = ground arith

-- Healthy since the successful poll at a time, with no poll under way.
abbrev pub IsHealthyAt : ℕ → EventListener → Type 0
IsHealthyAt now l =
    (service_status l ≡ healthy)
    × (l.current_poll_delay_ms ≡ normal_poll_interval_ms)
    × (l.consecutive_errors ≡ 0)
    × (l.last_successful_poll ≡ some now)
    × (l.is_polling ≡ false)

success_recovers :
    (now : ℕ) (l : EventListener)
    → l.poll_interval ≡ true
    → KeepsCadence l
    → IsHealthyAt now (done (record_poll_success now l))
success_recovers now l armed h =
    let (status, delay, errors, time) = success_armed now l armed h in
    (status, delay, errors, time, refl)

commit_recovers :
    (upsert : Upsert) (now : ℕ) (l : EventListener) (batch : Batch) (db : Database)
    (stored : Dict PaymentRow)
    → l.poll_interval ≡ true
    → KeepsCadence l
    → upserted upsert batch.records db.transactions ≡ some stored
    → IsHealthyAt now (commit_and_advance upsert now l batch db).0
unfolding commit_and_advance commit_batch advance
commit_recovers upsert now l batch db stored armed h taken =
    elim (Bool-cases (needs_commit l batch)) [
      | inl due ↦
          rw (commit_and_advance, due, commit_batch, taken)
            (success_recovers now (advance l batch) armed h)
      | inr nothing ↦
          rw (commit_and_advance, nothing) (success_recovers now (advance l batch) armed h)
    ]

observed :
    (now : ℕ) (latest : Option ℕ) (l : EventListener)
    → l.poll_interval ≡ true
    → KeepsCadence l
    → ((observe_ledger now latest l).poll_interval ≡ true)
      × KeepsCadence (observe_ledger now latest l)
observed now none l armed h = (armed, h)
observed now (some latest) l armed h = (armed, h)

finish_recovers :
    (context : PollContext) (upsert : Upsert) (l : EventListener) (db : Database) (now : ℕ)
    (response : GetEventsResponse) (records : List PaymentRow) (stored : Dict PaymentRow)
    → l.poll_interval ≡ true
    → KeepsCadence l
    → new_records context db.transactions response.events ≡ ok records
    → upserted upsert records db.transactions ≡ some stored
    → IsHealthyAt now (finish_poll context upsert now (some response) (l, db)).0
unfolding finish_poll
finish_recovers context upsert l db now response records stored armed h decoded taken =
    let (armed', h') = observed now response.latest_ledger l armed h in
    rw (finish_poll, decoded)
      (commit_recovers upsert now (observe_ledger now response.latest_ledger l) _ db stored armed'
        h' taken)

-- One poll with a valid response makes a running service healthy again, however many failed before:
-- where its events decode and the database takes the transaction, the error count is 0, the polls are 5
-- seconds apart and no poll is under way.
pub successful_poll_recovers :
    (context : PollContext) (upsert : Upsert) (l : EventListener) (db : Database) (now : ℕ)
    (response : GetEventsResponse) (records : List PaymentRow) (stored : Dict PaymentRow)
    → IsReady l
    → new_records context db.transactions response.events ≡ ok records
    → upserted upsert records db.transactions ≡ some stored
    → IsHealthyAt now
        (run_listener context upsert (ticked ∷ poll_ended now (some response) ∷ []) (l, db)).0
successful_poll_recovers context upsert l db now response records stored (armed, idle, h) decoded
      taken =
    subst (λ (s : EventListener × Database). IsHealthyAt now s.0)
      (sym (poll_ready context upsert l db now (some response) (armed, idle, h)))
      (finish_recovers context upsert (polling l) db now response records stored armed
        (begun l armed h) decoded taken)
