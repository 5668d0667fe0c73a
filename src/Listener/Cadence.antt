-- ===== src/Listener/Cadence.antt =====
-- The cadence of the polls (backend/src/services/EventListenerService.ts, recordPollFailure,
-- recordPollSuccess) over histories of the listener.
use split_naira.Prelude.{
  ℕ, ◌≤◌, ◌<◌, ◌≡◌, ◌↔◌, ◌⊎◌, refl, Text, Bool, true, false, ◌||◌, List, [], ◌∷◌, Option, none,
  some, arith, if◌then◌else◌, if_elim, inl, inr, Result-cases, Option-cases,
}
use split_naira.Listener.{
  normal_poll_interval_ms, backoff_poll_interval_ms, EventListener, new_listener, Database, healthy,
  degraded, schedule_polling, start_event_listener_service, stop_event_listener_service,
  service_status, record_poll_failure, record_poll_success, resume, read_ledger, persisted_cursor,
  StartReads, begin_start, finish_start,
}
use split_naira.Listener.Events.{PollContext, GetEventsResponse, begin_poll, new_records}
use split_naira.Listener.Polls.{
  Upsert, Batch, ListenerEvent, started, stopped_by_call, ticked, poll_ended, needs_commit,
  commit_batch, advance, observe_ledger, done, commit_and_advance, finish_poll, step_listener,
  run_listener,
}

-- While the timer is armed the delay follows the errors; while it is not, the delay is the normal one
-- and at most one error is counted, that of a poll which ended after the stop.
abbrev pub CadenceOf : Bool → Bool → ℕ → ℕ → Type 0
CadenceOf armed polling errors delay =
    ((armed ≡ true) × (((errors < 3) × (delay ≡ 5000)) ⊎ ((3 ≤ errors) × (delay ≡ 30000))))
    ⊎ ((armed ≡ false)
        × (delay ≡ 5000)
        × (((polling ≡ true) × (errors ≡ 0)) ⊎ ((polling ≡ false) × (errors ≤ 1))))

abbrev pub KeepsCadence : EventListener → Type 0
KeepsCadence l = CadenceOf l.poll_interval l.is_polling l.consecutive_errors l.current_poll_delay_ms

pub failure-KeepsCadence :
    (l : EventListener)
    → l.is_polling ≡ true
    → KeepsCadence l
    → KeepsCadence (done (record_poll_failure l))
unfolding record_poll_failure schedule_polling
failure-KeepsCadence l p h = ground arith

pub success-KeepsCadence :
    (now : ℕ) (l : EventListener)
    → l.is_polling ≡ true
    → KeepsCadence l
    → KeepsCadence (done (record_poll_success now l))
unfolding record_poll_success schedule_polling
success-KeepsCadence now l p h = ground arith

commit_and_advance-KeepsCadence :
    (upsert : Upsert) (now : ℕ) (l : EventListener) (batch : Batch) (db : Database)
    → l.is_polling ≡ true
    → KeepsCadence l
    → KeepsCadence (commit_and_advance upsert now l batch db).0
unfolding commit_and_advance advance
commit_and_advance-KeepsCadence upsert now l batch db p h =
    elim (Option-cases (if needs_commit l batch then commit_batch upsert l batch db else some db)) [
      | inl failed ↦ rw (commit_and_advance, failed) (failure-KeepsCadence l p h)
      | inr (next, committed) ↦
          rw (commit_and_advance, committed) (success-KeepsCadence now (advance l batch) p h)
    ]

observe_ledger-keeps :
    (now : ℕ) (latest : Option ℕ) (l : EventListener)
    → l.is_polling ≡ true
    → KeepsCadence l
    → ((observe_ledger now latest l).is_polling ≡ true) × KeepsCadence (observe_ledger now latest l)
observe_ledger-keeps now none l p h = (p, h)
observe_ledger-keeps now (some latest) l p h = (p, h)

finish_poll-KeepsCadence :
    (context : PollContext) (upsert : Upsert) (now : ℕ) (response : Option GetEventsResponse)
    (l : EventListener) (db : Database)
    → l.is_polling ≡ true
    → KeepsCadence l
    → KeepsCadence (finish_poll context upsert now response (l, db)).0
unfolding finish_poll
finish_poll-KeepsCadence context upsert now none l db p h = failure-KeepsCadence l p h
finish_poll-KeepsCadence context upsert now (some response) l db p h =
    elim (Result-cases (new_records context db.transactions response.events)) [
      | inr (bad, failed) ↦ rw (finish_poll, failed) (failure-KeepsCadence l p h)
      | inl (records, made) ↦
          let (p', h') = observe_ledger-keeps now response.latest_ledger l p h in
          rw (finish_poll, made)
            (commit_and_advance-KeepsCadence upsert now
              (observe_ledger now response.latest_ledger l) _ db p' h')
    ]

resume-keeps :
    (persisted : Option Text) (latest : Option ℕ) (l : EventListener)
    → ((resume persisted latest l).poll_interval ≡ l.poll_interval)
      × ((resume persisted latest l).consecutive_errors ≡ l.consecutive_errors)
      × ((resume persisted latest l).current_poll_delay_ms ≡ l.current_poll_delay_ms)
resume-keeps (some value) latest l = (refl, refl, refl)
resume-keeps none none l = (refl, refl, refl)
resume-keeps none (some sequence) l = (refl, refl, refl)

schedule_normal-KeepsCadence :
    (l : EventListener)
    → l.consecutive_errors ≡ 0
    → KeepsCadence (schedule_polling normal_poll_interval_ms l)
unfolding schedule_polling
schedule_normal-KeepsCadence l h = ground arith

start-KeepsCadence :
    (reads : StartReads) (l : EventListener) (db : Database)
    → KeepsCadence l
    → KeepsCadence (start_event_listener_service reads (l, db))
unfolding start_event_listener_service finish_start
start-KeepsCadence reads l db h =
    let begun = begin_start l in
    let resumed = resume (persisted_cursor db) reads.latest_ledger (read_ledger db begun) in
    if_elim KeepsCadence l.poll_interval (λ _. h)
      (λ _.
        if_elim (λ (r : EventListener). KeepsCadence (schedule_polling normal_poll_interval_ms r))
          (reads.cursor_read_fails || reads.ledger_read_fails)
          (λ _. schedule_normal-KeepsCadence begun refl)
          (λ _.
            schedule_normal-KeepsCadence resumed
              (resume-keeps (persisted_cursor db) reads.latest_ledger (read_ledger db begun)).1))

stop-KeepsCadence :
    (l : EventListener) → KeepsCadence l → KeepsCadence (stop_event_listener_service l)
unfolding stop_event_listener_service
stop-KeepsCadence l h = ground arith

tick-KeepsCadence :
    (l : EventListener) → l.poll_interval ≡ true → KeepsCadence l → KeepsCadence (begin_poll l).0
unfolding begin_poll
tick-KeepsCadence l armed h = ground arith

step_listener-KeepsCadence :
    (context : PollContext) (upsert : Upsert) (event : ListenerEvent) (l : EventListener)
    (db : Database)
    → KeepsCadence l
    → KeepsCadence (step_listener context upsert event (l, db)).0
unfolding step_listener
step_listener-KeepsCadence context upsert (started reads) l db h = start-KeepsCadence reads l db h
step_listener-KeepsCadence context upsert stopped_by_call l db h = stop-KeepsCadence l h
step_listener-KeepsCadence context upsert ticked l db h =
    if_elim (λ (s : EventListener × Database). KeepsCadence s.0) l.poll_interval
      (λ armed. tick-KeepsCadence l armed h) (λ _. h)
step_listener-KeepsCadence context upsert (poll_ended now response) l db h =
    if_elim (λ (s : EventListener × Database). KeepsCadence s.0) l.is_polling
      (λ polling. finish_poll-KeepsCadence context upsert now response l db polling h) (λ _. h)

pub run_listener-KeepsCadence :
    (context : PollContext) (upsert : Upsert) (events : List ListenerEvent) (l : EventListener)
    (db : Database)
    → KeepsCadence l
    → KeepsCadence (run_listener context upsert events (l, db)).0
unfolding run_listener
run_listener-KeepsCadence context upsert [] l db h = h
run_listener-KeepsCadence context upsert (event ∷ events) l db h =
    let next = step_listener context upsert event (l, db) in
    run_listener-KeepsCadence context upsert events next.0 next.1
      (step_listener-KeepsCadence context upsert event l db h)

status_of_cadence :
    (l : EventListener)
    → KeepsCadence l
    → ((service_status l ≡ degraded) ↔ (l.current_poll_delay_ms ≡ backoff_poll_interval_ms))
      × ((service_status l ≡ healthy)
          ↔ ((l.poll_interval ≡ true) × (l.current_poll_delay_ms ≡ normal_poll_interval_ms)))
unfolding service_status
status_of_cadence l h = ground arith

-- After any history of a new listener in which nothing comes between the reads of a start, the service is degraded exactly if its polls are 30 seconds
-- apart, and healthy exactly if its timer is armed and they are 5 seconds apart.
pub run_listener-service_status :
    (context : PollContext) (upsert : Upsert) (events : List ListenerEvent) (db : Database)
    → ((service_status (run_listener context upsert events (new_listener, db)).0 ≡ degraded) ↔ (
        (run_listener context upsert events (new_listener, db)).0.current_poll_delay_ms
        ≡ backoff_poll_interval_ms))
      × ((service_status (run_listener context upsert events (new_listener, db)).0 ≡ healthy) ↔ (
          ((run_listener context upsert events (new_listener, db)).0.poll_interval ≡ true)
          × ((run_listener context upsert events (new_listener, db)).0.current_poll_delay_ms
              ≡ normal_poll_interval_ms)))
run_listener-service_status context upsert events db =
    status_of_cadence (run_listener context upsert events (new_listener, db)).0
      (run_listener-KeepsCadence context upsert events new_listener db (ground arith))
