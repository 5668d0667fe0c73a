-- ===== src/Listener/Stored.antt =====
-- The cursor in memory and the one that is stored, over a poll
-- (backend/src/services/EventListenerService.ts).
use split_naira.Prelude.{
  ℕ, ◌≡◌, ◌⊎◌, refl, sym, ap, ◌∙◌, subst, Text, text_eq_iff, Bool, true, false, ◌&&◌, ◌||◌, Option,
  none, some, arith, if◌then◌else◌, if_elim, if_true, if_false, Bool-cases, Option-cases,
  Result-cases, inl, inr,
}
use split_naira.Prelude.Int.{pos, Number, integer}
use split_naira.Listener.{
  EventListener, Database, truthy_text, schedule_polling, stop_event_listener_service,
  record_poll_failure, record_poll_success,
}
use split_naira.Listener.Events.{PollContext, GetEventsResponse, begin_poll, new_records}
use split_naira.Listener.Polls.{
  Upsert, Batch, batch_of, text_differs, ledger_advances, needs_commit, commit_batch,
  committed_rows, upserted, advance, observe_ledger, done, commit_and_advance, finish_poll,
}

-- A cursor in memory is the stored one; so is a last processed ledger.
abbrev pub CursorAgrees : Option Text → Option Text → Type 0
CursorAgrees cursor row = (truthy_text cursor ≡ false) ⊎ (row ≡ cursor)

abbrev pub LedgerAgrees : Option ℕ → Option Number → Type 0
LedgerAgrees none row = Unit
LedgerAgrees (some n) row = row ≡ some (integer (pos n))

abbrev pub KeepsStored : EventListener × Database → Type 0
KeepsStored s =
    CursorAgrees s.0.cursor s.1.cursor_row × LedgerAgrees s.0.last_processed_ledger s.1.ledger_row

-- The cursor and the ledger of a listener are those of another.
abbrev pub SamePlace : EventListener → EventListener → Type 0
SamePlace a b = (a.cursor ≡ b.cursor) × (a.last_processed_ledger ≡ b.last_processed_ledger)

pub moved :
    (a b : EventListener) (db : Database)
    → SamePlace a b
    → KeepsStored (b, db)
    → KeepsStored (a, db)
moved a b db (cursor, ledger) (h, k) = (
  subst (λ c. CursorAgrees c db.cursor_row) (sym cursor) h,
  subst (λ n. LedgerAgrees n db.ledger_row) (sym ledger) k,
)

pub schedule-SamePlace : (delay : ℕ) (l : EventListener) → SamePlace (schedule_polling delay l) l
unfolding schedule_polling
schedule-SamePlace delay l = ground arith

failure-SamePlace : (l : EventListener) → SamePlace (done (record_poll_failure l)) l
unfolding record_poll_failure schedule_polling
failure-SamePlace l = ground arith

success-SamePlace : (now : ℕ) (l : EventListener) → SamePlace (done (record_poll_success now l)) l
unfolding record_poll_success schedule_polling
success-SamePlace now l = ground arith

pub stop-SamePlace : (l : EventListener) → SamePlace (stop_event_listener_service l) l
unfolding stop_event_listener_service
stop-SamePlace l = ground arith

pub begin-SamePlace : (l : EventListener) → SamePlace (begin_poll l).0 l
unfolding begin_poll
begin-SamePlace l = ground arith

observe-SamePlace :
    (now : ℕ) (latest : Option ℕ) (l : EventListener) → SamePlace (observe_ledger now latest l) l
observe-SamePlace now none l = (refl, refl)
observe-SamePlace now (some latest) l = (refl, refl)

same_text : (a b : Option Text) → text_differs a b ≡ false → a ≡ b
same_text none none h = refl
same_text none (some b) h = absurd (cc h)
same_text (some a) none h = absurd (cc h)
same_text (some a) (some b) h = ap some ((text_eq_iff a b).0 (ground arith))

cursor_if :
    (b : Bool) (new cursor row : Option Text)
    → CursorAgrees cursor row
    → CursorAgrees (if b then new else cursor) (if b then new else row)
cursor_if true new cursor row h = inr refl
cursor_if false new cursor row h = h

ledger_if :
    (b : Bool) (n : ℕ) (last : Option ℕ) (row : Option Number)
    → LedgerAgrees last row
    → LedgerAgrees (if b then some n else last) (if b then some (integer (pos n)) else row)
ledger_if true n last row h = refl
ledger_if false n last row h = h

database_in : Database → Option Database → Database
database_in db none = db
database_in db (some next) = next

commit-KeepsStored :
    (upsert : Upsert) (l : EventListener) (batch : Batch) (db next : Database)
    → commit_batch upsert l batch db ≡ some next
    → KeepsStored (l, db)
    → KeepsStored (advance l batch, next)
unfolding commit_batch advance database_in
commit-KeepsStored upsert l batch db next e (h, k) =
    elim (Option-cases (upserted upsert batch.records db.transactions)) [
      | inl failed ↦ absurd (cc (rw (commit_batch, failed) at e))
      | inr (after, taken) ↦
          let same : committed_rows l batch db after ≡ next =
            ap (database_in db) (rw (commit_batch, taken) at e) in
          subst (λ d. KeepsStored (advance l batch, d)) same
            (
              cursor_if (truthy_text batch.next_cursor) batch.next_cursor l.cursor db.cursor_row h,
              ledger_if (ledger_advances l batch) batch.last_ledger l.last_processed_ledger
                  db.ledger_row k,
            )
    ]

nothing_due : (a b c d : Bool) → (a || (b && c) || d) ≡ false → (d ≡ false) × (b ≡ true → c ≡ false)
nothing_due a b c d h = ground arith

idle-SamePlace :
    (l : EventListener) (batch : Batch)
    → needs_commit l batch ≡ false
    → SamePlace (advance l batch) l
unfolding advance
idle-SamePlace l batch idle =
    let (still, kept) = nothing_due _ _ _ _ idle in
    (
      if_elim (λ c. c ≡ l.cursor) (truthy_text batch.next_cursor)
          (λ named. same_text batch.next_cursor l.cursor (kept named)) (λ _. refl),
      if_false (some batch.last_ledger) l.last_processed_ledger still,
    )

due-KeepsStored :
    (upsert : Upsert) (l : EventListener) (batch : Batch) (db next : Database)
    → (if needs_commit l batch then commit_batch upsert l batch db else some db) ≡ some next
    → KeepsStored (l, db)
    → KeepsStored (advance l batch, next)
unfolding database_in
due-KeepsStored upsert l batch db next e h = elim (Bool-cases (needs_commit l batch)) [
  | inl due ↦
      commit-KeepsStored upsert l batch db next
        (sym (if_true (commit_batch upsert l batch db) (some db) due) ∙ e) h
  | inr idle ↦
      let same : db ≡ next =
        ap (database_in db) (sym (if_false (commit_batch upsert l batch db) (some db) idle) ∙ e) in
      subst (λ d. KeepsStored (advance l batch, d)) same
        (moved (advance l batch) l db (idle-SamePlace l batch idle) h)
]

commit_and_advance-KeepsStored :
    (upsert : Upsert) (now : ℕ) (l : EventListener) (batch : Batch) (db : Database)
    → KeepsStored (l, db)
    → KeepsStored (commit_and_advance upsert now l batch db)
unfolding commit_and_advance
commit_and_advance-KeepsStored upsert now l batch db h =
    elim (Option-cases (if needs_commit l batch then commit_batch upsert l batch db else some db)) [
      | inl failed ↦
          rw (commit_and_advance, failed)
            (moved (done (record_poll_failure l)) l db (failure-SamePlace l) h)
      | inr (next, committed) ↦
          rw (commit_and_advance, committed)
            (moved (done (record_poll_success now (advance l batch))) (advance l batch) next
              (success-SamePlace now (advance l batch))
              (due-KeepsStored upsert l batch db next committed h))
    ]

pub finish_poll-KeepsStored :
    (context : PollContext) (upsert : Upsert) (now : ℕ) (response : Option GetEventsResponse)
    (l : EventListener) (db : Database)
    → KeepsStored (l, db)
    → KeepsStored (finish_poll context upsert now response (l, db))
unfolding finish_poll
finish_poll-KeepsStored context upsert now none l db h =
    moved (done (record_poll_failure l)) l db (failure-SamePlace l) h
finish_poll-KeepsStored context upsert now (some response) l db h =
    elim (Result-cases (new_records context db.transactions response.events)) [
      | inr (bad, failed) ↦
          rw (finish_poll, failed)
            (moved (done (record_poll_failure l)) l db (failure-SamePlace l) h)
      | inl (records, made) ↦
          let seen = observe_ledger now response.latest_ledger l in
          rw (finish_poll, made)
            (commit_and_advance-KeepsStored upsert now seen (batch_of l response records) db
              (moved seen l db (observe-SamePlace now response.latest_ledger l) h))
    ]
