-- ===== src/Listener/Rows.antt =====
-- What a poll leaves in the database (backend/src/services/EventListenerService.ts, pollEvents).
use split_naira.Prelude.{
  ℕ, ◌≡◌, ◌⊎◌, refl, sym, ap, ◌∙◌, subst, Text, Bool, true, false, ◌||◌, List, [], ◌∷◌, Option,
  none, some, arith, if◌then◌else◌, All, All-map, Bool-cases, Option-cases, Any, Result-cases, inl,
  inr,
}
use split_naira.Prelude.Dict.{Dict, get, has}
use split_naira.Listener.{
  EventListener, Database, PaymentRow, record_poll_failure, schedule_polling,
}
use split_naira.Listener.Events.{ContractEvent, PollContext, GetEventsResponse, new_records}
use split_naira.Listener.Polls.{
  Upsert, Batch, batch_of, needs_commit, commit_batch, observe_ledger, done, commit_and_advance,
  finish_poll,
}
use split_naira.Listener.Commits.{is_examined, IsCovered, new_records-IsCovered}
use split_naira.Listener.Payments.{IsPaymentOf, IsNew, new_records-IsNew}
use split_naira.Listener.Writes.{Written, Upserts, due-Written}

-- A payout event whose look-up does not fail has a row: the one that was stored under its hash, or a
-- new one, which is the payment of an event of the response with that hash.
abbrev pub HasPayment :
    PollContext → List ContractEvent → Database → Database → ContractEvent → Type 0
HasPayment context events before after event =
    if is_examined context event
    then ((r : PaymentRow) × (get event.tx_hash after.transactions ≡ some r)
        × ((get event.tx_hash before.transactions ≡ some r)
            ⊎ ((r.tx_hash ≡ event.tx_hash) × Any (λ e. IsPaymentOf context e r) events)))
    else Unit

-- Each stored row is as it was.
abbrev pub KeepsRows : Database → Database → Type 0
KeepsRows before after =
    (h : Text)
    → (has h before.transactions ≡ false) ⊎ (get h after.transactions ≡ get h before.transactions)

abbrev pub Recorded : PollContext → List ContractEvent → Database → Database → Type 0
Recorded context events before after =
    All (HasPayment context events before after) events × KeepsRows before after

failure_cursor : (l : EventListener) → (done (record_poll_failure l)).cursor ≡ l.cursor
unfolding record_poll_failure schedule_polling
failure_cursor l = ground arith

found_row :
    (h : Text) (rows : Dict PaymentRow)
    → has h rows ≡ true
    → (r : PaymentRow) × (get h rows ≡ some r)
found_row h rows there = elim (Option-cases (get h rows)) [
  | inl missing ↦ absurd (cc (rw (missing) at there))
  | inr found ↦ found
]

either : (a b : Bool) → (a || b) ≡ true → a ≡ false → b ≡ true
either a b h k = ground arith

picked :
    (P : PaymentRow → Type 0) (r : PaymentRow) (h : Text) (records : List PaymentRow)
    → All P records
    → Any (λ x. (x ≡ r) × (x.tx_hash ≡ h)) records
    → P r × (r.tx_hash ≡ h)
picked P r h [] all any = absurd any
picked P r h (x ∷ xs) (p, all) (inl (same, hash)) =
    (subst P same p, ap (λ (y : PaymentRow). y.tx_hash) (sym same) ∙ hash)
picked P r h (x ∷ xs) (p, all) (inr any) = picked P r h xs all any

module _ (context : PollContext) (events : List ContractEvent) (before after : Database)
    (records : List PaymentRow) (made : All (IsNew context before.transactions events) records)
    (written : (h : Text) → Written records before.transactions after.transactions h) where
  covered_payment :
      (event : ContractEvent)
      → IsCovered context before.transactions records event
      → HasPayment context events before after event
  covered_payment event covered = elim (Bool-cases (is_examined context event)) [
    | inr other ↦ rw (other) tt
    | inl examined ↦
        let here = (rw (examined) at covered) in
        rw (examined) (elim (written event.tx_hash) [
          | inl (none_new, same) ↦
              let (r, found) =
                found_row event.tx_hash before.transactions (either _ _ here none_new) in
              (r, same ∙ found, inl found)
          | inr (r, found, given) ↦
              let (is_new, hash) =
                picked (IsNew context before.transactions events) r event.tx_hash records made
                  given in
              (r, found, inr (hash, is_new.1))
        ])
  ]

  written-KeepsRows : KeepsRows before after
  written-KeepsRows h = elim (written h) [
    | inl (none_new, same) ↦ inr same
    | inr (r, found, given) ↦
        let (is_new, hash) =
          picked (IsNew context before.transactions events) r h records made given in
        inl (ap (λ t. has t before.transactions) (sym hash) ∙ is_new.0)
  ]

-- Nothing has moved, or every event of the batch has its payment.
abbrev pub AllOrNothing :
    PollContext → List ContractEvent → Option Text → Database → EventListener × Database → Type 0
AllOrNothing context events cursor db after =
    ((after.1 ≡ db) × (after.0.cursor ≡ cursor)) ⊎ Recorded context events db after.1

commit_and_advance-AllOrNothing :
    (context : PollContext) (upsert : Upsert) (now : ℕ) (l : EventListener) (batch : Batch)
    (db : Database) (events : List ContractEvent)
    → Upserts upsert
    → All (IsCovered context db.transactions batch.records) events
    → All (IsNew context db.transactions events) batch.records
    → AllOrNothing context events l.cursor db (commit_and_advance upsert now l batch db)
unfolding commit_and_advance
commit_and_advance-AllOrNothing context upsert now l batch db events law covered made =
    elim (Option-cases (if needs_commit l batch then commit_batch upsert l batch db else some db)) [
      | inl failed ↦ rw (commit_and_advance, failed) (inl (refl, failure_cursor l))
      | inr (next, committed) ↦
          let written = due-Written upsert l batch db next law committed in
          rw (commit_and_advance, committed)
            (inr (
              All-map (IsCovered context db.transactions batch.records)
                  (HasPayment context events db next)
                  (covered_payment context events db next batch.records made written) events
                  covered,
              written-KeepsRows context events db next batch.records made written,
            ))
    ]

observed_cursor :
    (now : ℕ) (latest : Option ℕ) (l : EventListener)
    → (observe_ledger now latest l).cursor ≡ l.cursor
observed_cursor now none l = refl
observed_cursor now (some latest) l = refl

-- Where an upsert puts, under the hash of each given row, one of the given rows of that hash and leaves
-- the other rows: a poll that gets a response either leaves the database and the cursor as they were,
-- or leaves under the hash of each payout event whose look-up did not fail the row that was stored
-- there, or else one with the project, recipient, amount, token and time of a payout event of the
-- response with that hash; and then each row that was stored is as it was.
pub finish_poll-AllOrNothing :
    (context : PollContext) (upsert : Upsert) (now : ℕ) (response : GetEventsResponse)
    (l : EventListener) (db : Database)
    → Upserts upsert
    → AllOrNothing context response.events l.cursor db
        (finish_poll context upsert now (some response) (l, db))
unfolding finish_poll
finish_poll-AllOrNothing context upsert now response l db law =
    elim (Result-cases (new_records context db.transactions response.events)) [
      | inr (bad, failed) ↦ rw (finish_poll, failed) (inl (refl, failure_cursor l))
      | inl (records, made) ↦
          let seen = observe_ledger now response.latest_ledger l in
          rw (finish_poll, made)
            (subst
              (λ (c : Option Text).
                AllOrNothing context response.events c db
                  (commit_and_advance upsert now seen (batch_of l response records) db))
              (observed_cursor now response.latest_ledger l)
              (commit_and_advance-AllOrNothing context upsert now seen (batch_of l response records)
                db response.events law
                (new_records-IsCovered context db.transactions response.events records made)
                (new_records-IsNew context db.transactions response.events records made)))
    ]
