-- ===== src/Listener/Writes.antt =====
-- What a poll's transaction writes under each hash (backend/src/services/EventListenerService.ts,
-- the transaction of pollEvents).
use split_naira.Prelude.{
  ◌≡◌, ◌⊎◌, refl, sym, ap, ◌∙◌, subst, Text, Bool, true, false, ◌||◌, not, List, [], ◌∷◌, Option,
  none, some, arith, if◌then◌else◌, if_true, if_false, Bool-cases, Option-cases, Any, inl, inr,
}
use split_naira.Prelude.Dict.{Dict, get}
use split_naira.Listener.{EventListener, Database, PaymentRow}
use split_naira.Listener.Polls.{
  Upsert, Batch, no_records, needs_commit, commit_batch, rows_after, upserted,
}
use split_naira.Listener.Commits.{has_record}

-- What is under a hash after an upsert: what was there, where no given row has that hash, or a given
-- row of that hash.
abbrev pub Written : List PaymentRow → Dict PaymentRow → Dict PaymentRow → Text → Type 0
Written records rows after h =
    ((has_record h records ≡ false) × (get h after ≡ get h rows))
    ⊎ ((r : PaymentRow) × (get h after ≡ some r) × Any (λ x. (x ≡ r) × (x.tx_hash ≡ h)) records)

-- What the database says of an upsert by the hash.
abbrev pub Upserts : Upsert → Type 0
Upserts upsert =
    (records : List PaymentRow) (rows after : Dict PaymentRow)
    → upsert records rows ≡ some after
    → (h : Text) → Written records rows after h

rows_in : Option (Dict PaymentRow) → Dict PaymentRow
rows_in none = []
rows_in (some rows) = rows

no_records-has_record :
    (h : Text) (records : List PaymentRow)
    → no_records records ≡ true
    → has_record h records ≡ false
no_records-has_record h [] e = refl
no_records-has_record h (r ∷ rs) e = absurd (cc e)

untouched :
    (records : List PaymentRow) (rows after : Dict PaymentRow) (h : Text)
    → no_records records ≡ true
    → rows ≡ after
    → Written records rows after h
untouched records rows after h none_new same =
    inl (no_records-has_record h records none_new, ap (get h) (sym same))

rows_after-Written :
    (upsert : Upsert) (records : List PaymentRow) (rows after : Dict PaymentRow)
    (outcome : Option (Dict PaymentRow))
    → Upserts upsert
    → upsert records rows ≡ outcome
    → rows_after records rows outcome ≡ some after
    → (h : Text) → Written records rows after h
unfolding rows_in
rows_after-Written upsert records rows after none law e taken h = absurd (cc taken)
rows_after-Written upsert [] rows after (some found) law e taken h =
    untouched [] rows after h refl (ap rows_in taken)
rows_after-Written upsert (r ∷ rs) rows after (some found) law e taken h =
    law (r ∷ rs) rows after (e ∙ taken) h

upserted-Written :
    (upsert : Upsert) (records : List PaymentRow) (rows after : Dict PaymentRow)
    → Upserts upsert
    → upserted upsert records rows ≡ some after
    → (h : Text) → Written records rows after h
upserted-Written upsert records rows after law taken h =
    rows_after-Written upsert records rows after (upsert records rows) law refl taken h

transactions_in : Option Database → Dict PaymentRow
transactions_in none = []
transactions_in (some db) = db.transactions

commit_batch-Written :
    (upsert : Upsert) (l : EventListener) (batch : Batch) (db next : Database)
    → Upserts upsert
    → commit_batch upsert l batch db ≡ some next
    → (h : Text) → Written batch.records db.transactions next.transactions h
unfolding commit_batch transactions_in
commit_batch-Written upsert l batch db next law e h =
    elim (Option-cases (upserted upsert batch.records db.transactions)) [
      | inl failed ↦ absurd (cc (rw (commit_batch, failed) at e))
      | inr (after, taken) ↦
          let same : after ≡ next.transactions =
            ap transactions_in (rw (commit_batch, taken) at e) in
          subst (λ rows. Written batch.records db.transactions rows h) same
            (upserted-Written upsert batch.records db.transactions after law taken h)
    ]

nothing_due : (a b c : Bool) → (not a || b || c) ≡ false → a ≡ true
nothing_due a b c h = ground arith

pub due-Written :
    (upsert : Upsert) (l : EventListener) (batch : Batch) (db next : Database)
    → Upserts upsert
    → (if needs_commit l batch then commit_batch upsert l batch db else some db) ≡ some next
    → (h : Text) → Written batch.records db.transactions next.transactions h
unfolding transactions_in
due-Written upsert l batch db next law e h = elim (Bool-cases (needs_commit l batch)) [
  | inl due ↦
      commit_batch-Written upsert l batch db next law
        (sym (if_true (commit_batch upsert l batch db) (some db) due) ∙ e) h
  | inr idle ↦
      untouched batch.records db.transactions next.transactions h (nothing_due _ _ _ idle)
        (ap transactions_in (sym (if_false (commit_batch upsert l batch db) (some db) idle) ∙ e))
]
