-- ===== src/Listener/Commits.antt =====
-- What a poll commits of its events (backend/src/services/EventListenerService.ts, pollEvents).
use split_naira.Prelude.{
  ◌≡◌, refl, sym, ap, ◌∙◌, subst, Text, text_eq, text_eq_refl, and_true, Bool, true, false, ◌&&◌,
  ◌||◌, not, List, [], ◌∷◌, ◌++◌, arith, if◌then◌else◌, if_true, if_false, any, All, All-map,
  Bool-cases, inl, inr, ok, ◌>>=◌, >>=-eq-ok,
}
use split_naira.Prelude.Dict.{Dict, has}
use split_naira.Listener.{PaymentRow}
use split_naira.Listener.Events.{
  ContractEvent, PollContext, is_payout, unless_stored, created_payments, decode_payout_event,
  process_event, new_records,
}
use split_naira.Listener.Payments.{decoded-IsPaymentOf, list_in}

abbrev pub has_record : Text → List PaymentRow → Bool
has_record tx_hash records = any (λ (r : PaymentRow). text_eq r.tx_hash tx_hash) records

has_record-append :
    (h : Text) (xs ys : List PaymentRow)
    → has_record h (xs ++ ys) ≡ (has_record h xs || has_record h ys)
has_record-append h [] ys = refl
has_record-append h (x ∷ xs) ys = ground (arith, has_record-append h xs ys)

-- A payout whose look-up does not fail.
abbrev pub is_examined : PollContext → ContractEvent → Bool
is_examined context event = is_payout event && not (context.lookup_fails event.tx_hash)

examined_only : (a b : Bool) → not a ≡ true → b ≡ false → (a || b) ≡ false
examined_only a b h k = ground arith

process_event-Covers :
    (context : PollContext) (stored : Dict PaymentRow) (event : ContractEvent)
    (found : List PaymentRow)
    → process_event context stored event ≡ ok found
    → is_examined context event ≡ true
    → (has_record event.tx_hash found || has event.tx_hash stored) ≡ true
unfolding process_event
process_event-Covers context stored event found h examined =
    let (payout, looked) =
      and_true (is_payout event) (not (context.lookup_fails event.tx_hash)) examined in
    let inside = sym (if_true (created_payments context stored event) (ok []) payout) ∙ h in
    let (payment, decoded, made) =
      >>=-eq-ok (decode_payout_event context event)
        (λ payment. ok (unless_stored context stored event payment)) inside in
    let same = (decoded-IsPaymentOf context event payment payout decoded).hash in
    let chosen : unless_stored context stored event payment ≡ found = ap list_in made in
    elim (Bool-cases (has event.tx_hash stored)) [
      | inl there ↦ ground arith
      | inr absent ↦
          let kept : (payment ∷ []) ≡ found =
            sym (if_false [] (payment ∷ []) (examined_only _ _ looked absent)) ∙ chosen in
          rw (sym kept, same, text_eq_refl event.tx_hash) refl
    ]

-- An examined payout has a row among the new ones or the stored ones.
abbrev pub IsCovered : PollContext → Dict PaymentRow → List PaymentRow → ContractEvent → Type 0
IsCovered context stored records event =
    if is_examined context event
    then ((has_record event.tx_hash records || has event.tx_hash stored) ≡ true)
    else Unit

grown :
    (context : PollContext) (stored : Dict PaymentRow) (front back : List PaymentRow)
    (event : ContractEvent)
    → IsCovered context stored back event
    → IsCovered context stored (front ++ back) event
grown context stored front back event h = elim (Bool-cases (is_examined context event)) [
  | inr other ↦ rw (other) tt
  | inl examined ↦
      let covered = (rw (examined) at h) in
      rw (examined, has_record-append event.tx_hash front back) (ground arith)
]

process_event-IsCovered :
    (context : PollContext) (stored : Dict PaymentRow) (event : ContractEvent)
    (found others : List PaymentRow)
    → process_event context stored event ≡ ok found
    → IsCovered context stored (found ++ others) event
process_event-IsCovered context stored event found others h =
    elim (Bool-cases (is_examined context event)) [
      | inr other ↦ rw (other) tt
      | inl examined ↦
          let covered = process_event-Covers context stored event found h examined in
          rw (examined, has_record-append event.tx_hash found others) (ground arith)
    ]

pub new_records-IsCovered :
    (context : PollContext) (stored : Dict PaymentRow) (events : List ContractEvent)
    (records : List PaymentRow)
    → new_records context stored events ≡ ok records
    → All (IsCovered context stored records) events
unfolding new_records
new_records-IsCovered context stored [] records h = tt
new_records-IsCovered context stored (event ∷ events) records h =
    let (found, processed, rest) =
      >>=-eq-ok (process_event context stored event)
        (λ found. new_records context stored events >>= λ others. ok (found ++ others)) h in
    let (others, made, joined) =
      >>=-eq-ok (new_records context stored events) (λ others. ok (found ++ others)) rest in
    let whole : (found ++ others) ≡ records = ap list_in joined in
    subst (λ l. All (IsCovered context stored l) (event ∷ events)) whole
      (
        process_event-IsCovered context stored event found others processed,
        All-map (IsCovered context stored others) (IsCovered context stored (found ++ others))
            (grown context stored found others) events
            (new_records-IsCovered context stored events others made),
      )
