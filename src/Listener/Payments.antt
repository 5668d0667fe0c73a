-- ===== src/Listener/Payments.antt =====
-- The payments that a poll makes of its events (backend/src/services/EventListenerService.ts,
-- decodePayoutEvent and the loop of pollEvents), said of the events themselves.
use split_naira.Prelude.{
  ◌≡◌, refl, Option, none, some, codes, or_else, text_eq_iff, if_elim, All-append, Any, sym, ap,
  ◌∙◌, subst, Text, Bool, true, false, ◌||◌, List, [], ◌∷◌, ◌++◌, arith, if_true, if_false, All,
  All-map, Bool-cases, inl, inr, Result, ok, err, ◌>>=◌, >>=-eq-ok,
}
use split_naira.Prelude.Dict.{Dict, has}
use split_naira.Listener.{PaymentRow}
use split_naira.Listener.Events.{
  ContractEvent, PollContext, is_payout, is_contract, project_id, topic_at, payout_value,
  payment_of, decoded_payment, unless_stored, created_payments, decode_payout_event, process_event,
  new_records, wrong_contract, bad_project_id, RpcResponseValidationError,
}

-- A row that is the payment of a payout event: the fields by the event's topics and value.
pub record IsPaymentOf (context : PollContext) (event : ContractEvent) (r : PaymentRow)
    : Type 0 where
  pub payout : is_payout event ≡ true
  pub contract : event.contract_id ≡ some context.contract_id
  pub project : topic_at 1 event.topics ≡ some r.round_id
  pub value : event.payout ≡ some (r.recipient, r.amount)
  pub token : r.token ≡ or_else (context.token_of r.round_id) (codes "Native")
  pub time : r.timestamp ≡ event.closed_at
  pub hash : r.tx_hash ≡ event.tx_hash

text_in : Result RpcResponseValidationError Text → Text
text_in (ok t) = t
text_in (err _) = []

value_in : Text × Text → Result RpcResponseValidationError (Text × Text) → Text × Text
value_in other (ok v) = v
value_in other (err _) = other

project_id-some :
    (is_symbol : Text → Bool) (topic : Option Text) (project : Text)
    → project_id is_symbol topic ≡ ok project
    → topic ≡ some project
unfolding text_in
project_id-some is_symbol none project h = absurd (cc h)
project_id-some is_symbol (some topic) project h = elim (Bool-cases (is_symbol topic)) [
  | inr other ↦ absurd (cc (if_false (ok topic) (err bad_project_id) other, h))
  | inl symbol ↦ ap some (ap text_in (sym (if_true (ok topic) (err bad_project_id) symbol) ∙ h))
]

payout_value-some :
    (payout : Option (Text × Text)) (value : Text × Text)
    → payout_value payout ≡ ok value
    → payout ≡ some value
unfolding value_in
payout_value-some none value h = absurd (cc h)
payout_value-some (some v) value h = ap some (ap (value_in v) h)

is_contract-some :
    (found : Option Text) (expected : Text)
    → is_contract found expected ≡ true
    → found ≡ some expected
is_contract-some none expected h = absurd (cc h)
is_contract-some (some found) expected h = ap some ((text_eq_iff found expected).0 h)

payment_in : PaymentRow → Result RpcResponseValidationError PaymentRow → PaymentRow
payment_in other (ok payment) = payment
payment_in other (err _) = other

pub decoded-IsPaymentOf :
    (context : PollContext) (event : ContractEvent) (payment : PaymentRow)
    → is_payout event ≡ true
    → decode_payout_event context event ≡ ok payment
    → IsPaymentOf context event payment
unfolding decode_payout_event payment_in
decoded-IsPaymentOf context event payment named h =
    elim (Bool-cases (is_contract event.contract_id context.contract_id)) [
      | inr other ↦
          absurd (cc (if_false (decoded_payment context event) (err wrong_contract) other, h))
      | inl ours ↦
          let inside =
            sym (if_true (decoded_payment context event) (err wrong_contract) ours) ∙ h in
          let (project, topic, rest) =
            >>=-eq-ok (project_id context.is_symbol (topic_at 1 event.topics))
              (λ project.
                payout_value event.payout >>= λ value. ok (payment_of context event project value))
              inside in
          let (value, payout, made) =
            >>=-eq-ok (payout_value event.payout)
              (λ value. ok (payment_of context event project value)) rest in
          subst (IsPaymentOf context event) (ap (payment_in payment) made) (record {
            payout = named;
            contract = is_contract-some event.contract_id context.contract_id ours;
            project = project_id-some context.is_symbol (topic_at 1 event.topics) project topic;
            value = payout_value-some event.payout value payout;
            token = refl;
            time = refl;
            hash = refl;
          })
    ]

-- A new row: its hash is not stored yet, and it is the payment of one of the events.
abbrev pub IsNew : PollContext → Dict PaymentRow → List ContractEvent → PaymentRow → Type 0
IsNew context stored events r =
    (has r.tx_hash stored ≡ false) × Any (λ event. IsPaymentOf context event r) events

abbrev pub list_in : Result RpcResponseValidationError (List PaymentRow) → List PaymentRow
list_in (ok records) = records
list_in (err _) = []

neither : (a b : Bool) → (a || b) ≡ false → b ≡ false
neither a b h = ground arith

process_event-IsNew :
    (context : PollContext) (stored : Dict PaymentRow) (event : ContractEvent)
    (others : List ContractEvent) (found : List PaymentRow)
    → process_event context stored event ≡ ok found
    → All (IsNew context stored (event ∷ others)) found
unfolding process_event
process_event-IsNew context stored event others found h = elim (Bool-cases (is_payout event)) [
  | inr other ↦
      subst (All (IsNew context stored (event ∷ others)))
        (ap list_in (sym (if_false (created_payments context stored event) (ok []) other) ∙ h)) tt
  | inl payout ↦
      let inside = sym (if_true (created_payments context stored event) (ok []) payout) ∙ h in
      let (payment, decoded, made) =
        >>=-eq-ok (decode_payout_event context event)
          (λ payment. ok (unless_stored context stored event payment)) inside in
      let is_payment = decoded-IsPaymentOf context event payment payout decoded in
      subst (All (IsNew context stored (event ∷ others))) (ap list_in made) (
        if_elim (All (IsNew context stored (event ∷ others)))
          (context.lookup_fails event.tx_hash || has event.tx_hash stored) (λ _. tt)
          (λ looked.
            ((ap (λ t. has t stored) is_payment.hash ∙ neither _ _ looked, inl is_payment), tt)))
]

pub new_records-IsNew :
    (context : PollContext) (stored : Dict PaymentRow) (events : List ContractEvent)
    (records : List PaymentRow)
    → new_records context stored events ≡ ok records
    → All (IsNew context stored events) records
unfolding new_records
new_records-IsNew context stored [] records h =
    subst (All (IsNew context stored [])) (ap list_in h) tt
new_records-IsNew context stored (event ∷ events) records h =
    let (found, processed, rest) =
      >>=-eq-ok (process_event context stored event)
        (λ found. new_records context stored events >>= λ others. ok (found ++ others)) h in
    let (others, made, joined) =
      >>=-eq-ok (new_records context stored events) (λ others. ok (found ++ others)) rest in
    subst (All (IsNew context stored (event ∷ events))) (ap list_in joined) (
      All-append (IsNew context stored (event ∷ events)) found others
        (process_event-IsNew context stored event events found processed)
        (All-map (IsNew context stored events) (IsNew context stored (event ∷ events))
          (λ r h. (h.0, inr h.1)) others (new_records-IsNew context stored events others made)))
