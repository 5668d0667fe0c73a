-- ===== src/Listener/Events.antt =====
-- The events that a poll asks for and the payments that it makes of them: `filterOptions`,
-- `decodePayoutEvent` and `processEvent` of EventListenerService.ts.
use split_naira.Prelude.{
  ℕ, zero, suc, Text, codes, text_eq, Bool, true, false, ◌||◌, List, [], ◌∷◌, ◌++◌, Option, none,
  some, if◌then◌else◌, or_else, Result, ok, err, ◌>>=◌,
}
use split_naira.Prelude.Dict.{Dict, has}
use split_naira.Listener.{EventListener, PaymentRow, truthy_number, truthy_text}

-- An event as the SDK and the schemas decode it: its topics, "" for one that cannot be decoded, and
-- its value, none where it is malformed.
pub record ContractEvent : Type 0 where
  pub topics : List Text
  pub tx_hash : Text
  pub ledger : Option ℕ
  pub contract_id : Option Text
  pub payout : Option (Text × Text)
  pub closed_at : ℕ

pub record GetEventsResponse : Type 0 where
  pub events : List ContractEvent
  pub latest_ledger : Option ℕ
  pub next_cursor : Option Text

-- `filterOptions`.
pub data EventFilter : Type 0 where
  from_cursor : Text → EventFilter
  from_ledger : ℕ → EventFilter

unfoldable pub filter_options : EventListener → EventFilter
filter_options l =
    if truthy_text l.cursor
    then from_cursor (or_else l.cursor [])
    else if truthy_number l.start_ledger
    then from_ledger (or_else l.start_ledger 0)
    else from_cursor []

-- A poll that finds another one under way does nothing.
unfoldable pub begin_poll : EventListener → EventListener × Option EventFilter
unfolding filter_options
begin_poll l =
    if l.is_polling then (l, none) else (record l { is_polling = true }, some (filter_options l))

-- What a poll uses of other code: the configured contract, the schema of project ids, the look-ups
-- of a hash that the database fails, and the token of a project, where it can be resolved.
pub record PollContext : Type 0 where
  pub contract_id : Text
  pub is_symbol : Text → Bool
  pub lookup_fails : Text → Bool
  pub token_of : Text → Option Text

pub data RpcResponseValidationError : Type 0 where
  wrong_contract bad_project_id bad_value : RpcResponseValidationError

abbrev pub topic_at : ℕ → List Text → Option Text
topic_at n [] = none
topic_at zero (t ∷ ts) = some t
topic_at (suc n) (t ∷ ts) = topic_at n ts

abbrev pub event_name : ContractEvent → Text
event_name event = or_else (topic_at 0 event.topics) []

abbrev pub is_payout : ContractEvent → Bool
is_payout event =
    text_eq (event_name event) (codes "payment_sent")
    || text_eq (event_name event) (codes "collaborator_claimed")

abbrev pub is_contract : Option Text → Text → Bool
is_contract none expected = false
is_contract (some found) expected = text_eq found expected

abbrev pub project_id : (Text → Bool) → Option Text → Result RpcResponseValidationError Text
project_id is_symbol none = err bad_project_id
project_id is_symbol (some topic) = if is_symbol topic then ok topic else err bad_project_id

abbrev pub payout_value : Option (Text × Text) → Result RpcResponseValidationError (Text × Text)
payout_value none = err bad_value
payout_value (some value) = ok value

abbrev pub default_token : Text
default_token = codes "Native"

-- The payment of a payout event, with the token of its project.
abbrev pub payment_of : PollContext → ContractEvent → Text → Text × Text → PaymentRow
payment_of context event project (recipient, amount) = record {
  round_id = project;
  recipient = recipient;
  amount = amount;
  token = or_else (context.token_of project) default_token;
  timestamp = event.closed_at;
  tx_hash = event.tx_hash;
}

abbrev pub decoded_payment :
    PollContext → ContractEvent → Result RpcResponseValidationError PaymentRow
decoded_payment context event = do
  project ← project_id context.is_symbol (topic_at 1 event.topics)
  value ← payout_value event.payout
  ok (payment_of context event project value)

unfoldable pub decode_payout_event :
    PollContext → ContractEvent → Result RpcResponseValidationError PaymentRow
decode_payout_event context event =
    if is_contract event.contract_id context.contract_id
    then decoded_payment context event
    else err wrong_contract

-- A payout that is stored already is passed over; so is one whose look-up fails, since the error is
-- only logged.
abbrev pub unless_stored :
    PollContext → Dict PaymentRow → ContractEvent → PaymentRow → List PaymentRow
unless_stored context stored event payment =
    if context.lookup_fails event.tx_hash || has event.tx_hash stored then [] else payment ∷ []

abbrev pub created_payments :
    PollContext
    → Dict PaymentRow
    → ContractEvent
    → Result RpcResponseValidationError (List PaymentRow)
created_payments context stored event = do
  payment ← decode_payout_event context event
  ok (unless_stored context stored event payment)

unfoldable pub process_event :
    PollContext
    → Dict PaymentRow
    → ContractEvent
    → Result RpcResponseValidationError (List PaymentRow)
unfolding decode_payout_event
process_event context stored event =
    if is_payout event then created_payments context stored event else ok []

unfoldable pub new_records :
    PollContext
    → Dict PaymentRow
    → List ContractEvent
    → Result RpcResponseValidationError (List PaymentRow)
unfolding process_event
new_records context stored [] = ok []
new_records context stored (event ∷ events) = do
  found ← process_event context stored event
  others ← new_records context stored events
  ok (found ++ others)
