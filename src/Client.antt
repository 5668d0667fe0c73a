-- ===== src/Client.antt =====
-- What the browser computes by itself (frontend/src/lib): token amounts and the preview of a
-- distribution (amounts.ts), keys and outcomes of submissions (submission-guard.ts), and the history
-- of failures (toast-history.ts).
pub mod Distribution
pub mod Parsing
pub mod Submissions
use split_naira.Prelude.{
  ℕ, zero, suc, ◌+◌, ◌-◌, ◌*◌, ◌/◌, Text, text_eq, trim, is_empty, Bool, true, false, not, ◌&&◌,
  ◌||◌, List, [], ◌∷◌, ◌++◌, Option, none, some, ltb, leb, ◌==◌, if◌then◌else◌, length, take, drop,
  filter, Result, ok, err, ◌>>=◌, ◌>>◌, guard,
}
use split_naira.Prelude.Int.{ℤ, pos, negsuc, negate_ℕ}
use split_naira.Amounts.{
  amount_decimals, amount_scale, all_digits, split_point, value_from, pad_fraction, fraction_text,
}

abbrev pub basis_points_total : ℕ
basis_points_total = 10000

pub data AmountParseError : Type 0 where
  empty_amount not_decimal too_many_decimals : AmountParseError

-- `/^(\d+)(?:\.(\d*))?$/`.
unfoldable pub decimal_pattern : Text → Bool
unfolding split_point all_digits
decimal_pattern value =
    let (whole, fraction) = split_point value in
    not (is_empty whole) && all_digits whole && all_digits (fraction_text fraction)

unfoldable pub parse_trimmed : Text → Result AmountParseError ℕ
unfolding decimal_pattern split_point value_from
parse_trimmed value = do
  guard (not (is_empty value)) empty_amount
  guard (decimal_pattern value) not_decimal
  let fraction = fraction_text (split_point value).1
  guard (leb (length fraction) amount_decimals) too_many_decimals
  ok (value_from 0 (split_point value).0 * amount_scale + value_from 0 (pad_fraction fraction))

unfoldable pub parse_token_amount : Text → Result AmountParseError ℕ
unfolding parse_trimmed trim
parse_token_amount raw = parse_trimmed (trim raw)

pub record PreviewCollaborator : Type 0 where
  pub address : Text
  pub alias : Text
  pub basis_points : ℕ

pub record DistributionShare : Type 0 where
  pub collaborator : PreviewCollaborator
  pub amount : ℤ

-- The difference of two natural numbers.
abbrev pub difference : ℕ → ℕ → ℤ
difference a b = if leb b a then pos (a - b) else negate_ℕ (b - a)

abbrev pub floor_share : ℕ → PreviewCollaborator → ℕ
floor_share balance collab = balance * collab.basis_points / basis_points_total

unfoldable pub shares_from : ℕ → ℕ → List PreviewCollaborator → List DistributionShare
shares_from balance sent [] = []
shares_from balance sent (collab ∷ []) =
    record { collaborator = collab; amount = difference balance sent } ∷ []
shares_from balance sent (collab ∷ next ∷ others) =
    record { collaborator = collab; amount = pos (floor_share balance collab) }
    ∷ shares_from balance (sent + floor_share balance collab) (next ∷ others)

unfoldable pub preview_distribution : ℤ → List PreviewCollaborator → Option (List DistributionShare)
unfolding shares_from
preview_distribution (negsuc n) collaborators = none
preview_distribution (pos balance) collaborators =
    if length collaborators == 0 || balance == 0 || ltb balance (length collaborators)
    then none
    else some (shares_from balance 0 collaborators)

-- The key of the current payload, by its fingerprint (what stableStringify makes of it); `generate`
-- stands for the next random key.
pub record IdempotencyKeyStore : Type 0 where
  pub fingerprint : Option Text
  pub key : Text

abbrev pub new_key_store : IdempotencyKeyStore
new_key_store = record { fingerprint = none; key = [] }

abbrev pub is_current : Option Text → Text → Bool
is_current none fingerprint = false
is_current (some current) fingerprint = text_eq current fingerprint

unfoldable pub key_for_payload : Text → Text → IdempotencyKeyStore → IdempotencyKeyStore × Text
key_for_payload generate fingerprint store =
    if is_current store.fingerprint fingerprint
    then (store, store.key)
    else (record { fingerprint = some fingerprint; key = generate }, generate)

abbrev pub reset_key : IdempotencyKeyStore → IdempotencyKeyStore
reset_key store = record store { fingerprint = none }

abbrev pub tx_validity_window_ms : ℕ
tx_validity_window_ms = 300000

abbrev pub tx_expiry_margin_ms : ℕ
tx_expiry_margin_ms = 60000

-- The status that the RPC reports, or no valid answer.
pub data ReportedStatus : Type 0 where
  reported_success reported_failed reported_not_found no_answer : ReportedStatus

pub data UnconfirmedResolution : Type 0 where
  resolved_succeeded resolved_failed resolved_expired resolved_pending : UnconfirmedResolution

unfoldable pub resolve_unconfirmed_submission : ReportedStatus → ℕ → ℕ → UnconfirmedResolution
resolve_unconfirmed_submission reported_success submitted_at now = resolved_succeeded
resolve_unconfirmed_submission reported_failed submitted_at now = resolved_failed
resolve_unconfirmed_submission no_answer submitted_at now = resolved_pending
resolve_unconfirmed_submission reported_not_found submitted_at now =
    if leb (submitted_at + (tx_validity_window_ms + tx_expiry_margin_ms)) now
    then resolved_expired
    else resolved_pending

pub data ToastVariant : Type 0 where
  toast_success toast_error toast_info toast_warning : ToastVariant

abbrev pub is_persistable_variant : ToastVariant → Bool
is_persistable_variant toast_error = true
is_persistable_variant _ = false

pub record ToastHistoryEntry : Type 0 where
  pub id : Text
  pub message : Text
  pub variant : ToastVariant
  pub created_at : ℕ

abbrev pub toast_history_limit : ℕ
toast_history_limit = 20

-- `slice(-n)`.
abbrev pub last_of : {A : Type 0} → ℕ → List A → List A
last_of n xs = drop (length xs - n) xs

-- The storage: none where it is unavailable; otherwise the rows that are stored and parse, with
-- whether a write succeeds.
pub record ToastStorage : Type 0 where
  pub rows : List ToastHistoryEntry
  pub writable : Bool

unfoldable pub read_toast_history : Option ToastStorage → List ToastHistoryEntry
read_toast_history none = []
read_toast_history (some storage) =
    last_of toast_history_limit
      (filter (λ (e : ToastHistoryEntry). is_persistable_variant e.variant) storage.rows)

abbrev pub write_toast_history : List ToastHistoryEntry → Option ToastStorage → Option ToastStorage
write_toast_history entries none = none
write_toast_history entries (some storage) =
    if storage.writable then some (record storage { rows = entries }) else some storage

unfoldable pub append_toast_history :
    ToastHistoryEntry → Option ToastStorage → List ToastHistoryEntry × Option ToastStorage
unfolding read_toast_history
append_toast_history entry storage =
    let next = last_of toast_history_limit (read_toast_history storage ++ (entry ∷ [])) in
    (next, write_toast_history next storage)
