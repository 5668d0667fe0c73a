-- ===== src/Exports/Payouts.antt =====
-- The listings of payouts (backend/src/services/PayoutHistoryService.ts): pages after a cursor, and
-- the walk in batches. The rows that match the filters, in the order of the listing, are a parameter,
-- as is the comparison of row ids by the database.
pub mod Coverage
pub mod Pages
use split_naira.Prelude.{
  ℕ, zero, suc, ◌+◌, Text, Bool, true, false, ◌&&◌, ◌||◌, List, [], ◌∷◌, ◌++◌, Option, none, some,
  ltb, ◌==◌, if◌then◌else◌, or_else, length, take, drop, filter,
}

pub record PayoutRow : Type 0 where
  pub id : Text
  pub timestamp : ℕ

abbrev pub TransactionCursor : Type 0
TransactionCursor = PayoutRow

-- The condition of the query for the rows after a cursor.
unfoldable pub comes_after : (Text → Text → Bool) → TransactionCursor → PayoutRow → Bool
comes_after id_before cursor row =
    ltb row.timestamp cursor.timestamp
    || (row.timestamp == cursor.timestamp && id_before row.id cursor.id)

pub record PayoutPage : Type 0 where
  pub records : List PayoutRow
  pub total : ℕ
  pub has_more : Bool

abbrev pub page_of : ℕ → ℕ → List PayoutRow → PayoutPage
page_of limit total rows =
    let more = ltb limit (length rows) in
    record { records = if more then take limit rows else rows; total = total; has_more = more }

-- A cursor takes precedence over the offset.
unfoldable pub matching_rows :
    (Text → Text → Bool) → Option TransactionCursor → ℕ → List PayoutRow → List PayoutRow
unfolding comes_after
matching_rows id_before none offset rows = drop offset rows
matching_rows id_before (some cursor) offset rows = filter (comes_after id_before cursor) rows

-- A page where no query fails.
unfoldable pub get_payouts_page :
    (Text → Text → Bool) → Option TransactionCursor → ℕ → ℕ → List PayoutRow → PayoutPage
unfolding matching_rows
get_payouts_page id_before cursor offset limit rows =
    page_of limit (length rows) (take (limit + 1) (matching_rows id_before cursor offset rows))

-- `iteratePayouts`: the batches that it yields. `fetch offset size` is the query for a batch, none
-- where it fails, which ends the walk. One round of fuel for a batch.
unfoldable pub iterate_payouts :
    {A : Type 0} → (ℕ → ℕ → Option (List A)) → ℕ → ℕ → ℕ → List (List A)
iterate_payouts fetch batch_size zero offset = []
iterate_payouts fetch batch_size (suc fuel) offset =
    let batch = or_else (fetch offset batch_size) [] in
    let rest = iterate_payouts fetch batch_size fuel (offset + length batch) in
    if length batch == 0
    then []
    else if ltb (length batch) batch_size
    then batch ∷ []
    else batch ∷ rest
