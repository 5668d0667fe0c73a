-- ===== src/Witnesses/ServiceTests.antt =====
-- Retries, exports, verification tokens and the browser's amounts at concrete inputs.
use split_naira.Prelude.{
  Text, ltb, ℕ, zero, suc, ◌≤◌, ◌≡◌, refl, arith, codes, text_eq, trim, to_lower_case, Bool, true,
  false, List, [], ◌∷◌, map, Option, none, some, All, any, take, drop, Result, ok, err,
}
use split_naira.Prelude.Int.{pos}
use split_naira.Prelude.Dict.{get, set}
use split_naira.Amounts.{to_units, to_units_unchecked, amount_pattern}
use split_naira.Retry.{
  AttemptError, other_error, timed_out, bound_retry_budget, execute_with_retry, with_retry,
}
use split_naira.Retry.Budget.{IsRun, total_delay, execute_with_retry-IsRun}
use split_naira.Retry.Browser.{IsBrowserRun, with_retry-IsBrowserRun}
use split_naira.Client.{
  PreviewCollaborator, DistributionShare, preview_distribution, parse_token_amount,
}
use split_naira.Client.Distribution.{IsPaidOut, preview_distribution-IsPaidOut}
use split_naira.Client.Parsing.{parse_token_amount-to_units}
use split_naira.Exports.{formula_trigger, to_csv_row}
use split_naira.Exports.Reading.{read_row, written, read_row-to_csv_row}
use split_naira.Exports.Payouts.{PayoutRow, comes_after, get_payouts_page, iterate_payouts}
use split_naira.Exports.Payouts.Coverage.{concat, iterate_payouts-concat}
use split_naira.Exports.Payouts.Pages.{get_payouts_page-after}
use split_naira.Accounts.Verification.{TokenRows, normalize_email, consume_email_verification_token}
use split_naira.Accounts.Verification.SingleUse.{
  TokenCommand, rotate, consume, invalidate, after_commands, reissues,
  consume_email_verification_token_once,
}

-- Two failures, and then a success.
abbrev flaky : ℕ → Result (AttemptError ℕ) ℕ
flaky zero = err (other_error 1)
flaky (suc zero) = err timed_out
flaky (suc (suc n)) = ok 42

execute_with_retry-IsRun_example :
    IsRun flaky (bound_retry_budget (some (pos 9))) 0 (execute_with_retry flaky 1000 (some (pos 9)))
    × ((execute_with_retry flaky 1000 (some (pos 9))).used ≤ 5)
    × (total_delay (execute_with_retry flaky 1000 (some (pos 9))).delays ≤ 150000)
execute_with_retry-IsRun_example = execute_with_retry-IsRun flaky 1000 (some (pos 9))

abbrev request : ℕ → Result ℕ ℕ
request zero = err 7
request (suc zero) = err 503
request (suc (suc n)) = err 404

abbrev is_server_error : ℕ → Bool
is_server_error code = text_eq (code ∷ []) (503 ∷ [])

with_retry-IsBrowserRun_example :
    IsBrowserRun request is_server_error 2 1 (with_retry request 3 500 is_server_error)
with_retry-IsBrowserRun_example = with_retry-IsBrowserRun request is_server_error 2 500

abbrev ann : PreviewCollaborator
ann = record { address = codes "GANN"; alias = codes "ann"; basis_points = 3333 }

abbrev bob : PreviewCollaborator
bob = record { address = codes "GBOB"; alias = codes "bob"; basis_points = 6667 }

preview_distribution-IsPaidOut_example :
    (shares : List DistributionShare) × (preview_distribution (pos 1001) (ann ∷ bob ∷ [])
      ≡ some shares)
    × IsPaidOut 1001 1001 (ann ∷ bob ∷ []) shares
preview_distribution-IsPaidOut_example =
    preview_distribution-IsPaidOut 1001 ann (bob ∷ []) (omega arith) (omega arith)

read_as_units : to_units (codes "12.5") ≡ ok 125000000
unfolding to_units to_units_unchecked amount_pattern
read_as_units = refl

parse_token_amount-to_units_example : parse_token_amount (codes "12.5") ≡ ok 125000000
parse_token_amount-to_units_example =
    parse_token_amount-to_units (codes "12.5") 125000000 read_as_units

read_row-to_csv_row_example :
    (read_row (to_csv_row (some (codes "=1+1") ∷ some (codes "a,b") ∷ none ∷ []))
      ≡ some (map written (some (codes "=1+1") ∷ some (codes "a,b") ∷ none ∷ [])))
    × All
        (λ cell. formula_trigger cell ≡ false)
        (map written (some (codes "=1+1") ∷ some (codes "a,b") ∷ none ∷ []))
read_row-to_csv_row_example =
    read_row-to_csv_row (some (codes "=1+1")) (some (codes "a,b") ∷ none ∷ [])

abbrev listing : List ℕ
listing = 5 ∷ 4 ∷ 3 ∷ 2 ∷ 1 ∷ []

abbrev fetch : ℕ → ℕ → Option (List ℕ)
fetch offset n = some (take n (drop offset listing))

iterate_payouts-concat_example : concat (iterate_payouts fetch 2 6 1) ≡ 4 ∷ 3 ∷ 2 ∷ 1 ∷ []
iterate_payouts-concat_example =
    iterate_payouts-concat listing fetch 2 (λ offset n. refl) (omega arith) 1

-- Ids by their first unit, which stands for the database's order of ids.
first_before : Text → Text → Bool
first_before (a ∷ _) (b ∷ _) = ltb a b
first_before _ _ = false

first_before-asymmetric : (a b : Text) → first_before a b ≡ true → first_before b a ≡ false
unfolding first_before
first_before-asymmetric (a ∷ _) (b ∷ _) h = ground arith
first_before-asymmetric [] [] h = refl
first_before-asymmetric [] (b ∷ _) h = refl
first_before-asymmetric (a ∷ _) [] h = refl

abbrev payout_at : Text → ℕ → PayoutRow
payout_at id at = record { id = id; timestamp = at }

abbrev newest : PayoutRow
newest = payout_at (codes "c") 30

abbrev tied : PayoutRow
tied = payout_at (codes "d") 20

abbrev tied_later : PayoutRow
tied_later = payout_at (codes "b") 20

abbrev oldest : PayoutRow
oldest = payout_at (codes "a") 10

get_payouts_page-after_example :
    get_payouts_page first_before (some tied) 7 1 (newest ∷ tied ∷ tied_later ∷ oldest ∷ [])
    ≡ record { records = tied_later ∷ []; total = 4; has_more = true }
unfolding first_before comes_after
get_payouts_page-after_example =
    get_payouts_page-after first_before first_before-asymmetric (newest ∷ []) tied
      (tied_later ∷ oldest ∷ []) 7 1
      ((refl, (refl, (refl, tt))), ((refl, (refl, tt)), ((refl, tt), (tt, tt))))

abbrev stored : TokenRows
stored =
    (codes "a@x.io", record { token_hash = codes "t1"; expires_at = 900; consumed_at = none }) ∷ []

abbrev later_commands : List TokenCommand
later_commands =
    consume (codes "A@X.io") (codes "t1") 20
    ∷ rotate (codes "a@x.io") (record { token_hash = codes "t2"; expires_at = 990 })
    ∷ invalidate (codes "b@x.io") (codes "t1") 30
    ∷ []

won : (consume_email_verification_token (codes " A@x.io") (codes "t1") 10 stored).1 ≡ true
unfolding consume_email_verification_token normalize_email get set trim to_lower_case text_eq
won = refl

not_reissued : any (reissues (codes " A@x.io") (codes "t1")) later_commands ≡ false
unfolding reissues normalize_email trim to_lower_case text_eq
not_reissued = refl

consume_email_verification_token_once_example :
    (consume_email_verification_token (codes " A@x.io") (codes "t1") 40 (
      after_commands later_commands
        (consume_email_verification_token (codes " A@x.io") (codes "t1") 10 stored).0)).1
    ≡ false
consume_email_verification_token_once_example =
    consume_email_verification_token_once (codes " A@x.io") (codes "t1") 10 40 later_commands stored
      won not_reissued
