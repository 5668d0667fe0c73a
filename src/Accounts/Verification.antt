-- ===== src/Accounts/Verification.antt =====
-- The e-mail verification tokens that are stored (backend/src/services/email-verification-token.ts):
-- one row for an address, as the queries of the file change it.
pub mod SingleUse
use split_naira.Prelude.{
  ℕ, Text, text_eq, trim, to_lower_case, Bool, true, false, not, ◌&&◌, List, [], ◌∷◌, Option, none,
  some, ltb, is_some, if◌then◌else◌,
}
use split_naira.Prelude.Dict.{Dict, get, set}

pub record EmailVerificationToken : Type 0 where
  pub token_hash : Text
  pub expires_at : ℕ
  pub consumed_at : Option ℕ

abbrev pub TokenRows : Type 0
TokenRows = Dict EmailVerificationToken

pub record IssuedEmailVerificationToken : Type 0 where
  pub token_hash : Text
  pub expires_at : ℕ

unfoldable pub normalize_email : Text → Text
unfolding trim to_lower_case
normalize_email email = to_lower_case (trim email)

unfoldable pub rotate_email_verification_token :
    Text → IssuedEmailVerificationToken → TokenRows → TokenRows
unfolding normalize_email set
rotate_email_verification_token email issued rows =
    set (normalize_email email)
      (record {
        token_hash = issued.token_hash;
        expires_at = issued.expires_at;
        consumed_at = none;
      })
      rows

-- The row that an update by address and hash finds, where it is not consumed yet.
abbrev pub is_unconsumed : Text → EmailVerificationToken → Bool
is_unconsumed token_hash row = text_eq row.token_hash token_hash && not (is_some row.consumed_at)

abbrev pub is_live : Text → ℕ → EmailVerificationToken → Bool
is_live token_hash now row = is_unconsumed token_hash row && ltb now row.expires_at

-- The rows after an update of the row with the key, where it passes the test, and whether it did.
abbrev pub update_where :
    (EmailVerificationToken → Bool)
    → ℕ
    → Text
    → Option EmailVerificationToken
    → TokenRows
    → TokenRows × Bool
update_where test now key none rows = (rows, false)
update_where test now key (some row) rows =
    if test row then (set key (record row { consumed_at = some now }) rows, true) else (rows, false)

unfoldable pub consume_email_verification_token : Text → Text → ℕ → TokenRows → TokenRows × Bool
unfolding normalize_email get set
consume_email_verification_token email token_hash now rows =
    let key = normalize_email email in
    update_where (is_live token_hash now) now key (get key rows) rows

unfoldable pub invalidate_email_verification_token : Text → Text → ℕ → TokenRows → TokenRows
unfolding normalize_email get set
invalidate_email_verification_token email token_hash now rows =
    let key = normalize_email email in
    (update_where (is_unconsumed token_hash) now key (get key rows) rows).0
