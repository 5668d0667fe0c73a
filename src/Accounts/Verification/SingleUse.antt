-- ===== src/Accounts/Verification/SingleUse.antt =====
-- A verification token after it was consumed (backend/src/services/email-verification-token.ts), over
-- what happens to the rows later.
use split_naira.Prelude.{
  ℕ, ◌≡◌, refl, ap, Text, text_eq, Bool, true, false, ◌&&◌, List, [], ◌∷◌, Option, none, some,
  arith, if◌then◌else◌, if_elim, if_false, any, Bool-cases, inl, inr,
}
use split_naira.Prelude.Dict.{get, get-set, get-set_self}
use split_naira.Accounts.Verification.{
  EmailVerificationToken, TokenRows, IssuedEmailVerificationToken, normalize_email,
  rotate_email_verification_token, is_unconsumed, is_live, update_where,
  consume_email_verification_token, invalidate_email_verification_token,
}

pub data TokenCommand : Type 0 where
  rotate : Text → IssuedEmailVerificationToken → TokenCommand
  consume : Text → Text → ℕ → TokenCommand
  invalidate : Text → Text → ℕ → TokenCommand

unfoldable pub after_command : TokenCommand → TokenRows → TokenRows
unfolding rotate_email_verification_token consume_email_verification_token
    invalidate_email_verification_token
after_command (rotate email issued) rows = rotate_email_verification_token email issued rows
after_command (consume email token_hash now) rows =
    (consume_email_verification_token email token_hash now rows).0
after_command (invalidate email token_hash now) rows =
    invalidate_email_verification_token email token_hash now rows

unfoldable pub after_commands : List TokenCommand → TokenRows → TokenRows
unfolding after_command
after_commands [] rows = rows
after_commands (command ∷ commands) rows = after_commands commands (after_command command rows)

-- A rotation that issues the hash for the address again.
unfoldable pub reissues : Text → Text → TokenCommand → Bool
unfolding normalize_email
reissues email token_hash (rotate other issued) =
    text_eq (normalize_email other) (normalize_email email) && text_eq issued.token_hash token_hash
reissues email token_hash (consume _ _ _) = false
reissues email token_hash (invalidate _ _ _) = false

-- A row that no update with the hash finds.
abbrev IsSpent : Text → Option EmailVerificationToken → Type 0
IsSpent token_hash none = Unit
IsSpent token_hash (some row) = is_unconsumed token_hash row ≡ false

update-IsSpent :
    (test : EmailVerificationToken → Bool) (now : ℕ) (key j token_hash : Text)
    (found : Option EmailVerificationToken) (rows : TokenRows)
    → get key rows ≡ found
    → IsSpent token_hash (get j rows)
    → IsSpent token_hash (get j (update_where test now key found rows).0)
update-IsSpent test now key j token_hash none rows e h = h
update-IsSpent test now key j token_hash (some row) rows e h =
    if_elim (λ (r : TokenRows × Bool). IsSpent token_hash (get j r.0)) (test row)
      (λ _.
        rw (get-set key j (record row { consumed_at = some now }) rows)
          (if_elim (IsSpent token_hash) (text_eq key j) (λ _. ground arith) (λ _. h)))
      (λ _. h)

rotate-IsSpent :
    (email other token_hash : Text) (issued : IssuedEmailVerificationToken) (rows : TokenRows)
    → reissues email token_hash (rotate other issued) ≡ false
    → IsSpent token_hash (get (normalize_email email) rows)
    → IsSpent token_hash
        (get (normalize_email email) (rotate_email_verification_token other issued rows))
unfolding rotate_email_verification_token reissues
rotate-IsSpent email other token_hash issued rows e h =
    rw (get-set (normalize_email other) (normalize_email email) _ rows) (
      if_elim (IsSpent token_hash) (text_eq (normalize_email other) (normalize_email email))
        (λ same. ground arith) (λ _. h))

command-IsSpent :
    (email token_hash : Text) (command : TokenCommand) (rows : TokenRows)
    → reissues email token_hash command ≡ false
    → IsSpent token_hash (get (normalize_email email) rows)
    → IsSpent token_hash (get (normalize_email email) (after_command command rows))
unfolding after_command consume_email_verification_token invalidate_email_verification_token
command-IsSpent email token_hash (rotate other issued) rows e h =
    rotate-IsSpent email other token_hash issued rows e h
command-IsSpent email token_hash (consume other hash now) rows e h =
    let key = normalize_email other in
    update-IsSpent (is_live hash now) now key (normalize_email email) token_hash (get key rows) rows
      refl h
command-IsSpent email token_hash (invalidate other hash now) rows e h =
    let key = normalize_email other in
    update-IsSpent (is_unconsumed hash) now key (normalize_email email) token_hash (get key rows)
      rows refl h

neither : (a b : Bool) → (if a then true else b) ≡ false → (a ≡ false) × (b ≡ false)
neither a b h = ground arith

commands-IsSpent :
    (email token_hash : Text) (commands : List TokenCommand) (rows : TokenRows)
    → any (reissues email token_hash) commands ≡ false
    → IsSpent token_hash (get (normalize_email email) rows)
    → IsSpent token_hash (get (normalize_email email) (after_commands commands rows))
unfolding after_commands
commands-IsSpent email token_hash [] rows e h = h
commands-IsSpent email token_hash (command ∷ commands) rows e h =
    let (here, others) =
      neither (reissues email token_hash command) (any (reissues email token_hash) commands) e in
    commands-IsSpent email token_hash commands (after_command command rows) others
      (command-IsSpent email token_hash command rows here h)

success-IsSpent :
    (test : EmailVerificationToken → Bool) (now : ℕ) (key token_hash : Text)
    (found : Option EmailVerificationToken) (rows : TokenRows)
    → (update_where test now key found rows).1 ≡ true
    → IsSpent token_hash (get key (update_where test now key found rows).0)
success-IsSpent test now key token_hash none rows e = absurd (cc e)
success-IsSpent test now key token_hash (some row) rows e = elim (Bool-cases (test row)) [
  | inr missed ↦ absurd (cc (rw (missed) at e))
  | inl hit ↦ rw (hit, get-set_self key (record row { consumed_at = some now }) rows) (ground arith)
]

spent-refused :
    (token_hash : Text) (now : ℕ) (key : Text) (found : Option EmailVerificationToken)
    (rows : TokenRows)
    → IsSpent token_hash found
    → (update_where (is_live token_hash now) now key found rows).1 ≡ false
spent-refused token_hash now key none rows h = refl
spent-refused token_hash now key (some row) rows h =
    let dead : is_live token_hash now row ≡ false = ground arith in
    ap (λ (r : TokenRows × Bool). r.1) (if_false _ (rows, false) dead)

-- A token that was consumed is refused from then on, at any time and whatever is rotated, consumed or
-- invalidated for any address in between, unless a rotation issues the same hash for the address.
pub consume_email_verification_token_once :
    (email token_hash : Text) (now later : ℕ) (commands : List TokenCommand) (rows : TokenRows)
    → (consume_email_verification_token email token_hash now rows).1 ≡ true
    → any (reissues email token_hash) commands ≡ false
    → (consume_email_verification_token email token_hash later
        (after_commands commands (consume_email_verification_token email token_hash now rows).0)).1
      ≡ false
unfolding consume_email_verification_token
consume_email_verification_token_once email token_hash now later commands rows won untouched =
    let key = normalize_email email in
    let after = (consume_email_verification_token email token_hash now rows).0 in
    let last = after_commands commands after in
    spent-refused token_hash later key (get key last) last (
      commands-IsSpent email token_hash commands after untouched
        (success-IsSpent (is_live token_hash now) now key token_hash (get key rows) rows won))
