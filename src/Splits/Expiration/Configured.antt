-- ===== src/Splits/Expiration/Configured.antt =====
-- What the configuration of a deadline accepts.
use split_naira.Prelude.{
  ℕ, ◌≡◌, ◌<◌, ◌↔◌, ◌⊎◌, refl, Bool, true, false, Option, none, some, arith, ok, err, is_ok, Result,
  leb, sym, ◌∙◌,
}
use split_naira.Prelude.Dict.{get-set_self, has}
use split_naira.Lifecycle.{Deadline, at, not_a_date}
use split_naira.Splits.Expiration.{
  Expirations, ExpirationInput, ExpirationError, configure_expiration, checked_expiry,
  store_checked, store_expiry, is_split_expired, is_due,
}

-- A deadline that is accepted, given the creation time and whether the project has a record.
abbrev pub IsAcceptable : Bool → ℕ → Option Deadline → ℕ → Type 0
IsAcceptable exists created none now = Unit
IsAcceptable exists created (some not_a_date) now = ⊥
IsAcceptable exists created (some (at t)) now = (created < t) × ((exists ≡ true) ⊎ (now < t))

checked_iff :
    (exists : Bool) (created : ℕ) (d : Option Deadline) (now : ℕ)
    → (is_ok (checked_expiry exists (at created) d now) ≡ true) ↔ IsAcceptable exists created d now
unfolding checked_expiry
checked_iff exists created none now = ground arith
checked_iff exists created (some not_a_date) now = ground arith
checked_iff true created (some (at t)) now = ground arith
checked_iff false created (some (at t)) now = ground arith

stored_lem :
    (s : Expirations) (input : ExpirationInput) (created now later : ℕ) (d : Option ℕ)
    → is_split_expired (store_expiry s input (at created) d now).0 input.project_id later
      ≡ is_due d later
unfolding store_expiry is_split_expired
stored_lem s input created now later d = rw (get-set_self input.project_id _ s.records) refl

stored_ok :
    (s : Expirations) (input : ExpirationInput) (created : ℕ)
    (r : Result ExpirationError (Option ℕ)) (now : ℕ)
    → input.created_at ≡ at created
    → is_ok (store_checked s input r now).1 ≡ is_ok r
unfolding store_checked store_expiry
stored_ok s input created (ok d) now h = rw h refl
stored_ok s input created (err e) now h = refl

-- A deadline is accepted exactly when it is a date after the creation and, for a project without a
-- record, after the present; no deadline is always accepted.
configure_expiration_iff :
    (s : Expirations) (input : ExpirationInput) (created now : ℕ)
    → input.created_at ≡ at created
    → (is_ok (configure_expiration s input now).1 ≡ true)
      ↔ IsAcceptable (has input.project_id s.records) created input.expires_at now
unfolding configure_expiration store_checked store_expiry
configure_expiration_iff s input created now h =
    rw
      (
        stored_ok s input created
            (checked_expiry (has input.project_id s.records) input.created_at input.expires_at now)
            now h,
        h,
      )
      (checked_iff (has input.project_id s.records) created input.expires_at now)

checked_value :
    (exists : Bool) (created t now : ℕ)
    → is_ok (checked_expiry exists (at created) (some (at t)) now) ≡ true
    → checked_expiry exists (at created) (some (at t)) now ≡ ok (some t)
unfolding checked_expiry
checked_value true created t now h = ground arith
checked_value false created t now h = ground arith

kept_lem :
    (s : Expirations) (input : ExpirationInput) (created t now later : ℕ)
    (r : Result ExpirationError (Option ℕ))
    → input.created_at ≡ at created
    → r ≡ ok (some t)
    → is_split_expired (store_checked s input r now).0 input.project_id later ≡ leb t later
unfolding store_checked
kept_lem s input created t now later r h e =
    rw (e, h) (stored_lem s input created now later (some t))

-- An accepted deadline is the one that the later checks go by: from then on the project is expired
-- exactly when the deadline has come.
is_split_expired-configure_expiration :
    (s : Expirations) (input : ExpirationInput) (created t now later : ℕ)
    → input.created_at ≡ at created
    → input.expires_at ≡ some (at t)
    → is_ok (configure_expiration s input now).1 ≡ true
    → is_split_expired (configure_expiration s input now).0 input.project_id later ≡ leb t later
unfolding configure_expiration
is_split_expired-configure_expiration s input created t now later h d accepted =
    let known = has input.project_id s.records in
    let checked = checked_expiry known input.created_at input.expires_at now in
    kept_lem s input created t now later checked h (
      rw (h, d)
        (checked_value known created t now
          (rw (h, d) at (sym (stored_ok s input created checked now h) ∙ accepted))))
