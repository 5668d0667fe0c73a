-- ===== src/Accounts/LoginAttempts/Limits.antt =====
-- The counts of failed and running attempts (backend/src/services/login-attempts.ts) over
-- sequences of sign-ins.
use split_naira.Prelude.{
  ℕ, ◌+◌, ◌≤◌, ◌≡◌, refl, Text, text_eq, ◌&&◌, List, [], ◌∷◌, Option, none, some, arith, leb,
  Bool-cases, inl, inr, length, map, ◌==◌,
}
use split_naira.Prelude.Dict.{get, set, delete, get-set, get-delete}
use split_naira.Accounts.LoginAttempts.{
  AttemptState, Entries, is_expired_entry, new_state, make_room, drop_all_expired, is_refused,
  reserved, reserve, begin_with, drop_expired, begin_attempt, AuthenticationResult, accepted,
  rejected, crashed, after_result, released, end_found, end_attempt,
}

-- The failures of a wallet and its running attempts are at most five together.
abbrev pub IsBounded : Entries → Type 0
IsBounded entries =
    (key : Text) (e : AttemptState) → get key entries ≡ some e → e.failures + e.pending ≤ 5

set-IsBounded :
    (entries : Entries) (key : Text) (new : AttemptState)
    → IsBounded entries
    → new.failures + new.pending ≤ 5
    → IsBounded (set key new entries)
set-IsBounded entries key new b h j e k = elim (Bool-cases (text_eq key j)) [
  | inl same ↦ let found : some new ≡ some e = rw (get-set, same) at k in ground arith
  | inr other ↦ b j e (rw (get-set, other) at k)
]

delete-IsBounded :
    (entries : Entries) (key : Text) → IsBounded entries → IsBounded (delete key entries)
delete-IsBounded entries key b j e k = elim (Bool-cases (text_eq key j)) [
  | inl same ↦ absurd (cc (rw (get-delete, same) at k))
  | inr other ↦ b j e (rw (get-delete, other) at k)
]

drop-IsBounded :
    (entries : Entries) (key : Text) (found : Option AttemptState) (now : ℕ)
    → IsBounded entries
    → IsBounded (drop_expired entries key found now)
unfolding drop_expired
drop-IsBounded entries key none now b = b
drop-IsBounded entries key (some e) now b = elim (Bool-cases (is_expired_entry e now)) [
  | inl gone ↦ rw gone (delete-IsBounded entries key b)
  | inr stays ↦ rw stays b
]

drop_all-IsBounded :
    (keys : List Text) (entries : Entries) (now : ℕ)
    → IsBounded entries
    → IsBounded (drop_all_expired keys entries now)
unfolding drop_all_expired
drop_all-IsBounded [] entries now b = b
drop_all-IsBounded (key ∷ keys) entries now b =
    drop_all-IsBounded keys _ now (drop-IsBounded entries key (get key entries) now b)

room-IsBounded :
    (entries : Entries) (capacity now : ℕ)
    → IsBounded entries
    → IsBounded (make_room entries capacity now)
unfolding make_room
room-IsBounded entries capacity now b = elim (Bool-cases (leb capacity (length entries))) [
  | inl full ↦ rw full (drop_all-IsBounded (map (λ p. p.0) entries) entries now b)
  | inr room ↦ rw room b
]

reserve-IsBounded :
    (entries : Entries) (key : Text) (e : AttemptState) (now : ℕ)
    → IsBounded entries
    → IsBounded (reserve entries key e now).0
unfolding reserve
reserve-IsBounded entries key e now b = elim (Bool-cases (is_refused e now)) [
  | inl refused ↦ rw refused b
  | inr free ↦ rw free (set-IsBounded entries key (reserved e) b (ground arith))
]

begin-IsBounded :
    (entries : Entries) (capacity : ℕ) (key : Text) (found : Option AttemptState) (now : ℕ)
    → IsBounded entries
    → IsBounded (begin_with entries capacity key found now).0
unfolding begin_with
begin-IsBounded entries capacity key (some e) now b = reserve-IsBounded entries key e now b
begin-IsBounded entries capacity key none now b =
    let b' = room-IsBounded entries capacity now b in
    elim (Bool-cases (leb capacity (length (make_room entries capacity now)))) [
      | inl full ↦ rw full b'
      | inr room ↦ rw room (
          reserve-IsBounded _ key (new_state now) now
            (set-IsBounded (make_room entries capacity now) key (new_state now) b' (omega arith)))
    ]

result_bounded :
    (e : AttemptState) (result : AuthenticationResult) (now : ℕ)
    → 1 ≤ e.pending
    → e.failures + e.pending ≤ 5
    → (released (after_result e result now)).failures
        + (released (after_result e result now)).pending
      ≤ 5
unfolding released after_result
result_bounded e accepted now p h = omega arith
result_bounded e rejected now p h = ground arith
result_bounded e crashed now p h = omega arith

end-IsBounded :
    (entries : Entries) (key : Text) (found : Option AttemptState) (result : AuthenticationResult)
    (now : ℕ)
    → get key entries ≡ found
    → ((e : AttemptState) → get key entries ≡ some e → 1 ≤ e.pending)
    → IsBounded entries
    → IsBounded (end_found entries key found result now)
unfolding end_found
end-IsBounded entries key none result now h p b = b
end-IsBounded entries key (some e) result now h p b =
    let e' = released (after_result e result now) in
    elim (Bool-cases (e'.pending == 0 && e'.failures == 0)) [
      | inl idle ↦ rw idle (delete-IsBounded entries key b)
      | inr busy ↦
          rw busy (set-IsBounded entries key e' b (result_bounded e result now (p e h) (b key e h)))
    ]

-- Sign-ins and their ends, in any order.
pub data LoginEvent : Type 0 where
  begin : Text → ℕ → LoginEvent
  finish : Text → AuthenticationResult → ℕ → LoginEvent

unfoldable pub login_step : ℕ → Entries → LoginEvent → Entries
login_step capacity entries (begin key now) = (begin_attempt entries capacity key now).0
login_step capacity entries (finish key result now) = end_attempt entries key result now

unfoldable pub login_steps : ℕ → Entries → List LoginEvent → Entries
login_steps capacity entries [] = entries
login_steps capacity entries (x ∷ xs) = login_steps capacity (login_step capacity entries x) xs

-- An end belongs to an attempt that is running.
unfoldable pub IsPossible : Entries → LoginEvent → Type 0
IsPossible entries (begin key now) = Unit
IsPossible entries (finish key result now) =
    (e : AttemptState) → get key entries ≡ some e → 1 ≤ e.pending

unfoldable pub ArePossible : ℕ → Entries → List LoginEvent → Type 0
unfolding login_step IsPossible
ArePossible capacity entries [] = Unit
ArePossible capacity entries (x ∷ xs) =
    IsPossible entries x × ArePossible capacity (login_step capacity entries x) xs

step-IsBounded :
    (capacity : ℕ) (entries : Entries) (x : LoginEvent)
    → IsPossible entries x
    → IsBounded entries
    → IsBounded (login_step capacity entries x)
unfolding login_step begin_attempt end_attempt IsPossible
step-IsBounded capacity entries (begin key now) p b =
    begin-IsBounded _ capacity key _ now (drop-IsBounded entries key (get key entries) now b)
step-IsBounded capacity entries (finish key result now) p b =
    end-IsBounded entries key (get key entries) result now refl p b

-- Whatever sign-ins begin and end, in parallel and in any order, where each end belongs to a
-- running attempt: if the failures counted for a wallet and its running attempts are at most five
-- together at first, for each wallet, they are so afterwards.
pub login_steps-IsBounded :
    (capacity : ℕ) (entries : Entries) (xs : List LoginEvent)
    → ArePossible capacity entries xs
    → IsBounded entries
    → IsBounded (login_steps capacity entries xs)
unfolding login_steps ArePossible
login_steps-IsBounded capacity entries [] p b = b
login_steps-IsBounded capacity entries (x ∷ xs) (p, ps) b =
    login_steps-IsBounded capacity (login_step capacity entries x) xs ps
      (step-IsBounded capacity entries x p b)
