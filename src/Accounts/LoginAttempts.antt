-- ===== src/Accounts/LoginAttempts.antt =====
-- The guard against failed sign-ins (backend/src/services/login-attempts.ts). The digest of a wallet
-- address is a parameter, the clock an argument; an attempt is two steps, since the store changes
-- before the authentication is awaited and again when it ends.
pub mod Limits
use split_naira.Prelude.{
  ℕ, suc, ◌+◌, ◌-◌, Text, Bool, true, false, ◌&&◌, ◌||◌, not, List, [], ◌∷◌, Option, none, some,
  ltb, leb, ◌==◌, if◌then◌else◌, length, map,
}
use split_naira.Prelude.Dict.{Dict, get, set, delete}

abbrev pub login_failure_limit : ℕ
login_failure_limit = 5

abbrev pub login_failure_window_ms : ℕ
login_failure_window_ms = 900000

abbrev pub login_lockout_ms : ℕ
login_lockout_ms = 900000

pub record AttemptState : Type 0 where
  pub failures : ℕ
  pub window_started_at : ℕ
  pub locked_until : ℕ
  pub pending : ℕ

unfoldable pub is_expired_entry : AttemptState → ℕ → Bool
is_expired_entry e now =
    e.pending == 0
    && (if ltb 0 e.locked_until
        then leb e.locked_until now
        else leb (e.window_started_at + login_failure_window_ms) now)

abbrev pub Entries : Type 0
Entries = Dict AttemptState

abbrev pub new_state : ℕ → AttemptState
new_state now = record { failures = 0; window_started_at = now; locked_until = 0; pending = 0 }

-- An entry that has expired is deleted.
pub drop_expired : Entries → Text → Option AttemptState → ℕ → Entries
unfolding is_expired_entry
drop_expired entries key none now = entries
drop_expired entries key (some e) now =
    if is_expired_entry e now then delete key entries else entries

-- The loop over the map, by its keys.
pub drop_all_expired : List Text → Entries → ℕ → Entries
unfolding drop_expired
drop_all_expired [] entries now = entries
drop_all_expired (key ∷ keys) entries now =
    drop_all_expired keys (drop_expired entries key (get key entries) now) now

-- The room for a new entry: a full store drops its expired entries, and may still be full.
unfoldable pub make_room : Entries → ℕ → ℕ → Entries
unfolding drop_all_expired
make_room entries capacity now =
    if leb capacity (length entries)
    then drop_all_expired (map (λ p. p.0) entries) entries now
    else entries

abbrev pub is_refused : AttemptState → ℕ → Bool
is_refused e now = ltb now e.locked_until || leb login_failure_limit (e.failures + e.pending)

abbrev pub reserved : AttemptState → AttemptState
reserved e = record e { pending = e.pending + 1 }

-- The entries afterwards, and whether the authentication starts; a refusal is the `null` result.
pub reserve : Entries → Text → AttemptState → ℕ → Entries × Bool
reserve entries key e now =
    if is_refused e now then (entries, false) else (set key (reserved e) entries, true)

pub begin_with : Entries → ℕ → Text → Option AttemptState → ℕ → Entries × Bool
unfolding make_room reserve
begin_with entries capacity key (some e) now = reserve entries key e now
begin_with entries capacity key none now =
    if leb capacity (length (make_room entries capacity now))
    then (make_room entries capacity now, false)
    else reserve (set key (new_state now) (make_room entries capacity now)) key (new_state now) now

pub live_of : Option AttemptState → ℕ → Option AttemptState
unfolding is_expired_entry
live_of none now = none
live_of (some e) now = if is_expired_entry e now then none else some e

-- The part of `attempt` up to the call of `authenticate`.
unfoldable pub begin_attempt : Entries → ℕ → Text → ℕ → Entries × Bool
unfolding begin_with drop_expired live_of
begin_attempt entries capacity key now =
    begin_with (drop_expired entries key (get key entries) now) capacity key
      (live_of (get key entries) now) now

-- How the authentication ends; an operational failure is an exception of `authenticate`.
pub data AuthenticationResult : Type 0 where
  accepted rejected crashed : AuthenticationResult

abbrev pub with_window : AttemptState → ℕ → AttemptState
with_window e now =
    if leb (e.window_started_at + login_failure_window_ms) now
    then record e { failures = 0; window_started_at = now }
    else e

abbrev pub with_failure : AttemptState → ℕ → AttemptState
with_failure e now =
    if leb login_failure_limit (e.failures + 1)
    then record e { failures = e.failures + 1; locked_until = now + login_lockout_ms }
    else record e { failures = e.failures + 1 }

unfoldable pub after_result : AttemptState → AuthenticationResult → ℕ → AttemptState
after_result e accepted now = record e { failures = 0; window_started_at = now }
after_result e rejected now = with_failure (with_window e now) now
after_result e crashed now = e

-- The `finally`, on the entry object of this attempt.
unfoldable pub released : AttemptState → AttemptState
released e = record e { pending = e.pending - 1 }

-- The part after the call: the entry stands in the map while an attempt is pending on it.
pub end_found : Entries → Text → Option AttemptState → AuthenticationResult → ℕ → Entries
unfolding after_result released
end_found entries key none result now = entries
end_found entries key (some e) result now =
    let e' = released (after_result e result now) in
    if e'.pending == 0 && e'.failures == 0 then delete key entries else set key e' entries

unfoldable pub end_attempt : Entries → Text → AuthenticationResult → ℕ → Entries
unfolding end_found
end_attempt entries key result now = end_found entries key (get key entries) result now
