-- ===== src/Stores/Idempotency.antt =====
-- Idempotency keys (backend/src/services/idempotency.ts, backend/src/middleware/idempotency.ts). The
-- digest of a request is an argument, as it is made by a hash of the platform; response bodies have
-- any type.
pub mod Replays
use split_naira.Prelude.{
  ℕ, ◌+◌, Text, codes, text_eq, trim, is_empty, Bool, true, false, ◌&&◌, ◌||◌, not, List, [], ◌∷◌,
  ◌++◌, Option, none, some, leb, ltb, ◌==◌, if◌then◌else◌, length, or_else,
}
use split_naira.Prelude.Dict.{Dict, get, set, delete}

abbrev pub max_key_length : ℕ
max_key_length = 255

pub data IdempotencyStatus : Type 0 where
  in_progress completed : IdempotencyStatus

pub record StoredEntry (B : Type 0) : Type 0 where
  pub request_hash : Text
  pub status : IdempotencyStatus
  pub status_code : Option ℕ
  pub body : Option B
  pub expires_at : ℕ

pub record IdempotencyStore (B : Type 0) : Type 0 where
  pub ttl_ms : ℕ
  pub entries : Dict (StoredEntry B)

-- `/^[A-Za-z0-9_.:-]+$/`.
abbrev pub is_key_char : ℕ → Bool
is_key_char c =
    (leb b'A' c && leb c b'Z')
    || (leb b'a' c && leb c b'z')
    || (leb b'0' c && leb c b'9')
    || c == b'_'
    || c == b'.'
    || c == b':'
    || c == b'-'

unfoldable pub all_key_chars : Text → Bool
all_key_chars [] = true
all_key_chars (c ∷ s) = is_key_char c && all_key_chars s

unfoldable pub is_valid_key : Text → Bool
unfolding all_key_chars
is_valid_key key =
    not (length key == 0 || ltb max_key_length (length key))
    && not (is_empty key)
    && all_key_chars key

unfoldable pub build_key : Text → Text → Text
build_key scope key = scope ++ codes "::" ++ key

module _ {B : Type 0} where
  pub entry_found :
      IdempotencyStore B
      → Text
      → Option (StoredEntry B)
      → ℕ
      → IdempotencyStore B × Option (StoredEntry B)
  entry_found s store_key none now = (s, none)
  entry_found s store_key (some e) now =
      if leb e.expires_at now
      then (record s { entries = delete store_key s.entries }, none)
      else (s, some e)

  -- `get`.
  unfoldable pub get_entry :
      IdempotencyStore B → Text → Text → ℕ → IdempotencyStore B × Option (StoredEntry B)
  unfolding entry_found
  get_entry s scope key now =
      entry_found s (build_key scope key) (get (build_key scope key) s.entries) now

  unfoldable pub mark_in_progress : IdempotencyStore B → Text → Text → Text → ℕ → IdempotencyStore B
  mark_in_progress s scope key request_hash now = record s {
    entries =
        set (build_key scope key)
          (record {
            request_hash = request_hash;
            status = in_progress;
            status_code = none;
            body = none;
            expires_at = now + s.ttl_ms;
          })
          s.entries;
  }

  unfoldable pub complete : IdempotencyStore B → Text → Text → Text → ℕ → B → ℕ → IdempotencyStore B
  complete s scope key request_hash status_code body now = record s {
    entries =
        set (build_key scope key)
          (record {
            request_hash = request_hash;
            status = completed;
            status_code = some status_code;
            body = some body;
            expires_at = now + s.ttl_ms;
          })
          s.entries;
  }

  unfoldable pub remove : IdempotencyStore B → Text → Text → IdempotencyStore B
  remove s scope key = record s { entries = delete (build_key scope key) s.entries }

  unfoldable pub clear : IdempotencyStore B → IdempotencyStore B
  clear s = record s { entries = [] }

-- What the middleware does with a request: it goes on without a key, rejects a malformed one,
-- answers a conflict or a replay, or lets the handler run with the key reserved.
pub data Handling (B : Type 0) : Type 0 where
  without_key invalid_key payload_mismatch in_flight : Handling B
  replayed : ℕ → Option B → Handling B
  stored : Text → Handling B

pub record KeyedRequest : Type 0 where
  pub header : Option Text
  pub scope : Text
  pub request_hash : Text

abbrev pub is_in_progress : IdempotencyStatus → Bool
is_in_progress in_progress = true
is_in_progress completed = false

module _ {B : Type 0} where
  pub handle_found :
      IdempotencyStore B × Option (StoredEntry B)
      → Text
      → Text
      → Text
      → ℕ
      → IdempotencyStore B × Handling B
  handle_found (s, some e) scope key request_hash now = (
    s,
    if not (text_eq e.request_hash request_hash)
        then payload_mismatch
        else if is_in_progress e.status
        then in_flight
        else replayed (or_else e.status_code 200) e.body,
  )
  handle_found (s, none) scope key request_hash now =
      (mark_in_progress s scope key request_hash now, stored key)

  pub handle_keyed : IdempotencyStore B → Text → KeyedRequest → ℕ → IdempotencyStore B × Handling B
  unfolding handle_found
  handle_keyed s key r now =
      if is_valid_key key
      then handle_found (get_entry s r.scope key now) r.scope key r.request_hash now
      else (s, invalid_key)

  -- `if (!rawKey)` takes an empty header for a missing one.
  unfoldable pub idempotency_middleware :
      IdempotencyStore B → KeyedRequest → ℕ → IdempotencyStore B × Handling B
  unfolding handle_keyed
  idempotency_middleware s r now =
      if is_empty (or_else r.header [])
      then (s, without_key)
      else handle_keyed s (trim (or_else r.header [])) r now

  -- The wrapped `res.json`: a success is kept for replays, anything else gives the key back.
  unfoldable pub finish_response :
      IdempotencyStore B → Text → Text → Text → ℕ → B → ℕ → IdempotencyStore B
  finish_response s scope key request_hash status_code body now =
      if leb 200 status_code && ltb status_code 300
      then complete s scope key request_hash status_code body now
      else remove s scope key

  -- The `close` event.
  unfoldable pub close_response : IdempotencyStore B → Text → Text → Bool → IdempotencyStore B
  close_response s scope key settled = if settled then s else remove s scope key
