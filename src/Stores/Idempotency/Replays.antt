-- ===== src/Stores/Idempotency/Replays.antt =====
-- What a repeated request gets.
use split_naira.Prelude.{
  ℕ, ◌≤◌, ◌≡◌, refl, List, [], ◌∷◌, Text, text_eq, trim, is_empty, true, false, Option, none, some,
  arith, leb, ltb, ◌&&◌, not, Bool-cases, inl, inr, if◌then◌else◌, or_else,
}
use split_naira.Prelude.Dict.{get, get-delete_self}
use split_naira.Stores.Idempotency.{
  IdempotencyStore, StoredEntry, get_entry, entry_found, remove, build_key, is_valid_key, Handling,
  payload_mismatch, in_flight, replayed, stored, KeyedRequest, handle_found, handle_keyed,
  idempotency_middleware, finish_response, is_in_progress,
}

module _ {B : Type 0} where
  expiry : ℕ → Option (StoredEntry B) → ℕ
  expiry other none = other
  expiry other (some e) = e.expires_at

  -- What a request finds under its key.
  abbrev answer : Option (StoredEntry B) → Text → Text → ℕ → Handling B
  answer none key h now = stored key
  answer (some e) key h now =
      if leb e.expires_at now
      then stored key
      else if not (text_eq e.request_hash h)
      then payload_mismatch
      else if is_in_progress e.status
      then in_flight
      else replayed (or_else e.status_code 200) e.body

  found_answer :
      (s : IdempotencyStore B) (scope key h : Text) (found : Option (StoredEntry B)) (now : ℕ)
      → (handle_found (entry_found s (build_key scope key) found now) scope key h now).1
        ≡ answer found key h now
  unfolding handle_found entry_found
  found_answer s scope key h none now = refl
  found_answer s scope key h (some e) now = elim (Bool-cases (leb e.expires_at now)) [
    | inl over ↦ rw over refl
    | inr live ↦ rw live refl
  ]

  middleware_answer :
      (s : IdempotencyStore B) (r : KeyedRequest) (raw : Text) (found : Option (StoredEntry B))
      (now : ℕ)
      → r.header ≡ some raw
      → is_empty raw ≡ false
      → is_valid_key (trim raw) ≡ true
      → get (build_key r.scope (trim raw)) s.entries ≡ found
      → (idempotency_middleware s r now).1 ≡ answer found (trim raw) r.request_hash now
  unfolding idempotency_middleware handle_keyed get_entry
  middleware_answer s r raw found now h n v e =
      rw (h, n, v, e) (found_answer s r.scope (trim raw) r.request_hash found now)

  -- The store after requests, each with its time.
  abbrev pub after_requests : IdempotencyStore B → List (KeyedRequest × ℕ) → IdempotencyStore B
  after_requests s [] = s
  after_requests s ((r, now) ∷ others) = after_requests (idempotency_middleware s r now).0 others

  -- After a handler has answered a request under a valid key with a status of 300 or more, the key
  -- is free: the next request with it runs the handler.
  idempotency_middleware-failure :
      (s : IdempotencyStore B) (r : KeyedRequest) (raw hash : Text) (code : ℕ) (body : B)
      (now later : ℕ)
      → r.header ≡ some raw
      → is_empty raw ≡ false
      → is_valid_key (trim raw) ≡ true
      → 300 ≤ code
      → (idempotency_middleware (finish_response s r.scope (trim raw) hash code body now) r later).1
        ≡ stored (trim raw)
  unfolding finish_response remove
  idempotency_middleware-failure s r raw hash code body now later h n v high =
      let failure : (leb 200 code && ltb code 300) ≡ false = ground arith in
      rw failure (
        middleware_answer (remove s r.scope (trim raw)) r raw none later h n v
          (get-delete_self (build_key r.scope (trim raw)) s.entries))
