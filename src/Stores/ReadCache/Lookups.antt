-- ===== src/Stores/ReadCache/Lookups.antt =====
-- What a read finds after a write, a hit or a deletion.
use split_naira.Prelude.{
  ℕ, ◌+◌, ◌≤◌, ◌≡◌, refl, Text, false, ◌&&◌, not, [], ◌∷◌, ◌++◌, Option, none, some, arith, leb,
  Bool-cases, inl, inr, or_else, ltb, if◌then◌else◌, length,
}
use split_naira.Prelude.Dict.{Dict, get, set, delete, has, get-set_self, get-delete_self}
use split_naira.Stores.ReadCache.{
  ReadCache, CacheEntry, get_cached, read_found, touched, evict_lru, set_cached, delete_cached,
  is_current, fetch_resolved, drop_first,
}

module _ {V : Type 0} where
  -- A key that is not there goes to the end.
  set_absent : (k : Text) (v : V) (m : Dict V) → get k m ≡ none → set k v m ≡ m ++ (k, v) ∷ []
  unfolding set get
  set_absent k v [] h = refl
  set_absent k v ((j, w) ∷ m) h = ground (arith, set_absent k v m)

module _ {V : Type 0} where
  abbrev entry : V → ℕ → ℕ → CacheEntry V
  entry value ttl now = record { value = value; expires_at = now + ttl; last_accessed_at = now }

  set_stores :
      (c : ReadCache V) (key : Text) (value : V) (ttl : Option ℕ) (now : ℕ)
      → get key (set_cached c key value ttl now).store
        ≡ some (entry value (or_else ttl c.ttl_ms) now)
  unfolding set_cached evict_lru
  set_stores c key value ttl now =
      elim (Bool-cases (leb c.max_entries (length c.store) && not (has key c.store))) [
        | inl full ↦ rw full (get-set_self key _ (drop_first c.store))
        | inr room ↦ rw room (get-set_self key _ c.store)
      ]

  found_value :
      (c : ReadCache V) (key : Text) (e : CacheEntry V) (now : ℕ)
      → (read_found c key (some e) now).1 ≡ (if leb now e.expires_at then some e.value else none)
  unfolding read_found
  found_value c key e now = ground arith

  -- A read after a write of the same key gives the written value up to the end of its time to live,
  -- that of the call or else the cache's own, and nothing afterwards.
  get_cached-set_cached :
      (c : ReadCache V) (key : Text) (value : V) (ttl : Option ℕ) (now later : ℕ)
      → (get_cached (set_cached c key value ttl now) key later).1
        ≡ (if leb later (now + or_else ttl c.ttl_ms) then some value else none)
  unfolding get_cached
  get_cached-set_cached c key value ttl now later = rw (set_stores c key value ttl now) (
      found_value (set_cached c key value ttl now) key (entry value (or_else ttl c.ttl_ms) now)
        later)

  found_last :
      (c : ReadCache V) (key : Text) (e : CacheEntry V) (now : ℕ)
      → now ≤ e.expires_at
      → (read_found c key (some e) now).0.store ≡ delete key c.store ++ (key, touched e now) ∷ []
  unfolding read_found
  found_last c key e now h =
      let fresh : ltb e.expires_at now ≡ false = ground arith in
      rw fresh (set_absent key (touched e now) (delete key c.store) (get-delete_self key c.store))

  -- A hit moves its entry to the end of the map, the place of the most recently used, and leaves the
  -- order of the other entries.
  get_cached-last :
      (c : ReadCache V) (key : Text) (e : CacheEntry V) (now : ℕ)
      → get key c.store ≡ some e
      → now ≤ e.expires_at
      → (get_cached c key now).0.store ≡ delete key c.store ++ (key, touched e now) ∷ []
  unfolding get_cached
  get_cached-last c key e now h fresh = rw h (found_last c key e now fresh)

  -- Deleting a key while a fetch for it is under way makes the fetch forget its value: the cache is
  -- the same after the promise has resolved.
  fetch_resolved-delete_cached :
      (c : ReadCache V) (key : Text) (promise : ℕ) (value : V) (now : ℕ)
      → fetch_resolved (delete_cached c key).0 key promise value now ≡ (delete_cached c key).0
  unfolding fetch_resolved delete_cached
  fetch_resolved-delete_cached c key promise value now =
      let gone : is_current (delete_cached c key).0 key promise ≡ false =
        rw (get-delete_self key c.inflight) refl in
      rw gone refl
