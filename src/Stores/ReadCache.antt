-- ===== src/Stores/ReadCache.antt =====
-- The read cache (backend/src/services/read-cache.ts): a map in insertion order, whose first key is
-- the least recently used. Times are milliseconds.
pub mod Capacity
pub mod Lookups
use split_naira.Prelude.{
  ℕ, suc, ◌+◌, Text, text_eq, Bool, true, false, ◌&&◌, not, List, [], ◌∷◌, ◌++◌, Option, none, some,
  ltb, leb, if◌then◌else◌, filter, length, map, or_else, ◌==◌, is_some,
}
use split_naira.Prelude.Dict.{Dict, get, set, delete, has}

abbrev pub default_read_ttl_ms : ℕ
default_read_ttl_ms = 30000

abbrev pub default_max_entries : ℕ
default_max_entries = 500

pub record ReadCacheOptions : Type 0 where
  pub default_ttl_ms : Option ℕ
  pub max_entries : Option ℕ

pub record CacheEntry (V : Type 0) : Type 0 where
  pub value : V
  pub expires_at : ℕ
  pub last_accessed_at : ℕ

-- `inflight` holds the promises by their identity.
pub record ReadCache (V : Type 0) : Type 0 where
  pub ttl_ms : ℕ
  pub max_entries : ℕ
  pub store : Dict (CacheEntry V)
  pub inflight : Dict ℕ
  pub hits : ℕ
  pub misses : ℕ

pub record ReadCacheStats : Type 0 where
  pub size : ℕ
  pub keys : List Text
  pub hits : ℕ
  pub misses : ℕ

-- `key.startsWith(prefix)`.
unfoldable pub starts_with : Text → Text → Bool
starts_with s [] = true
starts_with [] (p ∷ ps) = false
starts_with (c ∷ s) (p ∷ ps) = c == p && starts_with s ps

unfoldable pub without_prefix {ℓ} : {W : Type ℓ} → Text → Dict W → Dict W
unfolding starts_with
without_prefix prefix m = filter (λ e. not (starts_with e.0 prefix)) m

abbrev pub is_promise : Option ℕ → ℕ → Bool
is_promise none promise = false
is_promise (some p) promise = p == promise

-- What `getOrFetch` does at once: a hit, a promise that is under way, or a new one.
pub data Fetch (V : Type 0) : Type 0 where
  cached : V → Fetch V
  joined : ℕ → Fetch V
  started : Fetch V

module _ {V : Type 0} where
  unfoldable pub new_read_cache : ReadCacheOptions → ReadCache V
  new_read_cache options = record {
    ttl_ms = or_else options.default_ttl_ms default_read_ttl_ms;
    max_entries = or_else options.max_entries default_max_entries;
    store = [];
    inflight = [];
    hits = 0;
    misses = 0;
  }

  abbrev pub touched : CacheEntry V → ℕ → CacheEntry V
  touched e now = record e { last_accessed_at = now }

  pub read_found : ReadCache V → Text → Option (CacheEntry V) → ℕ → ReadCache V × Option V
  read_found c key none now = (record c { misses = suc c.misses }, none)
  read_found c key (some e) now =
      if ltb e.expires_at now
      then (record c { store = delete key c.store; misses = suc c.misses }, none)
      else (
        record c { store = set key (touched e now) (delete key c.store); hits = suc c.hits },
        some e.value,
      )

  -- `get`.
  unfoldable pub get_cached : ReadCache V → Text → ℕ → ReadCache V × Option V
  unfolding read_found
  get_cached c key now = read_found c key (get key c.store) now

  abbrev pub drop_first : Dict (CacheEntry V) → Dict (CacheEntry V)
  drop_first [] = []
  drop_first ((key, e) ∷ m) = delete key ((key, e) ∷ m)

  unfoldable pub evict_lru : ReadCache V → ReadCache V
  evict_lru c = record c { store = drop_first c.store }

  abbrev pub put : ReadCache V → Text → V → ℕ → ℕ → ReadCache V
  put c key value ttl now = record c {
    store =
        set key (record { value = value; expires_at = now + ttl; last_accessed_at = now }) c.store;
  }

  -- `set`, with the default for a missing time to live.
  unfoldable pub set_cached : ReadCache V → Text → V → Option ℕ → ℕ → ReadCache V
  unfolding evict_lru
  set_cached c key value ttl now =
      if leb c.max_entries (length c.store) && not (has key c.store)
      then put (evict_lru c) key value (or_else ttl c.ttl_ms) now
      else put c key value (or_else ttl c.ttl_ms) now

  unfoldable pub delete_cached : ReadCache V → Text → ReadCache V × Bool
  delete_cached c key =
      (record c { store = delete key c.store; inflight = delete key c.inflight }, has key c.store)

  unfoldable pub delete_by_prefix : ReadCache V → Text → ReadCache V × ℕ
  unfolding starts_with without_prefix
  delete_by_prefix c prefix = (
    record c { store = without_prefix prefix c.store; inflight = without_prefix prefix c.inflight },
    length (filter (λ e. starts_with e.0 prefix) c.store),
  )

  unfoldable pub clear : ReadCache V → ReadCache V
  clear c = record c { store = []; inflight = [] }

  unfoldable pub purge_expired : ReadCache V → ℕ → ReadCache V
  purge_expired c now = record c { store = filter (λ e. not (ltb e.1.expires_at now)) c.store }

  unfoldable pub stats : ReadCache V → ℕ → ReadCache V × ReadCacheStats
  unfolding purge_expired
  stats c now =
      let c' = purge_expired c now in
      (
        c',
        record {
          size = length c'.store;
          keys = map (λ e. e.0) c'.store;
          hits = c'.hits;
          misses = c'.misses;
        },
      )

  pub join_or_start : ReadCache V → Text → ℕ → Option ℕ → ReadCache V × Fetch V
  join_or_start c key promise (some other) = (c, joined other)
  join_or_start c key promise none = (record c { inflight = set key promise c.inflight }, started)

  pub fetch_after : ReadCache V × Option V → Text → ℕ → ReadCache V × Fetch V
  unfolding join_or_start
  fetch_after (c, some value) key promise = (c, cached value)
  fetch_after (c, none) key promise = join_or_start c key promise (get key c.inflight)

  unfoldable pub get_or_fetch : ReadCache V → Text → ℕ → ℕ → ReadCache V × Fetch V
  unfolding fetch_after get_cached
  get_or_fetch c key promise now = fetch_after (get_cached c key now) key promise

  abbrev pub is_current : ReadCache V → Text → ℕ → Bool
  is_current c key promise = is_promise (get key c.inflight) promise

  -- The `then` of the promise, which stores the value while the promise is the current one.
  unfoldable pub fetch_resolved : ReadCache V → Text → ℕ → V → ℕ → ReadCache V
  unfolding set_cached
  fetch_resolved c key promise value now =
      if is_current c key promise then set_cached c key value none now else c

  -- Its `finally`.
  unfoldable pub fetch_settled : ReadCache V → Text → ℕ → ReadCache V
  fetch_settled c key promise =
      if is_current c key promise then record c { inflight = delete key c.inflight } else c

  -- The process-wide cache, which the first use makes.
  unfoldable pub configure_read_cache :
      Option (ReadCache V) → ReadCacheOptions → Option (ReadCache V) × ReadCache V
  unfolding new_read_cache
  configure_read_cache shared options = (some (new_read_cache options), new_read_cache options)

  unfoldable pub get_read_cache : Option (ReadCache V) → Option (ReadCache V) × ReadCache V
  unfolding new_read_cache
  get_read_cache none =
      let c = new_read_cache (record { default_ttl_ms = none; max_entries = none }) in (some c, c)
  get_read_cache (some c) = (some c, c)

  unfoldable pub reset_read_cache_for_tests : Option (ReadCache V)
  reset_read_cache_for_tests = none
