-- ===== src/Witnesses/StoreTests.antt =====
-- The stores at concrete inputs.
use split_naira.Prelude.{
  ℕ, ◌≤◌, ◌≡◌, refl, arith, codes, text_eq, List, [], ◌∷◌, none, some, length,
}
use split_naira.Prelude.Dict.{get}
use split_naira.Stores.ReadCache.{ReadCache, CacheEntry, ReadCacheOptions, new_read_cache}
use split_naira.Stores.ReadCache.Capacity.{CacheCommand, read, write, commands_run, commands_run-le}
use split_naira.Stores.Idempotency.{IdempotencyStore, KeyedRequest}

abbrev small : ReadCacheOptions
small = record { default_ttl_ms = some 100; max_entries = some 2 }

abbrev writes : List (CacheCommand ℕ)
writes =
    write (codes "a") 1 none 0
    ∷ write (codes "b") 2 none 1
    ∷ read (codes "a") 2
    ∷ write (codes "c") 3 none 3
    ∷ []

two : 1 ≤ (new_read_cache {V = ℕ} small).max_entries
unfolding new_read_cache
two = omega arith

commands_run-le_example :
    length (commands_run (new_read_cache small) writes).store
    ≤ (new_read_cache {V = ℕ} small).max_entries
commands_run-le_example = commands_run-le small writes two

abbrev filled : ReadCache ℕ
filled = record {
  ttl_ms = 100;
  max_entries = 2;
  store =
      (codes "a", record { value = 1; expires_at = 100; last_accessed_at = 0 })
      ∷ (codes "b", record { value = 2; expires_at = 101; last_accessed_at = 1 })
      ∷ [];
  inflight = (codes "a", 7) ∷ [];
  hits = 0;
  misses = 0;
}

abbrev first_entry : CacheEntry ℕ
first_entry = record { value = 1; expires_at = 100; last_accessed_at = 0 }

first_found : get (codes "a") filled.store ≡ some first_entry
unfolding get text_eq
first_found = refl

abbrev keys_store : IdempotencyStore ℕ
keys_store = record { ttl_ms = 1000; entries = [] }

abbrev keyed : KeyedRequest
keyed = record {
  header = some (codes " k-1 ");
  scope = codes "POST:/splits";
  request_hash = codes "h";
}

abbrev other_key : KeyedRequest
other_key = record {
  header = some (codes "k-2");
  scope = codes "POST:/splits";
  request_hash = codes "g";
}
