-- ===== src/Stores/ReadCache/Capacity.antt =====
-- The bound on the number of entries.
use split_naira.Prelude.{
  ℕ, suc, ◌+◌, ◌≤◌, ◌≡◌, refl, ◌∙◌, Text, Bool, true, ◌&&◌, not, List, [], ◌∷◌, Option, none, some,
  arith, leb, length, Bool-cases, Option-cases, inl, inr, or_else, text_eq_refl, filter, ltb,
}
use split_naira.Prelude.Dict.{
  Dict, get, set, delete, has, length-set-le, length-set_present, length-set_absent,
  length-delete-le, length-delete-lt,
}
use split_naira.Stores.ReadCache.{
  ReadCache, CacheEntry, get_cached, read_found, touched, drop_first, evict_lru, set_cached,
  delete_cached, without_prefix, starts_with, delete_by_prefix, clear, purge_expired, stats,
  join_or_start, fetch_after, get_or_fetch, is_current, fetch_resolved, fetch_settled,
  new_read_cache, ReadCacheOptions,
}

-- What a cache is asked to do.
pub data CacheCommand (V : Type 0) : Type 0 where
  read : Text → ℕ → CacheCommand V
  write : Text → V → Option ℕ → ℕ → CacheCommand V
  drop : Text → CacheCommand V
  drop_prefix : Text → CacheCommand V
  drop_all : CacheCommand V
  report : ℕ → CacheCommand V
  fetch : Text → ℕ → ℕ → CacheCommand V
  resolve : Text → ℕ → V → ℕ → CacheCommand V
  settle : Text → ℕ → CacheCommand V

unfoldable pub command_run : {V : Type 0} → ReadCache V → CacheCommand V → ReadCache V
command_run c (read key now) = (get_cached c key now).0
command_run c (write key value ttl now) = set_cached c key value ttl now
command_run c (drop key) = (delete_cached c key).0
command_run c (drop_prefix prefix) = (delete_by_prefix c prefix).0
command_run c drop_all = clear c
command_run c (report now) = (stats c now).0
command_run c (fetch key promise now) = (get_or_fetch c key promise now).0
command_run c (resolve key promise value now) = fetch_resolved c key promise value now
command_run c (settle key promise) = fetch_settled c key promise

unfoldable pub commands_run : {V : Type 0} → ReadCache V → List (CacheCommand V) → ReadCache V
commands_run c [] = c
commands_run c (x ∷ xs) = commands_run (command_run c x) xs

length-filter-le : {A : Type 0} (p : A → Bool) (xs : List A) → length (filter p xs) ≤ length xs
length-filter-le p [] = omega arith
length-filter-le p (x ∷ xs) = ground (arith, length-filter-le p xs)

module _ {V : Type 0} where
  -- The bound, and that the bound itself stays.
  abbrev IsWithin : ReadCache V → ReadCache V → Type 0
  IsWithin c c' =
      (c'.max_entries ≡ c.max_entries)
      × (length c.store ≤ c.max_entries → length c'.store ≤ c'.max_entries)

  dropped : (m : Dict (CacheEntry V)) → 1 ≤ length m → suc (length (drop_first m)) ≤ length m
  unfolding get
  dropped [] h = omega arith
  dropped ((key, e) ∷ m) h = length-delete-lt key ((key, e) ∷ m) (ground (arith, text_eq_refl key))

  abbrev entry : V → Option ℕ → ReadCache V → ℕ → CacheEntry V
  entry value ttl c now = record {
    value = value;
    expires_at = now + or_else ttl c.ttl_ms;
    last_accessed_at = now;
  }

  set-IsWithin :
      (c : ReadCache V) (key : Text) (value : V) (ttl : Option ℕ) (now : ℕ)
      → 1 ≤ c.max_entries
      → IsWithin c (set_cached c key value ttl now)
  unfolding set_cached evict_lru
  set-IsWithin c key value ttl now h =
      elim (Bool-cases (leb c.max_entries (length c.store) && not (has key c.store))) [
        | inl full ↦ rw full (
          refl,
          λ b. omega (
            arith,
            length-set-le key (entry value ttl c now) (drop_first c.store),
            dropped c.store (ground arith),
          ),
        )
        | inr room ↦ rw room (
          refl,
          λ b. elim (Option-cases (get key c.store)) [
            | inl absent ↦
                ground (arith, length-set_absent key (entry value ttl c now) c.store absent)
            | inr (e, present) ↦
                omega
                  (arith, length-set_present key (entry value ttl c now) c.store (rw present refl))
          ],
        )
      ]

  delete_absent :
      (key : Text) (m : Dict (CacheEntry V)) (e : CacheEntry V)
      → has key m ≡ true
      → length (set key e (delete key m)) ≤ length m
  delete_absent key m e h =
      omega (arith, length-set-le key e (delete key m), length-delete-lt key m h)

  found-IsWithin :
      (c : ReadCache V) (key : Text) (found : Option (CacheEntry V)) (now : ℕ)
      → get key c.store ≡ found
      → IsWithin c (read_found c key found now).0
  unfolding read_found
  found-IsWithin c key none now h = (refl, λ b. b)
  found-IsWithin c key (some e) now h = elim (Bool-cases (ltb e.expires_at now)) [
    | inl stale ↦ rw stale (refl, λ b. omega (arith, length-delete-le key c.store))
    | inr fresh ↦
        rw fresh (refl, λ b. omega (arith, delete_absent key c.store (touched e now) (rw h refl)))
  ]

  get-IsWithin : (c : ReadCache V) (key : Text) (now : ℕ) → IsWithin c (get_cached c key now).0
  unfolding get_cached
  get-IsWithin c key now = found-IsWithin c key _ now refl

  join-IsWithin :
      (c : ReadCache V) (key : Text) (promise : ℕ) (o : Option ℕ)
      → IsWithin c (join_or_start c key promise o).0
  unfolding join_or_start
  join-IsWithin c key promise none = (refl, λ b. b)
  join-IsWithin c key promise (some p) = (refl, λ b. b)

  after-IsWithin :
      (c c' : ReadCache V) (o : Option V) (key : Text) (promise : ℕ)
      → IsWithin c c'
      → IsWithin c (fetch_after (c', o) key promise).0
  unfolding fetch_after
  after-IsWithin c c' (some v) key promise w = w
  after-IsWithin c c' none key promise (e, w) =
      let (e', w') = join-IsWithin c' key promise (get key c'.inflight) in (e' ∙ e, λ b. w' (w b))

  fetch-IsWithin :
      (c : ReadCache V) (key : Text) (promise now : ℕ)
      → IsWithin c (get_or_fetch c key promise now).0
  unfolding get_or_fetch
  fetch-IsWithin c key promise now =
      after-IsWithin c (get_cached c key now).0 (get_cached c key now).1 key promise
        (get-IsWithin c key now)

  command-IsWithin :
      (c : ReadCache V) (x : CacheCommand V) → 1 ≤ c.max_entries → IsWithin c (command_run c x)
  unfolding command_run delete_cached delete_by_prefix without_prefix clear stats purge_expired
      fetch_resolved fetch_settled
  command-IsWithin c (read key now) h = get-IsWithin c key now
  command-IsWithin c (write key value ttl now) h = set-IsWithin c key value ttl now h
  command-IsWithin c (drop key) h = (refl, λ b. omega (arith, length-delete-le key c.store))
  command-IsWithin c (drop_prefix prefix) h =
      (refl, λ b. omega (arith, length-filter-le (λ e. not (starts_with e.0 prefix)) c.store))
  command-IsWithin c drop_all h = (refl, λ b. omega arith)
  command-IsWithin c (report now) h =
      (refl, λ b. omega (arith, length-filter-le (λ e. not (ltb e.1.expires_at now)) c.store))
  command-IsWithin c (fetch key promise now) h = fetch-IsWithin c key promise now
  command-IsWithin c (resolve key promise value now) h =
      elim (Bool-cases (is_current c key promise)) [
        | inl current ↦ rw current (set-IsWithin c key value none now h)
        | inr old ↦ rw old (refl, λ b. b)
      ]
  command-IsWithin c (settle key promise) h = elim (Bool-cases (is_current c key promise)) [
    | inl current ↦ rw current (refl, λ b. b)
    | inr old ↦ rw old (refl, λ b. b)
  ]

  all_within :
      (c : ReadCache V) (xs : List (CacheCommand V))
      → 1 ≤ c.max_entries
      → length c.store ≤ c.max_entries
      → length (commands_run c xs).store ≤ c.max_entries
  unfolding commands_run
  all_within c [] h b = b
  all_within c (x ∷ xs) h b =
      let (e, w) = command-IsWithin c x h in
      omega (arith, e, all_within (command_run c x) xs (omega (arith, e)) (w b))

  -- However a new cache is used, it never holds more entries than its configured maximum, if that
  -- is at least one.
  pub commands_run-le :
      (options : ReadCacheOptions) (xs : List (CacheCommand V))
      → 1 ≤ (new_read_cache {V = V} options).max_entries
      → length (commands_run (new_read_cache options) xs).store
        ≤ (new_read_cache {V = V} options).max_entries
  unfolding new_read_cache
  commands_run-le options xs h = all_within (new_read_cache options) xs h (omega arith)
