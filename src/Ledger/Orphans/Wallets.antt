-- ===== src/Ledger/Orphans/Wallets.antt =====
-- The look-up of wallet addresses in chunks
-- (backend/src/scripts/check-orphaned-transactions.ts, findExistingWalletAddresses).
use split_naira.Prelude.{
  ℕ, zero, suc, ◌-◌, ◌≤◌, ◌≡◌, refl, ap, ◌∙◌, Text, text_eq_iff, Bool, false, ◌&&◌, ◌||◌, List, [],
  ◌∷◌, ◌++◌, arith, length, take, drop, ◌==◌, Bool-cases, inl, inr,
}
use split_naira.Ledger.Orphans.{
  includes, add_all, wallet_lookup_chunk_size, find_existing_wallet_addresses,
}

includes-append :
    (a : Text) (xs ys : List Text) → includes a (xs ++ ys) ≡ (includes a xs || includes a ys)
includes-append a [] ys = refl
includes-append a (x ∷ xs) ys = ground (arith, includes-append a xs ys)

pub includes-add_all :
    (a : Text) (xs set : List Text)
    → includes a (add_all xs set) ≡ (includes a xs || includes a set)
includes-add_all a [] set = refl
includes-add_all a (x ∷ xs) set = ground (
  arith,
  includes-add_all a xs set,
  includes-add_all a xs (set ++ (x ∷ [])),
  includes-append a set (x ∷ []),
  text_eq_iff x a,
)

includes-take-drop :
    (a : Text) (n : ℕ) (xs : List Text)
    → (includes a (take n xs) || includes a (drop n xs)) ≡ includes a xs
includes-take-drop a zero xs = refl
includes-take-drop a (suc n) [] = refl
includes-take-drop a (suc n) (x ∷ xs) = ground (arith, includes-take-drop a n xs)

both_parts :
    (all_in chunk_in rest_in queried known found_in : Bool)
    → (chunk_in || rest_in) ≡ all_in
    → queried ≡ (chunk_in && known)
    → ((rest_in && known) || (queried || found_in)) ≡ ((all_in && known) || found_in)
both_parts all_in chunk_in rest_in queried known found_in h k = ground arith

length-drop : (n : ℕ) (xs : List Text) → length (drop n xs) ≡ length xs - n
length-drop zero xs = omega arith
length-drop (suc n) [] = omega arith
length-drop (suc n) (x ∷ xs) = omega (arith, length-drop n xs)

shorter :
    (fuel : ℕ) (addresses : List Text)
    → length addresses ≤ suc fuel
    → (length addresses == 0) ≡ false
    → length (drop wallet_lookup_chunk_size addresses) ≤ fuel
shorter fuel addresses h more =
    let positive : 1 ≤ length addresses = ground arith in
    omega (arith, length-drop wallet_lookup_chunk_size addresses)

includes_empty : (a : Text) (xs : List Text) → length xs ≡ 0 → includes a xs ≡ false
includes_empty a [] h = refl
includes_empty a (x ∷ xs) h = absurd (omega arith)

module _ (find_users : List Text → List Text) (registered : Text → Bool)
    (answers : (a : Text) (chunk : List Text)
      → includes a (find_users chunk) ≡ (includes a chunk && registered a)) where
  chunks :
      (fuel : ℕ) (addresses found : List Text) (a : Text)
      → length addresses ≤ fuel
      → includes a (find_existing_wallet_addresses find_users fuel addresses found)
        ≡ ((includes a addresses && registered a) || includes a found)
  unfolding find_existing_wallet_addresses
  chunks zero addresses found a h = ground (arith, includes_empty a addresses (omega arith))
  chunks (suc fuel) addresses found a h = elim (Bool-cases (length addresses == 0)) [
    | inl ended ↦ rw (ended) (ground (arith, includes_empty a addresses (ground arith)))
    | inr more ↦
        let chunk = take wallet_lookup_chunk_size addresses in
        let rest = drop wallet_lookup_chunk_size addresses in
        rw (more) (
          chunks fuel rest (add_all (find_users chunk) found) a (shorter fuel addresses h more)
          ∙ ap (λ b. (includes a rest && registered a) || b)
              (includes-add_all a (find_users chunk) found)
          ∙ both_parts (includes a addresses) (includes a chunk) (includes a rest)
              (includes a (find_users chunk)) (registered a) (includes a found)
              (includes-take-drop a wallet_lookup_chunk_size addresses) (answers a chunk))
  ]

  -- Where the query for a chunk returns the addresses of the chunk that are registered, the look-up
  -- in chunks of 1000 ends within as many rounds as there are addresses, and finds exactly the
  -- addresses that are registered.
  pub find_existing_wallet_addresses_complete :
      (addresses : List Text) (a : Text)
      → includes a (find_existing_wallet_addresses find_users (length addresses) addresses [])
        ≡ (includes a addresses && registered a)
  find_existing_wallet_addresses_complete addresses a =
      ground (arith, chunks (length addresses) addresses [] a (omega arith))
