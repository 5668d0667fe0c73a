-- ===== src/Ledger/Invariants/Index.antt =====
-- The settlements by transaction hash (backend/src/services/ledger-invariants.ts,
-- settlementByTxHash) against the rows that they are read from.
use split_naira.Prelude.{
  ℕ, ◌+◌, ◌≤◌, ◌≡◌, sym, Text, text_eq, text_eq_iff, text_eq_refl, ◌&&◌, List, [], ◌∷◌, ◌++◌, arith,
  if◌then◌else◌, length, length-append, sum_by, sum_by-append, subst, All, All-map, Bool-cases, inl,
  inr,
}
use mathlib.Core.List.{append-nil, append_assoc}
use split_naira.Prelude.Dict.{get, set, get-set}
use split_naira.Ledger.{LedgerBlock, is_settlement}
use split_naira.Ledger.Invariants.{Settlements, settlements_at, index_settlements}

-- The settlements of a transaction among the rows.
unfoldable pub settlements_of : Text → List LedgerBlock → List LedgerBlock
settlements_of tx_hash [] = []
settlements_of tx_hash (block ∷ blocks) =
    let others = settlements_of tx_hash blocks in
    if is_settlement block && text_eq block.tx_hash tx_hash then block ∷ others else others

settlements_at-set :
    (k j : Text) (v : List LedgerBlock) (index : Settlements)
    → settlements_at j (set k v index) ≡ (if text_eq k j then v else settlements_at j index)
settlements_at-set k j v index = ground (arith, get-set k j v index)

pub settlements_at-index_settlements :
    (j : Text) (blocks : List LedgerBlock) (index : Settlements)
    → settlements_at j (index_settlements blocks index)
      ≡ settlements_at j index ++ settlements_of j blocks
unfolding index_settlements settlements_of
settlements_at-index_settlements j [] index = sym (append-nil (settlements_at j index))
settlements_at-index_settlements j (block ∷ blocks) index = grind (
  arith,
  text_eq_iff block.tx_hash j,
  append_assoc (settlements_at j index) (block ∷ []) (settlements_of j blocks),
  settlements_at-set block.tx_hash j (settlements_at block.tx_hash index ++ (block ∷ [])) index,
  settlements_at-index_settlements j blocks index,
  settlements_at-index_settlements j blocks
      (set block.tx_hash (settlements_at block.tx_hash index ++ (block ∷ [])) index),
)

All-set :
    (P : Text × List LedgerBlock → Type 0) (k : Text) (v : List LedgerBlock) (index : Settlements)
    → P (k, v)
    → All P index
    → All P (set k v index)
unfolding set
All-set P k v [] h hs = (h, tt)
All-set P k v ((j, w) ∷ index) h (hw, hs) = elim (Bool-cases (text_eq j k)) [
  | inl same ↦ rw (same) (subst (λ i. P (i, v)) (sym ((text_eq_iff j k).0 same)) h, hs)
  | inr other ↦ rw (other) (hw, All-set P k v index h hs)
]

-- An entry that is no longer than what is looked up under its hash.
abbrev pub IsWithin : Settlements → Text × List LedgerBlock → Type 0
IsWithin index (tx_hash, listed) = length listed ≤ length (settlements_at tx_hash index)

IsWithin-set :
    (block : LedgerBlock) (index : Settlements) (entry : Text × List LedgerBlock)
    → IsWithin index entry
    → IsWithin (set block.tx_hash (settlements_at block.tx_hash index ++ (block ∷ [])) index) entry
IsWithin-set block index (j, w) h =
    let listed = settlements_at block.tx_hash index in
    ground (
      arith,
      settlements_at-set block.tx_hash j (listed ++ (block ∷ [])) index,
      text_eq_iff block.tx_hash j,
      length-append listed (block ∷ []),
    )

IsWithin-self :
    (k : Text) (v : List LedgerBlock) (index : Settlements) → IsWithin (set k v index) (k, v)
IsWithin-self k v index = ground (arith, settlements_at-set k k v index, text_eq_refl k)

pub index_settlements-IsWithin :
    (blocks : List LedgerBlock) (index : Settlements)
    → All (IsWithin index) index
    → All (IsWithin (index_settlements blocks index)) (index_settlements blocks index)
unfolding index_settlements
index_settlements-IsWithin [] index h = h
index_settlements-IsWithin (block ∷ blocks) index h = elim (Bool-cases (is_settlement block)) [
  | inr other ↦ rw (other) (index_settlements-IsWithin blocks index h)
  | inl settles ↦
      let v = settlements_at block.tx_hash index ++ (block ∷ []) in
      let next = set block.tx_hash v index in
      rw (settles) (
        index_settlements-IsWithin blocks next (
          All-set (IsWithin next) block.tx_hash v index (IsWithin-self block.tx_hash v index)
            (All-map (IsWithin index) (IsWithin next) (IsWithin-set block index) index h)))
]

-- The sum of a measure of the rows over all entries.
abbrev pub sum_of_entries : (LedgerBlock → ℕ) → Settlements → ℕ
sum_of_entries f index = sum_by (λ entry. sum_by f entry.1) index

sum_of_entries-set :
    (f : LedgerBlock → ℕ) (k : Text) (v : List LedgerBlock) (index : Settlements)
    → sum_of_entries f (set k v index) + sum_by f (settlements_at k index)
      ≡ sum_of_entries f index + sum_by f v
unfolding set get
sum_of_entries-set f k v [] = omega arith
sum_of_entries-set f k v ((j, w) ∷ index) = ground (arith, sum_of_entries-set f k v index)

abbrev pub settlement_measure : (LedgerBlock → ℕ) → LedgerBlock → ℕ
settlement_measure f block = if is_settlement block then f block else 0

pub sum_of_entries-index_settlements :
    (f : LedgerBlock → ℕ) (blocks : List LedgerBlock) (index : Settlements)
    → sum_of_entries f (index_settlements blocks index)
      ≡ sum_of_entries f index + sum_by (settlement_measure f) blocks
unfolding index_settlements
sum_of_entries-index_settlements f [] index = omega arith
sum_of_entries-index_settlements f (block ∷ blocks) index =
    let listed = settlements_at block.tx_hash index in
    let next = set block.tx_hash (listed ++ (block ∷ [])) index in
    elim (Bool-cases (is_settlement block)) [
      | inl settles ↦ rw (settles) omega (
        arith,
        sum_of_entries-index_settlements f blocks next,
        sum_of_entries-set f block.tx_hash (listed ++ (block ∷ [])) index,
        sum_by-append f listed (block ∷ []),
      )
      | inr other ↦ rw (other) omega (arith, sum_of_entries-index_settlements f blocks index)
    ]
