-- ===== src/Exports/Payouts/Pages.antt =====
-- What a page after a cursor holds (backend/src/services/PayoutHistoryService.ts).
use split_naira.Prelude.{
  ℕ, zero, suc, ◌+◌, ◌≡◌, refl, ap, ◌∙◌, Bool, true, false, Text, List, [], ◌∷◌, ◌++◌, some, arith,
  ltb, if◌then◌else◌, if_true, if_false, length, take, filter, Bool-cases, inl, inr, All,
}
use split_naira.Exports.Payouts.{
  PayoutRow, PayoutPage, comes_after, page_of, matching_rows, get_payouts_page,
}

module _ {A : Type 0} where
  take-take : (n : ℕ) (xs : List A) → take n (take (suc n) xs) ≡ take n xs
  take-take zero xs = refl
  take-take (suc n) [] = refl
  take-take (suc n) (x ∷ xs) = ap (λ l. x ∷ l) (take-take n xs)

  overfull : (n : ℕ) (xs : List A) → ltb n (length (take (suc n) xs)) ≡ ltb n (length xs)
  overfull zero [] = refl
  overfull zero (x ∷ xs) = ground arith
  overfull (suc n) [] = refl
  overfull (suc n) (x ∷ xs) = let inner = overfull n xs in ground arith

  not_overfull :
      (n : ℕ) (xs : List A) → ltb n (length (take (suc n) xs)) ≡ false → take (suc n) xs ≡ take n xs
  not_overfull zero [] h = refl
  not_overfull zero (x ∷ xs) h = absurd (ground arith)
  not_overfull (suc n) [] h = refl
  not_overfull (suc n) (x ∷ xs) h = ap (λ l. x ∷ l) (not_overfull n xs (ground arith))

-- One row more than the limit decides whether more rows follow, and is then cut off.
page_of-take :
    (limit total : ℕ) (rows : List PayoutRow)
    → page_of limit total (take (suc limit) rows)
      ≡ record { records = take limit rows; total = total; has_more = ltb limit (length rows) }
page_of-take limit total rows =
    let page : List PayoutRow → Bool → PayoutPage =
      λ l more. record { records = l; total = total; has_more = more } in
    let probe = take (suc limit) rows in
    let cut : (if ltb limit (length probe) then take limit probe else probe) ≡ take limit rows =
      elim (Bool-cases (ltb limit (length probe))) [
        | inl more ↦ if_true (take limit probe) probe more ∙ take-take limit rows
        | inr last ↦ if_false (take limit probe) probe last ∙ not_overfull limit rows last
      ] in
    ap (λ l. page l (ltb limit (length probe))) cut
    ∙ ap (page (take limit rows)) (overfull limit rows)

abbrev AllAfter : (Text → Text → Bool) → PayoutRow → List PayoutRow → Type 0
AllAfter id_before cursor rows = All (λ row. comes_after id_before cursor row ≡ true) rows

-- The order of the listing: the newest timestamp first, and among equal ones the last id.
abbrev pub IsListing : (Text → Text → Bool) → List PayoutRow → Type 0
IsListing id_before [] = Unit
IsListing id_before (row ∷ rows) = AllAfter id_before row rows × IsListing id_before rows

module _ (id_before : (Text → Text → Bool))
    (asymmetric : (a b : Text) → id_before a b ≡ true → id_before b a ≡ false) where
  after-asymmetric :
      (a b : PayoutRow) → comes_after id_before a b ≡ true → comes_after id_before b a ≡ false
  unfolding comes_after
  after-asymmetric a b h = let back = asymmetric b.id a.id in ground arith

  not_after_itself : (a : PayoutRow) → comes_after id_before a a ≡ false
  not_after_itself a = elim (Bool-cases (comes_after id_before a a)) [
    | inl h ↦ after-asymmetric a a h
    | inr h ↦ h
  ]

  filter-after :
      (cursor : PayoutRow) (rows : List PayoutRow)
      → AllAfter id_before cursor rows
      → filter (comes_after id_before cursor) rows ≡ rows
  filter-after cursor [] h = refl
  filter-after cursor (row ∷ rows) (h, hs) =
      if_true (row ∷ filter (comes_after id_before cursor) rows)
        (filter (comes_after id_before cursor) rows) h
      ∙ ap (λ l. row ∷ l) (filter-after cursor rows hs)

  All-at :
      (P : PayoutRow → Type 0) (before : List PayoutRow) (row : PayoutRow) (later : List PayoutRow)
      → All P (before ++ row ∷ later)
      → P row
  All-at P [] row later (h, _) = h
  All-at P (_ ∷ before) row later (_, h) = All-at P before row later h

  filter-listing :
      (before : List PayoutRow) (cursor : PayoutRow) (later : List PayoutRow)
      → IsListing id_before (before ++ cursor ∷ later)
      → filter (comes_after id_before cursor) (before ++ cursor ∷ later) ≡ later
  filter-listing [] cursor later (h, _) =
      if_false (cursor ∷ filter (comes_after id_before cursor) later)
        (filter (comes_after id_before cursor) later) (not_after_itself cursor)
      ∙ filter-after cursor later h
  filter-listing (row ∷ before) cursor later (h, hs) =
      let rest = filter (comes_after id_before cursor) (before ++ cursor ∷ later) in
      let passed = All-at (λ r. comes_after id_before row r ≡ true) before cursor later h in
      if_false (row ∷ rest) rest (after-asymmetric row cursor passed)
      ∙ filter-listing before cursor later hs

  -- Where the database's order of ids is asymmetric and the rows stand in the order of the listing,
  -- the page after a cursor holds the rows that follow the cursor's row, the first `limit` of them, none
  -- skipped and none repeated, whatever the offset; it counts all rows, and says that more follow
  -- exactly where more than `limit` rows follow.
  pub get_payouts_page-after :
      (before : List PayoutRow) (cursor : PayoutRow) (later : List PayoutRow) (offset limit : ℕ)
      → IsListing id_before (before ++ cursor ∷ later)
      → get_payouts_page id_before (some cursor) offset limit (before ++ cursor ∷ later) ≡ record {
        records = take limit later;
        total = length (before ++ cursor ∷ later);
        has_more = ltb limit (length later);
      }
  unfolding get_payouts_page matching_rows
  get_payouts_page-after before cursor later offset limit h =
      let rows = before ++ cursor ∷ later in
      let one_more : limit + 1 ≡ suc limit = omega arith in
      ap (λ l. page_of limit (length rows) (take (limit + 1) l))
        (filter-listing before cursor later h)
      ∙ ap (λ n. page_of limit (length rows) (take n later)) one_more
      ∙ page_of-take limit (length rows) later
