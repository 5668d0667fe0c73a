-- ===== src/Exports/Payouts/Coverage.antt =====
-- What the walks over a listing of payouts cover (backend/src/services/PayoutHistoryService.ts).
use split_naira.Prelude.{
  ℕ, zero, suc, ◌+◌, ◌≤◌, ◌<◌, ◌≡◌, refl, sym, ap, ◌∙◌, false, List, [], ◌∷◌, ◌++◌, Option, some,
  arith, ltb, ◌==◌, if◌then◌else◌, if_true, if_false, length, take, drop, Bool-cases, inl, inr,
}
use split_naira.Exports.Payouts.{iterate_payouts}

abbrev pub concat : {A : Type 0} → List (List A) → List A
concat [] = []
concat (xs ∷ xss) = xs ++ concat xss

module _ {A : Type 0} where
  take-drop : (n : ℕ) (xs : List A) → take n xs ++ drop n xs ≡ xs
  take-drop zero xs = refl
  take-drop (suc n) [] = refl
  take-drop (suc n) (x ∷ xs) = ap (λ l. x ∷ l) (take-drop n xs)

  drop_empty : (n : ℕ) → drop {A = A} n [] ≡ []
  drop_empty zero = refl
  drop_empty (suc n) = refl

  drop-drop : (m n : ℕ) (xs : List A) → drop n (drop m xs) ≡ drop (m + n) xs
  drop-drop zero n xs = ap (λ k. drop k xs) (omega arith)
  drop-drop (suc m) n [] = drop_empty n ∙ sym (drop_empty (suc m + n))
  drop-drop (suc m) n (x ∷ xs) =
      let shift : suc (m + n) ≡ suc m + n = omega arith in
      drop-drop m n xs ∙ ap (λ k. drop k (x ∷ xs)) shift

  length-take : (n : ℕ) (xs : List A) → length (take n xs) + length (drop n xs) ≡ length xs
  length-take zero xs = omega arith
  length-take (suc n) [] = omega arith
  length-take (suc n) (x ∷ xs) = omega (arith, length-take n xs)

  take_short : (n : ℕ) (xs : List A) → length (take n xs) < n → take n xs ≡ xs
  take_short zero xs h = absurd (omega arith)
  take_short (suc n) [] h = refl
  take_short (suc n) (x ∷ xs) h = ap (λ l. x ∷ l) (take_short n xs (omega (arith, h)))

  length-take-le : (n : ℕ) (xs : List A) → length (take n xs) ≤ n
  length-take-le zero xs = omega arith
  length-take-le (suc n) [] = omega arith
  length-take-le (suc n) (x ∷ xs) = omega (arith, length-take-le n xs)

  append-nothing : (xs : List A) → xs ++ [] ≡ xs
  append-nothing [] = refl
  append-nothing (x ∷ xs) = ap (λ l. x ∷ l) (append-nothing xs)

full_length : (n size : ℕ) → ltb n size ≡ false → n ≤ size → n ≡ size
full_length n size h k = ground arith

nothing_of : {A : Type 0} (xs : List A) → length xs ≡ 0 → xs ≡ []
nothing_of [] h = refl
nothing_of (x ∷ xs) h = absurd (omega arith)

module _ {A : Type 0} (fetch : ℕ → ℕ → Option (List A)) (size fuel offset : ℕ)
    (batch : List A) where
  after : List (List A)
  after = iterate_payouts fetch size fuel (offset + length batch)

  -- One round of the walk, by the length of its batch.
  round :
      fetch offset size ≡ some batch
      → iterate_payouts fetch size (suc fuel) offset ≡ (
          if length batch == 0
          then []
          else if ltb (length batch) size
          then batch ∷ []
          else batch ∷ after)
  unfolding iterate_payouts after
  round e = rw (iterate_payouts, e) refl

module _ {A : Type 0} (rows : List A) (fetch : ℕ → ℕ → Option (List A)) (size : ℕ)
    (answers : (offset n : ℕ) → fetch offset n ≡ some (take n (drop offset rows)))
    (positive : 1 ≤ size) where
  walked :
      (fuel offset : ℕ)
      → length (drop offset rows) < fuel
      → concat (iterate_payouts fetch size fuel offset) ≡ drop offset rows
  unfolding after
  walked zero offset h = absurd (omega arith)
  walked (suc fuel) offset h =
      let left = drop offset rows in
      let batch = take size left in
      let unrolled = ap concat (round fetch size fuel offset batch (answers offset size)) in
      let whole = length-take size left in
      elim (Bool-cases (length batch == 0)) [
        | inl none_left ↦
            unrolled
            ∙ ap concat (
                if_true []
                  (if ltb (length batch) size
                    then batch ∷ []
                    else batch ∷ after fetch size fuel offset batch)
                  none_left)
            ∙ sym (nothing_of batch (ground arith))
            ∙ take_short size left (ground arith)
        | inr some_left ↦ elim (Bool-cases (ltb (length batch) size)) [
          | inl short ↦
              unrolled
              ∙ ap concat (
                  if_false []
                    (if ltb (length batch) size
                      then batch ∷ []
                      else batch ∷ after fetch size fuel offset batch)
                    some_left)
              ∙ ap concat (if_true (batch ∷ []) (batch ∷ after fetch size fuel offset batch) short)
              ∙ append-nothing batch
              ∙ take_short size left (ground arith)
          | inr full ↦
              let filled : length batch ≡ size =
                full_length (length batch) size full (length-take-le size left) in
              let further =
                ap (λ n. length (drop (offset + n) rows)) filled
                ∙ ap length (sym (drop-drop offset size rows)) in
              unrolled
              ∙ ap concat (
                  if_false []
                    (if ltb (length batch) size
                      then batch ∷ []
                      else batch ∷ after fetch size fuel offset batch)
                    some_left)
              ∙ ap concat (if_false (batch ∷ []) (batch ∷ after fetch size fuel offset batch) full)
              ∙ ap (λ l. batch ++ l)
                  (walked fuel (offset + length batch)
                    (omega (arith, h, whole, filled, further, positive)))
              ∙ ap (λ n. batch ++ drop (offset + n) rows) filled
              ∙ ap (λ l. batch ++ l) (sym (drop-drop offset size rows))
              ∙ take-drop size left
        ]
      ]

  -- Where the query gives the rows of the listing from an offset on, up to the size of a batch, and a
  -- batch has at least one row, the walk ends within one batch more than there are rows, and its
  -- batches are exactly the rows from the starting offset on.
  pub iterate_payouts-concat :
      (offset : ℕ)
      → concat (iterate_payouts fetch size (suc (length rows)) offset) ≡ drop offset rows
  iterate_payouts-concat offset =
      walked (suc (length rows)) offset (omega (arith, length-take offset rows))
