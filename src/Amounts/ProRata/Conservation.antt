-- ===== src/Amounts/ProRata/Conservation.antt =====
-- The sum of the units that `allocateProRata` (backend/src/lib/decimal-amounts.ts) hands out.
use split_naira.Prelude.{
  ℕ, zero, suc, ◌+◌, ◌-◌, ◌*◌, ◌/◌, ◌%◌, ◌≤◌, ◌<◌, ◌≡◌, refl, ap, ◌∙◌, List, [], ◌∷◌, arith, All,
  All-map, length, Bool-cases, inl, inr,
}
use native.Mathlib.Nat.{div-add-mod, mod-lt, le_of_mul-le-mul_right}
use split_naira.Amounts.ProRata.{
  get_or, add_one_at, indices_from, comes_before, insert_by, sort_by, hand_out, sum, floors,
  remainders_of, allocate_units,
}

pub length-add_one_at : (i : ℕ) (xs : List ℕ) → length (add_one_at i xs) ≡ length xs
length-add_one_at i [] = refl
length-add_one_at zero (x ∷ xs) = refl
length-add_one_at (suc i) (x ∷ xs) = ap suc (length-add_one_at i xs)

sum-add_one_at : (i : ℕ) (xs : List ℕ) → i < length xs → sum (add_one_at i xs) ≡ suc (sum xs)
sum-add_one_at i [] h = absurd (omega arith)
sum-add_one_at zero (x ∷ xs) h = omega arith
sum-add_one_at (suc i) (x ∷ xs) h = omega (arith, sum-add_one_at i xs (omega arith))

All-get_or : (P : ℕ → Type 0) (xs : List ℕ) (i : ℕ) → All P xs → i < length xs → P (get_or xs i)
All-get_or P [] i h k = absurd (omega arith)
All-get_or P (x ∷ xs) zero h k = h.0
All-get_or P (x ∷ xs) (suc i) h k = All-get_or P xs i h.1 (omega arith)

pub length-hand_out :
    (order : List ℕ) (i leftover : ℕ) (units : List ℕ)
    → length (hand_out order i leftover units) ≡ length units
unfolding hand_out
length-hand_out order i zero units = refl
length-hand_out order i (suc leftover) units =
    length-hand_out order ((i + 1) % length order) leftover (add_one_at (get_or order i) units)
    ∙ length-add_one_at (get_or order i) units

-- The loop gives away exactly what is left.
sum-hand_out :
    (order : List ℕ) (i leftover : ℕ) (units : List ℕ)
    → All (λ j. j < length units) order
    → i < length order
    → sum (hand_out order i leftover units) ≡ leftover + sum units
unfolding hand_out
sum-hand_out order i zero units h k = omega arith
sum-hand_out order i (suc leftover) units h k =
    let next = add_one_at (get_or order i) units in
    let inside : All (λ j. j < length next) order =
      All-map _ _ (λ j lt. omega (arith, length-add_one_at (get_or order i) units)) order h in
    let given = sum-add_one_at (get_or order i) units (All-get_or _ order i h k) in
    sum-hand_out order ((i + 1) % length order) leftover next inside (mod-lt (i + 1) (omega arith))
    ∙ omega (arith, given)

All-insert_by :
    (P : ℕ → Type 0) (remainders : List ℕ) (a : ℕ) (bs : List ℕ)
    → P a
    → All P bs
    → All P (insert_by remainders a bs)
unfolding insert_by
All-insert_by P remainders a [] p h = (p, tt)
All-insert_by P remainders a (b ∷ bs) p h = elim (Bool-cases (comes_before remainders a b)) [
  | inl first ↦ rw first (p, h)
  | inr later ↦ rw later (h.0, All-insert_by P remainders a bs p h.1)
]

pub All-sort_by :
    (P : ℕ → Type 0) (remainders : List ℕ) (xs : List ℕ) → All P xs → All P (sort_by remainders xs)
unfolding sort_by
All-sort_by P remainders [] h = tt
All-sort_by P remainders (x ∷ xs) h =
    All-insert_by P remainders x (sort_by remainders xs) h.0 (All-sort_by P remainders xs h.1)

length-insert_by :
    (remainders : List ℕ) (a : ℕ) (bs : List ℕ)
    → length (insert_by remainders a bs) ≡ suc (length bs)
unfolding insert_by
length-insert_by remainders a [] = refl
length-insert_by remainders a (b ∷ bs) = ground (arith, length-insert_by remainders a bs)

pub length-sort_by : (remainders xs : List ℕ) → length (sort_by remainders xs) ≡ length xs
unfolding sort_by
length-sort_by remainders [] = refl
length-sort_by remainders (x ∷ xs) =
    length-insert_by remainders x (sort_by remainders xs) ∙ ap suc (length-sort_by remainders xs)

pub indices_in_range :
    (i : ℕ) (ws : List ℕ) → All (λ j. (i ≤ j) × (j < i + length ws)) (indices_from i ws)
indices_in_range i [] = tt
indices_in_range i (w ∷ ws) = (
  omega arith,
  All-map _ _ (λ j h. omega arith) (indices_from (suc i) ws) (indices_in_range (suc i) ws),
)

pub length-indices_from : (i : ℕ) (ws : List ℕ) → length (indices_from i ws) ≡ length ws
length-indices_from i [] = refl
length-indices_from i (w ∷ ws) = ap suc (length-indices_from (suc i) ws)

pub length-floors : (t weight_sum : ℕ) (ws : List ℕ) → length (floors t weight_sum ws) ≡ length ws
length-floors t weight_sum [] = refl
length-floors t weight_sum (w ∷ ws) = ap suc (length-floors t weight_sum ws)

floor-le : (t w weight_sum : ℕ) → t * w / weight_sum * weight_sum ≤ t * w
floor-le t w weight_sum = grind (arith, div-add-mod (t * w) weight_sum)

sum-floors-le :
    (t weight_sum : ℕ) (ws : List ℕ) → sum (floors t weight_sum ws) * weight_sum ≤ t * sum ws
sum-floors-le t weight_sum [] = omega arith
sum-floors-le t weight_sum (w ∷ ws) =
    omega (arith, floor-le t w weight_sum, sum-floors-le t weight_sum ws)

-- The floors never exceed the total.
pub sum-floors-le-total : (t : ℕ) (ws : List ℕ) → 0 < sum ws → sum (floors t (sum ws) ws) ≤ t
sum-floors-le-total t ws p = le_of_mul-le-mul_right (sum-floors-le t (sum ws) ws) p

some_weight : (ws : List ℕ) → 0 < sum ws → 0 < length ws
some_weight [] h = absurd (omega arith)
some_weight (w ∷ ws) h = omega arith

-- For any total and any weights that are not all zero, the shares add up to the total, one share
-- for each weight.
pub sum-allocate_units :
    (t : ℕ) (ws : List ℕ)
    → 0 < sum ws
    → (sum (allocate_units t ws) ≡ t) × (length (allocate_units t ws) ≡ length ws)
unfolding allocate_units
sum-allocate_units t ws p =
    let base = floors t (sum ws) ws in
    let remainders = remainders_of t (sum ws) ws in
    let order = sort_by remainders (indices_from 0 ws) in
    let leftover = t - sum base in
    let same = length-floors t (sum ws) ws in
    let in_range : All (λ j. j < length base) order =
      All-sort_by (λ j. j < length base) remainders (indices_from 0 ws)
        (All-map _ _ (λ j h. omega (arith, same)) (indices_from 0 ws) (indices_in_range 0 ws)) in
    let not_empty : 0 < length order = omega (
      arith,
      length-sort_by remainders (indices_from 0 ws),
      length-indices_from 0 ws,
      some_weight ws p,
    ) in
    (
      sum-hand_out order 0 leftover base in_range not_empty
          ∙ omega (arith, sum-floors-le-total t ws p),
      length-hand_out order 0 leftover base ∙ same,
    )
