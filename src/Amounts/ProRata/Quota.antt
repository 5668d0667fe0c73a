-- ===== src/Amounts/ProRata/Quota.antt =====
-- The units of one share in `allocateProRata` (backend/src/lib/decimal-amounts.ts) against its
-- exact part.
use split_naira.Prelude.{
  ℕ, zero, suc, ◌+◌, ◌-◌, ◌*◌, ◌/◌, ◌%◌, ◌≤◌, ◌<◌, ◌≡◌, refl, sym, ap, ◌∙◌, subst, List, [], ◌∷◌,
  arith, length, ◌==◌, if◌then◌else◌,
}
use native.Mathlib.Nat.{div-add-mod, mod-eq_of_lt, le_of_mul-le-mul_right}
use native.Mathlib.Numerals.{add-one}
use split_naira.Amounts.ProRata.{
  get_or, add_one_at, indices_from, insert_by, sort_by, hand_out, sum, floors, remainders_of,
  allocate_units,
}
use split_naira.Amounts.ProRata.Conservation.{length-sort_by, length-indices_from}

-- How often a number stands in a list.
abbrev count : ℕ → List ℕ → ℕ
count k [] = 0
count k (x ∷ xs) = let rest = count k xs in if x == k then suc rest else rest

count-insert_by :
    (remainders : List ℕ) (k a : ℕ) (bs : List ℕ)
    → count k (insert_by remainders a bs) ≡ count k (a ∷ bs)
unfolding insert_by
count-insert_by remainders k a [] = refl
count-insert_by remainders k a (b ∷ bs) = ground (arith, count-insert_by remainders k a bs)

count-sort_by :
    (remainders : List ℕ) (k : ℕ) (xs : List ℕ) → count k (sort_by remainders xs) ≡ count k xs
unfolding sort_by
count-sort_by remainders k [] = refl
count-sort_by remainders k (x ∷ xs) =
    ground
      (arith, count-insert_by remainders k x (sort_by remainders xs), count-sort_by remainders k xs)

count-indices_from :
    (k i : ℕ) (ws : List ℕ)
    → (k < i → count k (indices_from i ws) ≡ 0) × (count k (indices_from i ws) ≤ 1)
count-indices_from k i [] = ground arith
count-indices_from k i (w ∷ ws) = ground (arith, count-indices_from k (suc i) ws)

-- What stands at the places from `i` on, `n` of them.
abbrev window : List ℕ → ℕ → ℕ → List ℕ
window order i zero = []
window order i (suc n) = get_or order i ∷ window order (suc i) n

get_or-add_one_at :
    (i k : ℕ) (xs : List ℕ) → get_or (add_one_at i xs) k ≤ get_or xs k + (if i == k then 1 else 0)
get_or-add_one_at i k [] = omega arith
get_or-add_one_at zero zero (x ∷ xs) = omega arith
get_or-add_one_at zero (suc k) (x ∷ xs) = omega arith
get_or-add_one_at (suc i) zero (x ∷ xs) = omega arith
get_or-add_one_at (suc i) (suc k) (x ∷ xs) = ground (arith, get_or-add_one_at i k xs)

get_or-le-add_one_at : (i k : ℕ) (xs : List ℕ) → get_or xs k ≤ get_or (add_one_at i xs) k
get_or-le-add_one_at i k [] = omega arith
get_or-le-add_one_at zero zero (x ∷ xs) = omega arith
get_or-le-add_one_at zero (suc k) (x ∷ xs) = omega arith
get_or-le-add_one_at (suc i) zero (x ∷ xs) = omega arith
get_or-le-add_one_at (suc i) (suc k) (x ∷ xs) = get_or-le-add_one_at i k xs

get_or-le-hand_out :
    (order : List ℕ) (i leftover k : ℕ) (units : List ℕ)
    → get_or units k ≤ get_or (hand_out order i leftover units) k
unfolding hand_out
get_or-le-hand_out order i zero k units = omega arith
get_or-le-hand_out order i (suc leftover) k units = omega (
  arith,
  get_or-le-add_one_at (get_or order i) k units,
  get_or-le-hand_out order ((i + 1) % length order) leftover k (add_one_at (get_or order i) units),
)

count-cons : (k x : ℕ) (xs : List ℕ) → count k (x ∷ xs) ≡ (if x == k then 1 else 0) + count k xs
count-cons k x xs = ground arith

given_once :
    (j k after : ℕ) (units rest : List ℕ)
    → after ≤ get_or (add_one_at j units) k + count k rest
    → after ≤ get_or units k + count k (j ∷ rest)
given_once j k after units rest h = omega (arith, get_or-add_one_at j k units, count-cons k j rest)

-- While the places do not run out, each is visited once.
get_or-hand_out :
    (order : List ℕ) (i leftover k : ℕ) (units : List ℕ)
    → i + leftover ≤ length order
    → get_or (hand_out order i leftover units) k
      ≤ get_or units k + count k (window order i leftover)
unfolding hand_out
get_or-hand_out order i zero k units h = omega arith
get_or-hand_out order i (suc zero) k units h =
    ground (arith, get_or-add_one_at (get_or order i) k units)
get_or-hand_out order i (suc (suc leftover)) k units h =
    let stays = mod-eq_of_lt {n = i + 1} {m = length order} (omega arith) ∙ add-one i in
    let next = add_one_at (get_or order i) units in
    subst
      (λ j.
        get_or (hand_out order j (suc leftover) next) k
        ≤ get_or units k + count k (window order i (suc (suc leftover))))
      (sym stays)
      (given_once (get_or order i) k _ units (window order (suc i) (suc leftover))
        (get_or-hand_out order (suc i) (suc leftover) k next (omega arith)))

window-suc : (x : ℕ) (xs : List ℕ) (i n : ℕ) → window (x ∷ xs) (suc i) n ≡ window xs i n
window-suc x xs i zero = refl
window-suc x xs i (suc n) = ap (◌∷◌ (get_or xs i)) (window-suc x xs (suc i) n)

count-window-le :
    (k : ℕ) (order : List ℕ) (i n : ℕ)
    → i + n ≤ length order
    → count k (window order i n) ≤ count k order
count-window-le k order i zero h = omega arith
count-window-le k [] i (suc n) h = absurd (omega arith)
count-window-le k (x ∷ xs) zero (suc n) h =
    ground (arith, ap (count k) (window-suc x xs 0 n), count-window-le k xs 0 n)
count-window-le k (x ∷ xs) (suc i) (suc n) h =
    ground (arith, ap (count k) (window-suc x xs i (suc n)), count-window-le k xs i (suc n))

floor-lt :
    (t w weight_sum : ℕ) → 0 < weight_sum → t * w ≤ t * w / weight_sum * weight_sum + weight_sum
floor-lt t w weight_sum p = grind (arith, div-add-mod (t * w) weight_sum)

sum-floors-ge :
    (t weight_sum : ℕ) (ws : List ℕ)
    → 0 < weight_sum
    → t * sum ws ≤ (sum (floors t weight_sum ws) + length ws) * weight_sum
sum-floors-ge t weight_sum [] p = omega arith
sum-floors-ge t weight_sum (w ∷ ws) p =
    omega (arith, floor-lt t w weight_sum p, sum-floors-ge t weight_sum ws p)

-- Where the weights are not all zero, each share gets the floor of its exact part or one unit
-- more, at whatever place it stands.
pub allocate_units_quota :
    (t : ℕ) (ws : List ℕ) (k : ℕ)
    → 0 < sum ws
    → (get_or (floors t (sum ws) ws) k ≤ get_or (allocate_units t ws) k)
      × (get_or (allocate_units t ws) k ≤ get_or (floors t (sum ws) ws) k + 1)
unfolding allocate_units
allocate_units_quota t ws k p =
    let base = floors t (sum ws) ws in
    let remainders = remainders_of t (sum ws) ws in
    let order = sort_by remainders (indices_from 0 ws) in
    let leftover = t - sum base in
    let enough : t ≤ sum base + length ws =
      le_of_mul-le-mul_right (sum-floors-ge t (sum ws) ws p) p in
    let long : length order ≡ length ws =
      length-sort_by remainders (indices_from 0 ws) ∙ length-indices_from 0 ws in
    (
      get_or-le-hand_out order 0 leftover k base,
      omega (
        arith,
        get_or-hand_out order 0 leftover k base (omega (arith, long, enough)),
        count-window-le k order 0 leftover (omega (arith, long, enough)),
        count-sort_by remainders k (indices_from 0 ws),
        (count-indices_from k 0 ws).1,
      ),
    )
