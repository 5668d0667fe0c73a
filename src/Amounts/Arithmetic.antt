-- ===== src/Amounts/Arithmetic.antt =====
-- Sums, differences and comparisons of amount strings (backend/src/lib/decimal-amounts.ts) against
-- those of their units.
use split_naira.Prelude.{
  ℕ, ◌+◌, ◌-◌, ◌≤◌, ◌<◌, ◌≡◌, ◌⊎◌, ◌↔◌, ap, ◌∙◌, Text, true, false, List, [], ◌∷◌, arith,
  if◌then◌else◌, ltb, leb, Bool-cases, inl, inr, Result, ok, err,
}
use native.Mathlib.Nat.{add_assoc, zero-add}
use split_naira.Prelude.Int.{pos}
use split_naira.Amounts.{
  max_amount_units, AmountError, addition_overflow, subtraction_underflow, sum_overflow, to_units,
  from_units, normalize_amount_string, add_amounts, subtract_amounts, less, equal, greater,
  compare_amounts, sum_from, sum_amounts,
}
use split_naira.Amounts.RoundTrip.{to_units-from_units, to_units-le}

-- An operation whose exact result is `u` units: it returns an amount of `u` units, if that is in
-- range, and fails with `e` otherwise.
abbrev pub IsExact : Result AmountError Text → ℕ → AmountError → Type 0
IsExact m u e =
    ((u ≤ max_amount_units) × ((s : Text) × (m ≡ ok s) × (to_units s ≡ ok u)))
    ⊎ ((max_amount_units < u) × (m ≡ err e))

leb-lt : (a b : ℕ) → leb a b ≡ false → b < a
leb-lt a b h = ground arith

leb-le : (a b : ℕ) → leb a b ≡ true → a ≤ b
leb-le a b h = ground arith

-- Addition is exact, and overflows exactly when the sum of the units is out of range.
pub add_amounts-IsExact :
    (a b : Text) (x y : ℕ)
    → to_units a ≡ ok x
    → to_units b ≡ ok y
    → IsExact (add_amounts a b) (x + y) addition_overflow
unfolding add_amounts
add_amounts-IsExact a b x y ha hb = elim (Bool-cases (leb (x + y) max_amount_units)) [
  | inl fits ↦
      let (s, printed, _, again) = to_units-from_units (x + y) (leb-le _ _ fits) in
      inl (leb-le _ _ fits, (s, rw (ha, hb, fits) printed, again))
  | inr over ↦ inr (leb-lt _ _ over, rw (ha, hb, over))
]

-- Subtraction is exact where the difference is not negative, and fails otherwise.
pub subtract_amounts_exact :
    (a b : Text) (x y : ℕ)
    → to_units a ≡ ok x
    → to_units b ≡ ok y
    → ((y ≤ x) × ((s : Text) × (subtract_amounts a b ≡ ok s) × (to_units s ≡ ok (x - y))))
      ⊎ ((x < y) × (subtract_amounts a b ≡ err subtraction_underflow))
unfolding subtract_amounts
subtract_amounts_exact a b x y ha hb = elim (Bool-cases (leb y x)) [
  | inl fits ↦
      let (s, printed, _, again) =
        to_units-from_units (x - y) (omega (arith, (to_units-le a ha).0)) in
      inl (leb-le _ _ fits, (s, rw (ha, hb, fits) printed, again))
  | inr under ↦ inr (leb-lt _ _ under, rw (ha, hb, under))
]

-- Where two valid amounts were added without an overflow, taking the second away from the sum
-- gives the first one back, in canonical form.
subtract_amounts-add_amounts :
    (a b s : Text) (x y : ℕ)
    → to_units a ≡ ok x
    → to_units b ≡ ok y
    → add_amounts a b ≡ ok s
    → subtract_amounts s b ≡ normalize_amount_string a
unfolding normalize_amount_string subtract_amounts
subtract_amounts-add_amounts a b s x y ha hb h = elim (add_amounts-IsExact a b x y ha hb) [
  | inr (over, failed) ↦ absurd (cc (failed, h))
  | inl (fits, (t, added, units)) ↦
      let same : t ≡ s = cc (added, h) in
      let enough : leb y (x + y) ≡ true = ground arith in
      rw (ha, rw same at units, hb, enough) (ap (λ n. from_units (pos n)) (omega arith))
]

compare_units :
    (a b : Text) (x y : ℕ)
    → to_units a ≡ ok x
    → to_units b ≡ ok y
    → compare_amounts a b ≡ ok (if ltb x y then less else if ltb y x then greater else equal)
unfolding compare_amounts
compare_units a b x y ha hb = rw (ha, hb)

-- Canonical forms are equal exactly when the units are.
canonical_iff :
    (a b : Text) (x y : ℕ)
    → to_units a ≡ ok x
    → to_units b ≡ ok y
    → (normalize_amount_string a ≡ normalize_amount_string b) ↔ (x ≡ y)
unfolding normalize_amount_string
canonical_iff a b x y ha hb =
    let (s, printed_s, _, again_s) = to_units-from_units x (to_units-le a ha).0 in
    let (t, printed_t, _, again_t) = to_units-from_units y (to_units-le b hb).0 in
    rw (ha, hb)
      ((λ h. cc (h, printed_s, printed_t, again_s, again_t)), (λ h. ap (λ n. from_units (pos n)) h))

-- Two valid amounts compare as their units do; they are equal exactly when they have the same
-- canonical form.
compare_amounts_exact :
    (a b : Text) (x y : ℕ)
    → to_units a ≡ ok x
    → to_units b ≡ ok y
    → ((compare_amounts a b ≡ ok less) ↔ (x < y))
      × ((compare_amounts a b ≡ ok greater) ↔ (y < x))
      × ((compare_amounts a b ≡ ok equal) ↔ (normalize_amount_string a ≡ normalize_amount_string b))
compare_amounts_exact a b x y ha hb =
    ground (arith, compare_units a b x y ha hb, canonical_iff a b x y ha hb)

-- The units of a list of valid amounts.
abbrev pub UnitsOf : List Text → List ℕ → Type 0
UnitsOf [] [] = Unit
UnitsOf (v ∷ vs) (u ∷ us) = (to_units v ≡ ok u) × UnitsOf vs us
UnitsOf _ _ = ⊥

abbrev pub total : List ℕ → ℕ
total [] = 0
total (u ∷ us) = u + total us

sum_from_exact :
    (acc : ℕ) (vs : List Text) (us : List ℕ)
    → UnitsOf vs us
    → acc ≤ max_amount_units
    → ((acc + total us ≤ max_amount_units) × (sum_from acc vs ≡ ok (acc + total us)))
      ⊎ ((max_amount_units < acc + total us) × (sum_from acc vs ≡ err sum_overflow))
unfolding sum_from
sum_from_exact acc [] [] h k = inl (omega arith, ap ok (omega arith))
sum_from_exact acc (v ∷ vs) (u ∷ us) (hv, h) k =
    ground (arith, add_assoc acc u (total us), sum_from_exact (acc + u) vs us h)
sum_from_exact acc [] (u ∷ us) h k = absurd h
sum_from_exact acc (v ∷ vs) [] h k = absurd h

-- A sum of valid amounts is exact, and overflows exactly when the sum of the units is out of range.
pub sum_amounts-IsExact :
    (vs : List Text) (us : List ℕ)
    → UnitsOf vs us
    → IsExact (sum_amounts vs) (total us) sum_overflow
unfolding sum_amounts
sum_amounts-IsExact vs us h = elim (sum_from_exact 0 vs us h (omega arith)) [
  | inl (fits, summed) ↦
      let (s, printed, _, again) = to_units-from_units (total us) (omega arith) in
      inl (omega arith, (s, rw (summed ∙ ap ok (zero-add (total us))) printed, again))
  | inr (over, failed) ↦ inr (omega arith, rw failed)
]
