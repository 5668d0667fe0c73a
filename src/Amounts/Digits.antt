-- ===== src/Amounts/Digits.antt =====
-- The decimal digits of a number, as the amounts of backend/src/lib/decimal-amounts.ts are printed
-- and read.
use split_naira.Prelude.{
  ℕ, zero, suc, ◌+◌, ◌/◌, ◌%◌, ◌^◌, ◌≤◌, ◌<◌, ◌≡◌, refl, ap, ◌∙◌, Text, true, [], ◌∷◌, arith,
  length, ltb, leb, Bool-cases, inl, inr,
}
use native.Mathlib.Nat.{pow-suc}
use split_naira.Amounts.{is_digit, all_digits, is_whole_part, value_from, emit, to_decimal}

value_from-emit :
    (fuel n : ℕ) (out : Text) → n < fuel → value_from 0 (emit fuel n out) ≡ value_from n out
unfolding value_from emit
value_from-emit zero n out h = absurd (omega arith)
value_from-emit (suc fuel) n out h = elim (Bool-cases (ltb n 10)) [
  | inl small ↦ rw small (ap (λ k. value_from k out) (omega arith))
  | inr large ↦
      rw large
        (value_from-emit fuel (n / 10) _ (ground arith) ∙ ap (λ k. value_from k out) (omega arith))
]

-- Reading what `toString` prints gives the number back.
pub value_from-to_decimal : (n : ℕ) → value_from 0 (to_decimal n) ≡ n
unfolding to_decimal value_from
value_from-to_decimal n = value_from-emit (suc n) n [] (omega arith)

all_digits-emit :
    (fuel n : ℕ) (out : Text) → all_digits out ≡ true → all_digits (emit fuel n out) ≡ true
unfolding emit all_digits is_digit
all_digits-emit zero n out h = h
all_digits-emit (suc fuel) n out h = elim (Bool-cases (ltb n 10)) [
  | inl small ↦ rw small (ground arith)
  | inr large ↦ rw large (all_digits-emit fuel (n / 10) _ (ground arith))
]

pub all_digits-to_decimal : (n : ℕ) → all_digits (to_decimal n) ≡ true
unfolding to_decimal all_digits
all_digits-to_decimal n = all_digits-emit (suc n) n [] refl

length-emit :
    (fuel n k : ℕ) (out : Text) → n < 10 ^ suc k → length (emit fuel n out) ≤ suc k + length out
unfolding emit
length-emit zero n k out h = omega arith
length-emit (suc fuel) n zero out h = ground arith
length-emit (suc fuel) n (suc k) out h = elim (Bool-cases (ltb n 10)) [
  | inl small ↦ rw small (omega arith)
  | inr large ↦
      let smaller : n / 10 < 10 ^ suc k = omega (arith, pow-suc 10 (suc k)) in
      rw large (omega (arith, length-emit fuel (n / 10) k ((b'0' + n % 10) ∷ out) smaller))
]

-- A number below a power of ten has at most that many digits.
pub length-to_decimal-le : (n k : ℕ) → n < 10 ^ suc k → length (to_decimal n) ≤ suc k
unfolding to_decimal
length-to_decimal-le n k h = omega (arith, length-emit (suc n) n k [] h)

-- The first digit is not zero, unless the number is.
is_whole_part-emit :
    (fuel n : ℕ) (out : Text)
    → 0 < n
    → n < fuel
    → (c : ℕ) × (s : Text) × (emit fuel n out ≡ c ∷ s) × (leb b'1' c ≡ true) × (leb c b'9' ≡ true)
unfolding emit
is_whole_part-emit zero n out p h = absurd (omega arith)
is_whole_part-emit (suc fuel) n out p h = elim (Bool-cases (ltb n 10)) [
  | inl small ↦ (b'0' + n, out, rw small, ground arith, ground arith)
  | inr large ↦
      let (c, s, e, lo, hi) =
        is_whole_part-emit fuel (n / 10) ((b'0' + n % 10) ∷ out) (ground arith) (ground arith) in
      (c, s, rw large e, lo, hi)
]

all_digits-tail : (c : ℕ) (s : Text) → all_digits (c ∷ s) ≡ true → all_digits s ≡ true
unfolding all_digits
all_digits-tail c s h = ground arith

is_whole_part_of :
    (t : Text) (c : ℕ) (s : Text)
    → t ≡ c ∷ s
    → leb b'1' c ≡ true
    → leb c b'9' ≡ true
    → all_digits t ≡ true
    → length t ≤ 39
    → is_whole_part t ≡ true
unfolding is_whole_part
is_whole_part_of t c s e lo hi d l =
    rw e (ground (arith, all_digits-tail c s (rw e at d), ap length e))

-- What `toString` prints for a number of at most 39 digits is a whole part of an amount.
pub is_whole_part-to_decimal : (n : ℕ) → n < 10 ^ 39 → is_whole_part (to_decimal n) ≡ true
is_whole_part-to_decimal zero h = unfold is_whole_part to_decimal emit in refl
is_whole_part-to_decimal (suc n) h =
    let (c, s, e, lo, hi) =
      is_whole_part-emit (suc (suc n)) (suc n) [] (omega arith) (omega arith) in
    is_whole_part_of (to_decimal (suc n)) c s (unfold to_decimal in e) lo hi
      (all_digits-to_decimal (suc n)) (length-to_decimal-le (suc n) 38 h)
