-- ===== src/Amounts/RoundTrip/Padding.antt =====
-- The fraction of an amount: padded to seven digits, and stripped of its last zeros.
use split_naira.Prelude.{
  ℕ, zero, suc, ◌-◌, ◌≤◌, ◌<◌, ◌≡◌, ◌≢◌, refl, sym, ap, ◌∙◌, Text, true, [], ◌∷◌, ◌++◌, arith,
  length, take, replicate, is_empty, ◌==◌, ◌⊎◌, if◌then◌else◌, inl, inr, none, some, length-append,
  length-replicate, ◌&&◌,
}
use split_naira.Amounts.{
  is_digit, all_digits, split_point, is_fraction_part, value_from, pad_fraction, pad_start,
  strip_zeros,
}

-- A text of digits holds no point.
pub split_point-digits : (s : Text) → all_digits s ≡ true → split_point s ≡ (s, none)
unfolding split_point all_digits is_digit
split_point-digits [] h = refl
split_point-digits (c ∷ s) h = ground (arith, split_point-digits s)

pub split_point_joined :
    (s t : Text) → all_digits s ≡ true → split_point (s ++ (b'.' ∷ t)) ≡ (s, some t)
unfolding split_point all_digits is_digit
split_point_joined [] t h = refl
split_point_joined (c ∷ s) t h = ground (arith, split_point_joined s t)

value_from-zeros : (k : ℕ) (s : Text) → value_from 0 (replicate k b'0' ++ s) ≡ value_from 0 s
unfolding value_from
value_from-zeros zero s = refl
value_from-zeros (suc k) s = value_from-zeros k s

pub value_from-pad_start : (s : Text) → value_from 0 (pad_start s) ≡ value_from 0 s
unfolding pad_start
value_from-pad_start s = value_from-zeros (7 - length s) s

pub length-pad_start : (s : Text) → length s ≤ 7 → length (pad_start s) ≡ 7
unfolding pad_start
length-pad_start s h = omega (
  arith,
  length-append (replicate (7 - length s) b'0') s,
  length-replicate {A = ℕ} (7 - length s) b'0',
)

all_digits-zeros :
    (k : ℕ) (s : Text) → all_digits s ≡ true → all_digits (replicate k b'0' ++ s) ≡ true
unfolding all_digits is_digit
all_digits-zeros zero s h = h
all_digits-zeros (suc k) s h = all_digits-zeros k s h

pub all_digits-pad_start : (s : Text) → all_digits s ≡ true → all_digits (pad_start s) ≡ true
unfolding pad_start
all_digits-pad_start s h = all_digits-zeros (7 - length s) s h

strip_step : ℕ → Text → Text
strip_step c rest = if c == b'0' && is_empty rest then [] else c ∷ rest

strip_step-cases :
    (c : ℕ) (rest : Text)
    → ((c ≡ b'0') × (rest ≡ []) × (strip_step c rest ≡ [])) ⊎ (strip_step c rest ≡ c ∷ rest)
unfolding strip_step
strip_step-cases c [] = ground arith
strip_step-cases c (d ∷ rest) = ground arith

-- A zero is stripped if nothing is left behind it; every other digit stays.
strip_zeros-cases :
    (c : ℕ) (s : Text)
    → ((c ≡ b'0') × (strip_zeros s ≡ []) × (strip_zeros (c ∷ s) ≡ []))
      ⊎ (strip_zeros (c ∷ s) ≡ c ∷ strip_zeros s)
unfolding strip_step strip_zeros
strip_zeros-cases c s = strip_step-cases c (strip_zeros s)

-- What is stripped is zeros: filled up with zeros again, the text is the same.
take-strip_zeros :
    (s : Text) (m : ℕ) → length s ≤ m → take (length s) (strip_zeros s ++ replicate m b'0') ≡ s
take-strip_zeros [] m h = unfold strip_zeros in refl
take-strip_zeros (c ∷ s) zero h = absurd (omega arith)
take-strip_zeros (c ∷ s) (suc m) h = elim (strip_zeros-cases c s) [
  | inl (zero_digit, none_left, stripped) ↦
      rw (stripped, zero_digit)
        (ap (◌∷◌ b'0') (rw none_left at (take-strip_zeros s m (omega arith))))
  | inr kept ↦ rw kept (ap (◌∷◌ c) (take-strip_zeros s (suc m) (omega arith)))
]

pub pad_fraction-strip_zeros : (s : Text) → length s ≡ 7 → pad_fraction (strip_zeros s) ≡ s
pad_fraction-strip_zeros s h =
    ap (λ n. take n (strip_zeros s ++ replicate 7 b'0')) (sym h)
    ∙ take-strip_zeros s 7 (omega arith)

strip_zeros-facts :
    (s : Text)
    → all_digits s ≡ true
    → (length (strip_zeros s) ≤ length s) × (all_digits (strip_zeros s) ≡ true)
unfolding strip_zeros all_digits
strip_zeros-facts [] h = ground arith
strip_zeros-facts (c ∷ s) h = ground (arith, strip_zeros-facts s)

stripped_empty : (s : Text) → strip_zeros s ≡ [] → value_from 0 s ≡ 0
unfolding value_from
stripped_empty [] h = refl
stripped_empty (c ∷ s) h = elim (strip_zeros-cases c s) [
  | inl (zero_digit, none_left, stripped) ↦ rw zero_digit (stripped_empty s none_left)
  | inr kept ↦ absurd (cc (kept, h))
]

long_enough : (s : Text) → s ≢ [] → 1 ≤ length s
long_enough [] h = absurd (h refl)
long_enough (c ∷ s) h = omega arith

pub is_fraction_part-strip_zeros :
    (s : Text)
    → length s ≡ 7
    → all_digits s ≡ true
    → 0 < value_from 0 s
    → is_fraction_part (some (strip_zeros s)) ≡ true
unfolding is_fraction_part
is_fraction_part-strip_zeros s l d p =
    let (short, digits) = strip_zeros-facts s d in
    let some_left = long_enough (strip_zeros s) (λ e. omega (arith, stripped_empty s e)) in
    ground arith
