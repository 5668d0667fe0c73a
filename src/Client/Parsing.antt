-- ===== src/Client/Parsing.antt =====
-- The browser's reading of an amount (frontend/src/lib/amounts.ts, parseTokenAmount) against the
-- server's (backend/src/lib/decimal-amounts.ts, toUnits).
use split_naira.Prelude.{
  ℕ, ◌≤◌, ◌≡◌, refl, ap, ◌∙◌, Text, trim, is_empty, is_space, trim_start, trim_end, Bool, true,
  false, not, ◌&&◌, [], ◌∷◌, Option, none, some, arith, leb, ◌==◌, if_false, Bool-cases, inl, inr,
  and_true, length, ok,
}
use split_naira.Amounts.{
  is_digit, all_digits, split_point, is_whole_part, is_fraction_part, amount_pattern, fraction_text,
  to_units_unchecked, to_units,
}
use split_naira.Amounts.RoundTrip.{to_units-le}
use split_naira.Client.{decimal_pattern, parse_trimmed, parse_token_amount}

-- Texts without white space are not trimmed.
is_solid : Text → Bool
is_solid [] = true
is_solid (c ∷ s) = not (is_space c) && is_solid s

trim_end-solid : (s : Text) → is_solid s ≡ true → trim_end s ≡ s
unfolding is_solid trim_end
trim_end-solid [] h = refl
trim_end-solid (c ∷ s) h =
    let (solid, others) = and_true (not (is_space c)) (is_solid s) h in
    ground (arith, trim_end-solid s others)

trim-solid : (s : Text) → is_solid s ≡ true → trim s ≡ s
unfolding is_solid trim trim_start
trim-solid [] h = trim_end-solid [] h
trim-solid (c ∷ s) h =
    let (solid, others) = and_true (not (is_space c)) (is_solid s) h in
    let kept : is_space c ≡ false = ground arith in
    ap trim_end (if_false (trim_start s) (c ∷ s) kept) ∙ trim_end-solid (c ∷ s) h

not_space : (c : ℕ) → 46 ≤ c → c ≤ 57 → is_space c ≡ false
unfolding is_space
not_space c low high = ground arith

digit-solid : (c : ℕ) → is_digit c ≡ true → is_space c ≡ false
unfolding is_digit
digit-solid c h = not_space c (ground arith) (ground arith)

digits-solid : (s : Text) → all_digits s ≡ true → is_solid s ≡ true
unfolding all_digits is_solid
digits-solid [] h = refl
digits-solid (c ∷ s) h =
    let (digit, others) = and_true (is_digit c) (all_digits s) h in
    rw (digit-solid c digit) (digits-solid s others)

-- The two parts around the point, one by one.
split-solid :
    (s : Text)
    → all_digits (split_point s).0 ≡ true
    → all_digits (fraction_text (split_point s).1) ≡ true
    → is_solid s ≡ true
unfolding split_point all_digits is_solid
split-solid [] h k = refl
split-solid (c ∷ s) h k = elim (Bool-cases (c == 46)) [
  | inl point ↦
      let rest = (rw (point) at k) in
      let here : is_space c ≡ false = not_space c (ground arith) (ground arith) in
      rw (here) (digits-solid s rest)
  | inr digit ↦
      let (first, whole) = and_true (is_digit c) (all_digits (split_point s).0) (rw (digit) at h) in
      rw (digit-solid c first) (split-solid s whole (rw (digit) at k))
]

whole-decimal : (s : Text) → is_whole_part s ≡ true → (is_empty s ≡ false) × (all_digits s ≡ true)
unfolding is_whole_part all_digits is_digit
whole-decimal [] h = absurd (cc h)
whole-decimal (c ∷ []) h = (refl, ground arith)
whole-decimal (c ∷ d ∷ s) h = (refl, ground arith)

fraction-decimal :
    (f : Option Text)
    → is_fraction_part f ≡ true
    → (leb (length (fraction_text f)) 7 ≡ true) × (all_digits (fraction_text f) ≡ true)
unfolding is_fraction_part all_digits
fraction-decimal none h = (refl, refl)
fraction-decimal (some s) h = ground arith

no_point : (s : Text) → is_empty (split_point s).0 ≡ false → is_empty s ≡ false
unfolding split_point
no_point [] h = absurd (cc h)
no_point (c ∷ s) h = refl

pattern_parts :
    (s : Text)
    → amount_pattern s ≡ true
    → (is_whole_part (split_point s).0 ≡ true) × (is_fraction_part (split_point s).1 ≡ true)
unfolding amount_pattern
pattern_parts s h =
    and_true (is_whole_part (split_point s).0) (is_fraction_part (split_point s).1) h

parsed :
    (s : Text)
    → is_empty s ≡ false
    → decimal_pattern s ≡ true
    → leb (length (fraction_text (split_point s).1)) 7 ≡ true
    → parse_trimmed s ≡ ok (to_units_unchecked s)
unfolding parse_trimmed to_units_unchecked
parsed s filled shaped short = rw (parse_trimmed, filled, shaped, short) refl

same_units : (s : Text) (u : ℕ) → to_units s ≡ ok u → to_units_unchecked s ≡ u
unfolding to_units
same_units s u h = ground arith

decimal_shaped :
    (s : Text)
    → is_empty (split_point s).0 ≡ false
    → all_digits (split_point s).0 ≡ true
    → all_digits (fraction_text (split_point s).1) ≡ true
    → decimal_pattern s ≡ true
unfolding decimal_pattern
decimal_shaped s a b c = ground arith

-- Each amount that the server accepts the browser reads as the same units.
pub parse_token_amount-to_units :
    (s : Text) (u : ℕ) → to_units s ≡ ok u → parse_token_amount s ≡ ok u
unfolding parse_token_amount
parse_token_amount-to_units s u h =
    let (fits, shaped) = to_units-le s h in
    let (whole, fraction) = pattern_parts s shaped in
    let (filled, digits) = whole-decimal (split_point s).0 whole in
    let (short, decimals) = fraction-decimal (split_point s).1 fraction in
    let untrimmed = trim-solid s (split-solid s digits decimals) in
    ap parse_trimmed untrimmed
    ∙ parsed s (no_point s filled) (decimal_shaped s filled digits decimals) short
    ∙ ap ok (same_units s u h)
