-- ===== src/Client/Distribution.antt =====
-- The preview of a distribution (frontend/src/lib/amounts.ts, previewDistribution).
use split_naira.Prelude.{
  ℕ, suc, ◌+◌, ◌-◌, ◌*◌, ◌/◌, ◌≤◌, ◌≡◌, ◌⊎◌, inl, inr, refl, subst, false, ◌||◌, List, [], ◌∷◌,
  none, some, arith, ltb, ◌==◌, if_true, if_false, le→leb, length, sum_by,
}
use native.Mathlib.Nat.{div-mul-le_self, mul-add, mul-le-mul_left}
use split_naira.Prelude.Int.{pos}
use split_naira.Client.{
  PreviewCollaborator, DistributionShare, difference, floor_share, shares_from,
  preview_distribution,
}

abbrev pub points_of : List PreviewCollaborator → ℕ
points_of collaborators = sum_by (λ (c : PreviewCollaborator). c.basis_points) collaborators

-- One share for each collaborator, in order, of natural amounts that add up to a sum: each is at least
-- the floor of its own part, and all but the last are that floor.
abbrev pub IsPaidOut : ℕ → ℕ → List PreviewCollaborator → List DistributionShare → Type 0
IsPaidOut balance sum [] [] = sum ≡ 0
IsPaidOut balance sum (collab ∷ others) (share ∷ shares) =
    (n : ℕ) × (rest : ℕ) × (share.collaborator ≡ collab)
    × (share.amount ≡ pos n)
    × (balance * collab.basis_points / 10000 ≤ n)
    × ((others ≡ []) ⊎ (n ≡ balance * collab.basis_points / 10000))
    × (sum ≡ n + rest)
    × IsPaidOut balance rest others shares
IsPaidOut balance sum _ _ = ⊥

difference_exact : (a b : ℕ) → b ≤ a → difference a b ≡ pos (a - b)
difference_exact a b h = if_true (pos (a - b)) _ (le→leb b a h)

-- What was sent and what the others may get still fit in the balance.
abbrev Fits : ℕ → ℕ → ℕ → Type 0
Fits balance sent points = sent * 10000 + balance * points ≤ balance * 10000

shares_from-IsPaidOut :
    (balance sent : ℕ) (first : PreviewCollaborator) (others : List PreviewCollaborator)
    → Fits balance sent (points_of (first ∷ others))
    → IsPaidOut balance
        (balance - sent)
        (first ∷ others)
        (shares_from balance sent (first ∷ others))
unfolding shares_from
shares_from-IsPaidOut balance sent first [] h =
    let floor = div-mul-le_self (balance * first.basis_points) 10000 in
    let points = mul-add balance first.basis_points 0 in
    (
      balance - sent,
      0,
      refl,
      difference_exact balance sent (omega (arith, h)),
      omega (arith, h, floor, points),
      inl refl,
      omega arith,
      refl,
    )
shares_from-IsPaidOut balance sent first (next ∷ others) h =
    let amount = floor_share balance first in
    let floor = div-mul-le_self (balance * first.basis_points) 10000 in
    let points = mul-add balance first.basis_points (points_of (next ∷ others)) in
    (
      amount,
      balance - (sent + amount),
      refl,
      refl,
      omega arith,
      inr refl,
      omega (arith, h, floor, points),
      shares_from-IsPaidOut balance (sent + amount) next others (omega (arith, h, floor, points)),
    )

accepted :
    (n balance : ℕ) → suc n ≤ balance → (suc n == 0 || balance == 0 || ltb balance (suc n)) ≡ false
accepted n balance h = ground arith

no_less : (n : ℕ) → n - 0 ≡ n
no_less n = omega arith

-- Where there is a collaborator, their basis points add up to at most 10,000 and the balance has at
-- least one unit for each, the preview shows one natural amount for each collaborator, in order: the
-- floor of its part of the balance for all but the last, at least that for the last, and together
-- they add up to the balance.
pub preview_distribution-IsPaidOut :
    (balance : ℕ) (first : PreviewCollaborator) (others : List PreviewCollaborator)
    → points_of (first ∷ others) ≤ 10000
    → length (first ∷ others) ≤ balance
    → (shares : List DistributionShare) × (preview_distribution (pos balance) (first ∷ others)
        ≡ some shares)
      × IsPaidOut balance balance (first ∷ others) shares
unfolding preview_distribution
preview_distribution-IsPaidOut balance first others fits enough =
    let shown : (length (first ∷ others) == 0
          || balance == 0
          || ltb balance (length (first ∷ others)))
        ≡ false =
      accepted (length others) balance enough in
    let scaled = mul-le-mul_left balance fits in
    (
      shares_from balance 0 (first ∷ others),
      if_false none (some (shares_from balance 0 (first ∷ others))) shown,
      subst (λ n. IsPaidOut balance n (first ∷ others) (shares_from balance 0 (first ∷ others)))
          (no_less balance) (shares_from-IsPaidOut balance 0 first others (omega (arith, scaled))),
    )
