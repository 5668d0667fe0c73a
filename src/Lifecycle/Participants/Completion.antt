-- ===== src/Lifecycle/Participants/Completion.antt =====
-- The summary of a split's completion.
use split_naira.Prelude.{
  ℕ, ◌+◌, ◌<◌, ◌≡◌, ◌↔◌, refl, List, [], ◌∷◌, Option, Bool, true, not, arith, All, map, length,
  filter, sum_by, length-map, and_true, and_intro, ltb→lt, lt→ltb, ==_iff, ◌∙◌,
}
use split_naira.Lifecycle.{paid, ProjectSnapshot, PaymentRecord, CancellationSnapshot, Collaborator}
use split_naira.Lifecycle.Participants.{
  ParticipantPaymentStatus, is_paid, derive_participant, derive_participant_statuses,
  summarise_completion, consider, consider_all, payments_of, unattempted,
}

module _ {A : Type 0} (p : A → Bool) where
  length-filter_split :
      (xs : List A) → length (filter p xs) + length (filter (λ x. not (p x)) xs) ≡ length xs
  length-filter_split [] = omega arith
  length-filter_split (x ∷ xs) = ground (arith, length-filter_split xs)

  sum_by-filter_split :
      (f : A → ℕ) (xs : List A)
      → sum_by f (filter p xs) + sum_by f (filter (λ x. not (p x)) xs) ≡ sum_by f xs
  sum_by-filter_split f [] = omega arith
  sum_by-filter_split f (x ∷ xs) = ground (arith, sum_by-filter_split f xs)

  -- All pass exactly when as many pass as there are.
  filter_full : (xs : List A) → (length (filter p xs) ≡ length xs) ↔ All (λ x. p x ≡ true) xs
  filter_full [] = (λ _. tt, λ _. refl)
  filter_full (x ∷ xs) = ground (arith, filter_full xs, length-filter_split xs)

consider-basis_points :
    (best : ParticipantPaymentStatus) (r : PaymentRecord)
    → (consider best r).basis_points ≡ best.basis_points
unfolding consider
consider-basis_points best r = ground arith

consider_all-basis_points :
    (rs : List PaymentRecord) (best : ParticipantPaymentStatus)
    → (consider_all best rs).basis_points ≡ best.basis_points
unfolding consider_all
consider_all-basis_points [] best = refl
consider_all-basis_points (r ∷ rs) best =
    consider_all-basis_points rs (consider best r) ∙ consider-basis_points best r

derive_participant-basis_points :
    (payments : List PaymentRecord) (c : Collaborator)
    → (derive_participant payments c).basis_points ≡ c.basis_points
unfolding derive_participant
derive_participant-basis_points payments c =
    consider_all-basis_points (payments_of c payments) (unattempted c)

basis_points_kept :
    (payments : List PaymentRecord) (cs : List Collaborator)
    → sum_by (λ p. p.basis_points) (map (derive_participant payments) cs)
      ≡ sum_by (λ c. c.basis_points) cs
basis_points_kept payments [] = refl
basis_points_kept payments (c ∷ cs) =
    omega (arith, basis_points_kept payments cs, derive_participant-basis_points payments c)

All-paid :
    (payments : List PaymentRecord) (cs : List Collaborator)
    → All (λ p. is_paid p ≡ true) (map (derive_participant payments) cs)
      ↔ All (λ c. (derive_participant payments c).status ≡ paid) cs
All-paid payments [] = (λ h. h, λ h. h)
All-paid payments (c ∷ cs) = ground (arith, All-paid payments cs)

module _ (project : ProjectSnapshot) (payments : List PaymentRecord)
    (cancellation : Option CancellationSnapshot) (now : ℕ) where
  -- The basis points of the paid participants and the outstanding ones together are those of all
  -- collaborators.
  outstanding_conserved :
      sum_by
          (λ p. p.basis_points)
          (filter is_paid (derive_participant_statuses project.collaborators payments))
        + (summarise_completion project payments cancellation now).outstanding_basis_points
      ≡ sum_by (λ c. c.basis_points) project.collaborators
  unfolding summarise_completion derive_participant_statuses
  outstanding_conserved =
      sum_by-filter_split is_paid (λ p. p.basis_points)
        (map (derive_participant payments) project.collaborators)
      ∙ basis_points_kept payments project.collaborators

  -- All participants are reported as paid exactly when there is a participant and each is paid.
  all_participants_paid_iff :
      ((summarise_completion project payments cancellation now).all_participants_paid ≡ true) ↔ (
        (0 < length project.collaborators)
        × All (λ c. (derive_participant payments c).status ≡ paid) project.collaborators)
  unfolding summarise_completion derive_participant_statuses
  all_participants_paid_iff =
      let ps = map (derive_participant payments) project.collaborators in
      let n = length-map (derive_participant payments) project.collaborators in
      let full = filter_full is_paid ps in
      let each = All-paid payments project.collaborators in
      (
        λ h.
            let (some_one, same) = and_true _ _ h in
            (
              omega (arith, n, ltb→lt 0 (length ps) some_one),
              each.0 (full.0 ((==_iff _ _).0 same)),
            ),
        λ (some_one, all).
            and_intro (lt→ltb 0 (length ps) (omega (arith, n)))
              ((==_iff _ _).1 (full.1 (each.1 all))),
      )
