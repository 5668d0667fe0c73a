-- ===== src/Lifecycle/Participants/Payments.antt =====
-- The payment status of a participant against its records (`deriveParticipantStatuses` of
-- backend/src/lib/split-lifecycle.ts).
use split_naira.Prelude.{
  ℕ, ◌≤◌, ◌≡◌, Any, Any-map, sym, subst, ap, ◌∙◌, Bool-cases, true, ◌↔◌, ◌⊎◌, inl, inr, refl, List,
  [], ◌∷◌, Option, none, some, arith, All,
}
use split_naira.Lifecycle.{paid, unpaid, completed, PaymentRecord, Collaborator, same_address}
use split_naira.Lifecycle.Participants.{
  ParticipantPaymentStatus, precedence, status_of, consider, consider_all, payments_of,
  derive_participant,
}

abbrev pub NotAfter : ℕ → Option ℕ → Type 0
NotAfter t none = ⊥
NotAfter t (some last) = t ≤ last

-- `best` is at least as good as the record `r`.
pub record Beats (best : ParticipantPaymentStatus) (r : PaymentRecord) : Type 0 where
  pub better : precedence (status_of r.status) ≤ precedence best.status
  pub newer :
      precedence (status_of r.status) ≡ precedence best.status
      → NotAfter r.timestamp best.last_updated

-- `best` was taken from the record `r`.
pub record TakenFrom (best : ParticipantPaymentStatus) (r : PaymentRecord) : Type 0 where
  pub same_status : best.status ≡ status_of r.status
  pub same_round : best.round_id ≡ some r.round_id
  pub same_time : best.last_updated ≡ some r.timestamp

consider-Beats : (best : ParticipantPaymentStatus) (r : PaymentRecord) → Beats (consider best r) r
unfolding consider
consider-Beats best r = ground arith

consider_keeps :
    (best : ParticipantPaymentStatus) (r s : PaymentRecord)
    → Beats best s
    → Beats (consider best r) s
unfolding consider
consider_keeps best r s h = ground arith

consider_taken :
    (best : ParticipantPaymentStatus) (r : PaymentRecord)
    → (consider best r ≡ best) ⊎ TakenFrom (consider best r) r
unfolding consider
consider_taken best r = ground arith

consider_all_keeps :
    (rs : List PaymentRecord) (best : ParticipantPaymentStatus) (s : PaymentRecord)
    → Beats best s
    → Beats (consider_all best rs) s
unfolding consider_all
consider_all_keeps [] best s h = h
consider_all_keeps (r ∷ rs) best s h =
    consider_all_keeps rs (consider best r) s (consider_keeps best r s h)

consider_all-Beats :
    (rs : List PaymentRecord) (best : ParticipantPaymentStatus)
    → All (Beats (consider_all best rs)) rs
unfolding consider_all
consider_all-Beats [] best = tt
consider_all-Beats (r ∷ rs) best = (
  consider_all_keeps rs (consider best r) r (consider-Beats best r),
  consider_all-Beats rs (consider best r),
)

consider_all_taken :
    (rs : List PaymentRecord) (best : ParticipantPaymentStatus)
    → (consider_all best rs ≡ best) ⊎ Any (TakenFrom (consider_all best rs)) rs
unfolding consider_all
consider_all_taken [] best = inl refl
consider_all_taken (r ∷ rs) best = elim (consider_all_taken rs (consider best r)) [
  | inr later ↦ inr (inr later)
  | inl same ↦ elim (consider_taken best r) [
    | inl first ↦ inl (same ∙ first)
    | inr now ↦ inr (inl (subst (λ b. TakenFrom b r) (sym same) now))
  ]
]

-- Over the records of a participant's address: the status is at least as good as that of every
-- record, the time at least as late as that of every record of this status, and either there is
-- no record and the status is `unpaid`, or status, round and time are those of one record.
pub derive_participant_best :
    (payments : List PaymentRecord) (c : Collaborator)
    → All (Beats (derive_participant payments c)) (payments_of c payments)
      × (((derive_participant payments c).status ≡ unpaid)
          ⊎ Any (TakenFrom (derive_participant payments c)) (payments_of c payments))
unfolding derive_participant
derive_participant_best payments c = (
  consider_all-Beats (payments_of c payments) _,
  elim (consider_all_taken (payments_of c payments) _) [
    | inl same ↦ inl (ap (λ b. b.status) same)
    | inr taken ↦ inr taken
  ],
)

abbrev pub IsCompletedFor : Collaborator → PaymentRecord → Type 0
IsCompletedFor c r = (same_address r.recipient c.address ≡ true) × (r.status ≡ completed)

Any-payments_of :
    (c : Collaborator) (payments : List PaymentRecord) (P : PaymentRecord → Type 0)
    → Any P (payments_of c payments)
    → Any (λ r. (same_address r.recipient c.address ≡ true) × P r) payments
unfolding payments_of
Any-payments_of c [] P h = h
Any-payments_of c (r ∷ rs) P h = elim (Bool-cases (same_address r.recipient c.address)) [
  | inr other ↦ inr (Any-payments_of c rs P (rw other at h))
  | inl same ↦ elim (rw same at h) [
    | inl here ↦ inl (same, here)
    | inr later ↦ inr (Any-payments_of c rs P later)
  ]
]

paid_of_Beats :
    {best : ParticipantPaymentStatus} {r : PaymentRecord}
    → Beats best r
    → r.status ≡ completed
    → best.status ≡ paid
paid_of_Beats b done = ground arith

completed_of_TakenFrom :
    {best : ParticipantPaymentStatus} {r : PaymentRecord}
    → best.status ≡ paid
    → TakenFrom best r
    → r.status ≡ completed
completed_of_TakenFrom h t = ground arith

Beats-completed :
    (c : Collaborator) (best : ParticipantPaymentStatus) (payments : List PaymentRecord)
    → All (Beats best) (payments_of c payments)
    → Any (IsCompletedFor c) payments
    → best.status ≡ paid
unfolding payments_of
Beats-completed c best [] h found = absurd found
Beats-completed c best (r ∷ rs) h (inl (same, done)) = paid_of_Beats (rw same at h).0 done
Beats-completed c best (r ∷ rs) h (inr later) =
    elim (Bool-cases (same_address r.recipient c.address)) [
      | inl same ↦ Beats-completed c best rs (rw same at h).1 later
      | inr other ↦ Beats-completed c best rs (rw other at h) later
    ]

-- A participant is reported as paid exactly when one of the records that go to its address is
-- completed, whatever other records there are and in whatever order they come.
paid_iff :
    (payments : List PaymentRecord) (c : Collaborator)
    → ((derive_participant payments c).status ≡ paid) ↔ Any (IsCompletedFor c) payments
paid_iff payments c =
    let (beats, taken) = derive_participant_best payments c in
    (
      λ h. elim taken [
        | inl fresh ↦ absurd (cc (fresh, h))
        | inr from ↦
            Any-payments_of c payments (λ r. r.status ≡ completed)
              (Any-map _ _ (λ r t. completed_of_TakenFrom h t) (payments_of c payments) from)
      ],
      λ found. Beats-completed c (derive_participant payments c) payments beats found,
    )
