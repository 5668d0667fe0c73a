-- ===== src/Collaboration/Invitations/Closed.antt =====
-- The records of the invitation registry
-- (backend/src/services/collaboration/invitation-registry.ts) that are no longer pending, under
-- the single operations.
use split_naira.Prelude.{
  ℕ, ◌≡◌, refl, Text, trim, is_empty, ◌||◌, text_eq, text_eq_iff, true, false, ◌&&◌, Option, none,
  some, arith, leb, Bool-cases, inl, inr, and_true,
}
use split_naira.Prelude.Dict.{Dict, get, set, get-set, get-set_self}
use split_naira.Lifecycle.{Deadline, at, not_a_date}
use split_naira.Collaboration.Invitations.{
  InvitationStatus, pending, accepted, cancelled, expired, InvitationRecord, Registry, is_pending,
  mark_expired_if_needed, InvitationInput, register_until, cancel_pending, cancel_as, cancel_found,
  cancel_invitation, matches, trimmed,
}

-- Every record of `m` that is not pending stands unchanged in `m'`.
abbrev pub KeepsClosed : Dict InvitationRecord → Dict InvitationRecord → Type 0
KeepsClosed m m' =
    (key : Text) (r : InvitationRecord)
    → get key m ≡ some r
    → is_pending r.status ≡ false
    → get key m' ≡ some r

pub KeepsClosed-refl : (m : Dict InvitationRecord) → KeepsClosed m m
KeepsClosed-refl m key r h p = h

pub KeepsClosed-trans :
    (a b c : Dict InvitationRecord) → KeepsClosed a b → KeepsClosed b c → KeepsClosed a c
KeepsClosed-trans a b c h k key r e p = k key r (h key r e p) p

-- A write at the key of a pending record, or at a free key, keeps the closed records.
pub KeepsClosed-set :
    (m : Dict InvitationRecord) (key : Text) (new : InvitationRecord)
    → ((r : InvitationRecord) → get key m ≡ some r → is_pending r.status ≡ true)
    → KeepsClosed m (set key new m)
KeepsClosed-set m key new open_there j r h p = rw (get-set) (elim (Bool-cases (text_eq key j)) [
  | inr other ↦ rw other h
  | inl same ↦ absurd (cc (open_there r (rw (← (text_eq_iff key j).0 same) at h), p))
])

pub mark-KeepsClosed :
    (reg : Registry) (key : Text) (r : InvitationRecord) (now : ℕ)
    → get key reg.invitations ≡ some r
    → KeepsClosed reg.invitations (mark_expired_if_needed reg key r now).0.invitations
unfolding mark_expired_if_needed
mark-KeepsClosed reg key r now h = elim (Bool-cases (is_pending r.status && leb r.expires_at now)) [
  | inr stays ↦ rw stays (KeepsClosed-refl reg.invitations)
  | inl due ↦ rw due (
      KeepsClosed-set reg.invitations key _
        (λ r' e. ground (arith, and_true (is_pending r.status) (leb r.expires_at now))))
]

-- Unless a record is pending when it is marked, nothing happens to it.
pub mark-still_there :
    (reg : Registry) (key : Text) (r : InvitationRecord) (now : ℕ)
    → get key reg.invitations ≡ some r
    → get key (mark_expired_if_needed reg key r now).0.invitations
      ≡ some (mark_expired_if_needed reg key r now).1
unfolding mark_expired_if_needed
mark-still_there reg key r now h = elim (Bool-cases (is_pending r.status && leb r.expires_at now)) [
  | inr stays ↦ rw stays h
  | inl due ↦ rw due (get-set_self key _ reg.invitations)
]

pub set_pending-KeepsClosed :
    (m : Dict InvitationRecord) (key : Text) (r new : InvitationRecord)
    → get key m ≡ some r
    → is_pending r.status ≡ true
    → KeepsClosed m (set key new m)
set_pending-KeepsClosed m key r new h p = KeepsClosed-set m key new (λ r' e'. ground arith)

pub cancel_pending-KeepsClosed :
    (reg : Registry) (key : Text) (r : InvitationRecord) (actor : Text) (owner : Option Text)
    (clock : ℕ)
    → get key reg.invitations ≡ some r
    → is_pending r.status ≡ true
    → KeepsClosed reg.invitations (cancel_pending reg key r actor owner clock).0.invitations
unfolding cancel_pending
cancel_pending-KeepsClosed reg key r actor owner clock h p =
    elim (Bool-cases (is_empty (trim actor))) [
      | inl none_given ↦ rw none_given (KeepsClosed-refl reg.invitations)
      | inr given ↦
          elim (Bool-cases (
            matches (trim actor) (trimmed r.inviter_wallet_address)
            || matches (trim actor) (trimmed owner))) [
              | inl allowed ↦
                  rw (given, allowed) (set_pending-KeepsClosed reg.invitations key r _ h p)
              | inr refused ↦ rw (given, refused) (KeepsClosed-refl reg.invitations)
            ]
    ]

pub cancel_as-KeepsClosed :
    (status : InvitationStatus) (reg : Registry) (key : Text) (r : InvitationRecord) (actor : Text)
    (owner : Option Text) (clock : ℕ)
    → r.status ≡ status
    → get key reg.invitations ≡ some r
    → KeepsClosed reg.invitations (cancel_as status reg key r actor owner clock).0.invitations
unfolding cancel_as
cancel_as-KeepsClosed pending reg key r actor owner clock e h =
    cancel_pending-KeepsClosed reg key r actor owner clock h (ground arith)
cancel_as-KeepsClosed accepted reg key r actor owner clock e h = KeepsClosed-refl reg.invitations
cancel_as-KeepsClosed cancelled reg key r actor owner clock e h = KeepsClosed-refl reg.invitations
cancel_as-KeepsClosed expired reg key r actor owner clock e h = KeepsClosed-refl reg.invitations

pub cancel_found-KeepsClosed :
    (reg : Registry) (key : Text) (found : Option InvitationRecord) (actor : Text)
    (owner : Option Text) (clock : ℕ)
    → get key reg.invitations ≡ found
    → KeepsClosed reg.invitations (cancel_found reg key found actor owner clock).0.invitations
unfolding cancel_found
cancel_found-KeepsClosed reg key none actor owner clock h = KeepsClosed-refl reg.invitations
cancel_found-KeepsClosed reg key (some r) actor owner clock h =
    KeepsClosed-trans reg.invitations _ _ (mark-KeepsClosed reg key r clock h) (
      cancel_as-KeepsClosed _ (mark_expired_if_needed reg key r clock).0 key
        (mark_expired_if_needed reg key r clock).1 actor owner clock refl
        (mark-still_there reg key r clock h))

pub cancel_invitation-KeepsClosed :
    (reg : Registry) (id actor : Text) (owner : Option Text) (clock : ℕ)
    → KeepsClosed reg.invitations (cancel_invitation reg id actor owner clock).0.invitations
unfolding cancel_invitation
cancel_invitation-KeepsClosed reg id actor owner clock =
    cancel_found-KeepsClosed reg id _ actor owner clock refl

-- A registration that draws a fresh id.
pub register_until-KeepsClosed :
    (reg : Registry) (id : Text) (input : InvitationInput) (now : ℕ) (d : Deadline)
    → get id reg.invitations ≡ none
    → KeepsClosed reg.invitations (register_until reg id input now d).0.invitations
unfolding register_until
register_until-KeepsClosed reg id input now not_a_date fresh = KeepsClosed-refl reg.invitations
register_until-KeepsClosed reg id input now (at t) fresh = elim (Bool-cases (leb t now)) [
  | inl past ↦ rw past (KeepsClosed-refl reg.invitations)
  | inr later ↦ rw later (KeepsClosed-set reg.invitations id _ (λ r e. absurd (cc (e, fresh))))
]
