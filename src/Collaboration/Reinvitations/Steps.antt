-- ===== src/Collaboration/Reinvitations/Steps.antt =====
-- The records that are no longer pending, under acceptance, lookup, listing and re-invitation
-- (backend/src/services/collaboration/invitation-registry.ts).
use split_naira.Prelude.{
  ℕ, ◌≡◌, refl, Text, ◌&&◌, List, [], ◌∷◌, Option, none, some, arith, Bool-cases, inl, inr, or_else,
  is_empty, ok, err,
}
use split_naira.Prelude.Dict.{Dict, get}
use split_naira.Collaboration.Invitations.{
  InvitationStatus, pending, accepted, cancelled, expired, InvitationRecord, Registry, is_pending,
  mark_expired_if_needed, InvitationInput, register_invitation, expiry_of, cancel_invitation,
  InvitationError, Outcome,
}
use split_naira.Collaboration.Invitations.Closed.{
  KeepsClosed, KeepsClosed-refl, KeepsClosed-trans, mark-KeepsClosed, mark-still_there,
  set_pending-KeepsClosed, cancel_invitation-KeepsClosed, register_until-KeepsClosed,
}
use split_naira.Collaboration.Reinvitations.{
  marked_at, get_invitation_by_id, id_found, get_invitation_by_token_jti, accept_as, accept_found,
  accept_invitation_by_token_jti, text_present, concerns, error_of, cancel_prior, visit_prior,
  visit_all, unless_error, after_visits, mark_all,
}

marked_keeps :
    (reg : Registry) (key : Text) (found : Option InvitationRecord) (now : ℕ)
    → get key reg.invitations ≡ found
    → KeepsClosed reg.invitations (marked_at reg key found now).0.invitations
marked_keeps reg key none now h = KeepsClosed-refl reg.invitations
marked_keeps reg key (some r) now h = mark-KeepsClosed reg key r now h

pub by_id_keeps :
    (reg : Registry) (id : Text) (clock : ℕ)
    → KeepsClosed reg.invitations (get_invitation_by_id reg id clock).0.invitations
unfolding get_invitation_by_id
by_id_keeps reg id clock = marked_keeps reg id (get id reg.invitations) clock refl

id_keeps :
    (reg : Registry) (o : Option Text) (clock : ℕ)
    → KeepsClosed reg.invitations (id_found reg o clock).0.invitations
id_keeps reg none clock = KeepsClosed-refl reg.invitations
id_keeps reg (some id) clock = elim (Bool-cases (is_empty id)) [
  | inl blank ↦ rw blank (KeepsClosed-refl reg.invitations)
  | inr given ↦ rw given (marked_keeps reg id (get id reg.invitations) clock refl)
]

pub by_token_keeps :
    (reg : Registry) (jti : Text) (clock : ℕ)
    → KeepsClosed reg.invitations (get_invitation_by_token_jti reg jti clock).0.invitations
unfolding get_invitation_by_token_jti
by_token_keeps reg jti clock = id_keeps reg (get jti reg.token_index) clock

accept_as_keeps :
    (status : InvitationStatus) (reg : Registry) (key : Text) (r : InvitationRecord) (now : ℕ)
    → r.status ≡ status
    → get key reg.invitations ≡ some r
    → KeepsClosed reg.invitations (accept_as status reg key r now).0.invitations
unfolding accept_as
accept_as_keeps pending reg key r now e h =
    set_pending-KeepsClosed reg.invitations key r _ h (ground arith)
accept_as_keeps accepted reg key r now e h = KeepsClosed-refl reg.invitations
accept_as_keeps cancelled reg key r now e h = KeepsClosed-refl reg.invitations
accept_as_keeps expired reg key r now e h = KeepsClosed-refl reg.invitations

accept_some_keeps :
    (reg : Registry) (key : Text) (r : InvitationRecord) (now : ℕ)
    → get key reg.invitations ≡ some r
    → KeepsClosed reg.invitations (accept_found key now (reg, some r)).0.invitations
unfolding accept_found
accept_some_keeps reg key r now h =
    KeepsClosed-trans reg.invitations _ _ (mark-KeepsClosed reg key r now h) (
      accept_as_keeps _ (mark_expired_if_needed reg key r now).0 key
        (mark_expired_if_needed reg key r now).1 now refl (mark-still_there reg key r now h))

accept_marked_keeps :
    (reg : Registry) (key : Text) (found : Option InvitationRecord) (now clock : ℕ)
    → get key reg.invitations ≡ found
    → KeepsClosed reg.invitations
        (accept_found key now (marked_at reg key found clock)).0.invitations
unfolding accept_found
accept_marked_keeps reg key none now clock h = KeepsClosed-refl reg.invitations
accept_marked_keeps reg key (some r) now clock h =
    KeepsClosed-trans reg.invitations _ _ (mark-KeepsClosed reg key r clock h) (
      accept_some_keeps (mark_expired_if_needed reg key r clock).0 key
        (mark_expired_if_needed reg key r clock).1 now (mark-still_there reg key r clock h))

accept_id_keeps :
    (reg : Registry) (o : Option Text) (now clock : ℕ)
    → KeepsClosed reg.invitations
        (accept_found (or_else o []) now (id_found reg o clock)).0.invitations
unfolding accept_found
accept_id_keeps reg none now clock = KeepsClosed-refl reg.invitations
accept_id_keeps reg (some id) now clock = elim (Bool-cases (is_empty id)) [
  | inl blank ↦ rw blank (KeepsClosed-refl reg.invitations)
  | inr given ↦ rw given (accept_marked_keeps reg id (get id reg.invitations) now clock refl)
]

pub accept_keeps :
    (reg : Registry) (jti : Text) (now clock : ℕ)
    → KeepsClosed reg.invitations (accept_invitation_by_token_jti reg jti now clock).0.invitations
unfolding accept_invitation_by_token_jti get_invitation_by_token_jti
accept_keeps reg jti now clock = accept_id_keeps reg (get jti reg.token_index) now clock

error_of_state : (o : Outcome) → (error_of o).0 ≡ o.0
error_of_state (reg, ok r) = refl
error_of_state (reg, err e) = refl

prior_keeps :
    (reg : Registry) (r : InvitationRecord) (inviter : Option Text) (clock : ℕ)
    → KeepsClosed reg.invitations (cancel_prior (reg, r) inviter clock).0.invitations
unfolding cancel_prior
prior_keeps reg r inviter clock = elim (Bool-cases (is_pending r.status && text_present inviter)) [
  | inr stays ↦ rw stays (KeepsClosed-refl reg.invitations)
  | inl live ↦
      rw (live, error_of_state (cancel_invitation reg r.id (or_else inviter []) none clock))
        (cancel_invitation-KeepsClosed reg r.id (or_else inviter []) none clock)
]

visit_keeps :
    (reg : Registry) (key : Text) (found : Option InvitationRecord) (input : InvitationInput)
    (now clock : ℕ)
    → get key reg.invitations ≡ found
    → KeepsClosed reg.invitations (visit_prior reg key found input now clock).0.invitations
unfolding visit_prior
visit_keeps reg key none input now clock h = KeepsClosed-refl reg.invitations
visit_keeps reg key (some r) input now clock h = elim (Bool-cases (concerns input r)) [
  | inr other ↦ rw other (KeepsClosed-refl reg.invitations)
  | inl same ↦ rw same (
      KeepsClosed-trans reg.invitations _ _ (mark-KeepsClosed reg key r now h) (
        prior_keeps (mark_expired_if_needed reg key r now).0
          (mark_expired_if_needed reg key r now).1 input.inviter_wallet_address clock))
]

pub mark_all_keeps :
    (keys : List Text) (reg : Registry) (now : ℕ)
    → KeepsClosed reg.invitations (mark_all keys reg now).invitations
unfolding mark_all
mark_all_keeps [] reg now = KeepsClosed-refl reg.invitations
mark_all_keeps (key ∷ keys) reg now =
    KeepsClosed-trans reg.invitations _ _ (marked_keeps reg key (get key reg.invitations) now refl)
      (mark_all_keeps keys (marked_at reg key (get key reg.invitations) now).0 now)

either_keeps :
    (m : Dict InvitationRecord) (first : Registry) (error : Option InvitationError)
    (later : Registry × Option InvitationError)
    → KeepsClosed m first.invitations
    → KeepsClosed first.invitations later.0.invitations
    → KeepsClosed m (unless_error first error later).0.invitations
either_keeps m first none later h k = KeepsClosed-trans m _ _ h k
either_keeps m first (some e) later h k = h

pub visit_all_keeps :
    (keys : List Text) (reg : Registry) (input : InvitationInput) (now clock : ℕ)
    → KeepsClosed reg.invitations (visit_all keys reg input now clock).0.invitations
unfolding visit_all
visit_all_keeps [] reg input now clock = KeepsClosed-refl reg.invitations
visit_all_keeps (key ∷ keys) reg input now clock =
    let visited = visit_prior reg key (get key reg.invitations) input now clock in
    either_keeps reg.invitations visited.0 visited.1 (visit_all keys visited.0 input now clock)
      (visit_keeps reg key (get key reg.invitations) input now clock refl)
      (visit_all_keeps keys visited.0 input now clock)

pub register_keeps :
    (reg : Registry) (id : Text) (input : InvitationInput) (now : ℕ)
    → get id reg.invitations ≡ none
    → KeepsClosed reg.invitations (register_invitation reg id input now).0.invitations
unfolding register_invitation
register_keeps reg id input now fresh =
    register_until-KeepsClosed reg id input now (expiry_of input now) fresh

pub after_keeps :
    (visited : Registry × Option InvitationError) (id : Text) (input : InvitationInput) (now : ℕ)
    → get id visited.0.invitations ≡ none
    → KeepsClosed visited.0.invitations (after_visits visited id input now).0.invitations
after_keeps (reg, some e) id input now fresh = KeepsClosed-refl reg.invitations
after_keeps (reg, none) id input now fresh = register_keeps reg id input now fresh
