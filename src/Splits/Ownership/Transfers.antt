-- ===== src/Splits/Ownership/Transfers.antt =====
-- Who may transfer a project, and who owns it afterwards.
use split_naira.Prelude.{
  ℕ, ◌≡◌, ◌≢◌, ◌≤◌, ◌↔◌, ◌⊎◌, refl, Text, text_eq, text_eq_iff, text_eq_refl, is_empty, true, false,
  Option, none, some, arith, Bool-cases, inl, inr, not, is_ok, length, ◌||◌, ltb,
}
use split_naira.Prelude.Dict.{get, set, get-set}
use split_naira.Splits.Ownership.{
  Ownership, transfer_ownership, transfer_from, transferred, norm, is_current_owner, is_owner,
}

-- The current owner asks, and hands the project to another wallet of at least four characters.
abbrev pub MayTransfer : Ownership → Text → Text → Text → Type 0
MayTransfer o project_id actor new_owner =
    (is_current_owner o project_id actor ≡ true)
    × (4 ≤ length (norm new_owner))
    × (norm new_owner ≢ norm actor)

from_iff :
    (o : Ownership) (id project_id : Text) (found : Option Text) (actor new_owner : Text) (at : ℕ)
    → (is_ok (transfer_from o id project_id found actor new_owner at).1 ≡ true)
      ↔ ((is_owner found actor ≡ true) × (4 ≤ length new_owner) × (new_owner ≢ actor))
unfolding transfer_from
from_iff o id project_id none actor new_owner at = ground arith
from_iff o id project_id (some c) actor new_owner at =
    ground (arith, text_eq_iff actor c, text_eq_iff c actor, text_eq_iff new_owner c)

-- A transfer succeeds exactly when the actor is the current owner of the project and the new owner,
-- in normal form, has four characters or more and is another wallet.
pub transfer_ownership_iff :
    (o : Ownership) (id project_id actor new_owner : Text) (at : ℕ)
    → (is_ok (transfer_ownership o id project_id actor new_owner at).1 ≡ true)
      ↔ MayTransfer o project_id actor new_owner
unfolding transfer_ownership is_current_owner
transfer_ownership_iff o id project_id actor new_owner at =
    from_iff o id project_id (get project_id o.owners) (norm actor) (norm new_owner) at

-- What a transfer leaves: after a failure the state it found, and after a success the new owner
-- alone in charge of this project, every other project with its owner.
abbrev pub IsMoved : Ownership → Ownership → Text → Text → Type 0
IsMoved o o' project_id new_owner =
    ((wallet : Text)
      → is_current_owner o' project_id wallet ≡ text_eq (norm new_owner) (norm wallet))
    × ((other wallet : Text)
        → text_eq project_id other ≡ false
        → is_current_owner o' other wallet ≡ is_current_owner o other wallet)

set_moves :
    (o o' : Ownership) (project_id new_owner : Text)
    → o'.owners ≡ set project_id (norm new_owner) o.owners
    → is_empty (norm new_owner) ≡ false
    → IsMoved o o' project_id new_owner
unfolding is_current_owner
set_moves o o' project_id new_owner e present = (
  λ wallet. rw (e, get-set, text_eq_refl, present) refl,
  λ other wallet differs. rw (e, get-set, differs) refl,
)

from_moves :
    (o : Ownership) (id project_id : Text) (found : Option Text) (actor new_owner : Text) (at : ℕ)
    → ((transfer_from o id project_id found actor (norm new_owner) at).0 ≡ o)
        × (is_ok (transfer_from o id project_id found actor (norm new_owner) at).1 ≡ false)
      ⊎ IsMoved o
          (transfer_from o id project_id found actor (norm new_owner) at).0
          project_id
          new_owner
        × (is_ok (transfer_from o id project_id found actor (norm new_owner) at).1 ≡ true)
unfolding transfer_from
from_moves o id project_id none actor new_owner at = inl (refl, refl)
from_moves o id project_id (some c) actor new_owner at = elim (Bool-cases (is_empty c)) [
  | inl e1 ↦ inl (rw e1 refl, rw e1 refl)
  | inr e1 ↦ elim (Bool-cases (not (text_eq actor c))) [
    | inl e2 ↦ inl (rw (e1, e2) refl, rw (e1, e2) refl)
    | inr e2 ↦ elim (Bool-cases (is_empty (norm new_owner) || ltb (length (norm new_owner)) 4)) [
      | inl e3 ↦ inl (rw (e1, e2, e3) refl, rw (e1, e2, e3) refl)
      | inr e3 ↦ elim (Bool-cases (text_eq (norm new_owner) c)) [
        | inl e4 ↦ inl (rw (e1, e2, e3, e4) refl, rw (e1, e2, e3, e4) refl)
        | inr e4 ↦ inr (
          rw (e1, e2, e3, e4)
              (set_moves o (transferred o id project_id c (norm new_owner) at) project_id new_owner
                refl (ground arith)),
          rw (e1, e2, e3, e4) refl,
        )
      ]
    ]
  ]
]

-- A transfer that fails changes nothing; one that succeeds makes the new owner, and no other
-- wallet, the current owner of the project, and leaves the owners of all other projects.
transfer_ownership-IsMoved :
    (o : Ownership) (id project_id actor new_owner : Text) (at : ℕ)
    → ((transfer_ownership o id project_id actor new_owner at).0 ≡ o)
        × (is_ok (transfer_ownership o id project_id actor new_owner at).1 ≡ false)
      ⊎ IsMoved o (transfer_ownership o id project_id actor new_owner at).0 project_id new_owner
        × (is_ok (transfer_ownership o id project_id actor new_owner at).1 ≡ true)
unfolding transfer_ownership
transfer_ownership-IsMoved o id project_id actor new_owner at =
    from_moves o id project_id (get project_id o.owners) (norm actor) new_owner at
