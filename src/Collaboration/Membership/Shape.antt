-- ===== src/Collaboration/Membership/Shape.antt =====
-- The shape of a record (backend/src/services/collaboration/membership-changes.ts): one entry for
-- an address, none for the owner, no entry with the owner's role.
use split_naira.Prelude.{
  ◌+◌, ◌≡◌, ◌≢◌, refl, sym, ap, ◌∙◌, Text, text_eq_iff, trim, trim-trim, List, [], ◌∷◌, ◌++◌,
  Option, none, some, arith, All, All-append, find, ok,
}
use split_naira.Collaboration.Permissions.{CollaboratorRole, owner}
use split_naira.Collaboration.Membership.{
  CollaboratorEntry, CollaborationRecord, CollaborationChange, add, remove, set_role, role_of,
  target_of, is_entry_of, remove_first, update_first, check_new, edit, find_existing,
  plan_collaboration_change,
}
use split_naira.Collaboration.Membership.Plans.{plan-Planned}

abbrev pub Differs : Text → CollaboratorEntry → Type 0
Differs address c = trim c.address ≢ address

-- No two entries have the same address.
abbrev pub Distinct : List CollaboratorEntry → Type 0
Distinct [] = Unit
Distinct (c ∷ cs) = All (Differs (trim c.address)) cs × Distinct cs

pub record IsWellFormed (r : CollaborationRecord) : Type 0 where
  pub distinct : Distinct r.collaborators
  pub not_owner : All (Differs (trim r.owner)) r.collaborators
  pub no_owner_role : All (λ c. c.role ≢ owner) r.collaborators

find-none :
    (target : Text) (cs : List CollaboratorEntry)
    → find (is_entry_of target) cs ≡ none
    → All (Differs target) cs
find-none target [] h = tt
find-none target (c ∷ cs) h =
    ground (arith, text_eq_iff (trim c.address) target, find-none target cs)

module _ (P : CollaboratorEntry → Type 0) where
  All-remove_first :
      (target : Text) (cs : List CollaboratorEntry) → All P cs → All P (remove_first target cs)
  unfolding remove_first
  All-remove_first target [] h = tt
  All-remove_first target (c ∷ cs) h = ground (arith, All-remove_first target cs h.1)

  All-update_first :
      (target : Text) (role : CollaboratorRole) (cs : List CollaboratorEntry)
      → ((c : CollaboratorEntry) → P c → P (record c { role = role }))
      → All P cs
      → All P (update_first target role cs)
  unfolding update_first
  All-update_first target role [] f h = tt
  All-update_first target role (c ∷ cs) f h =
      ground (arith, f c h.0, All-update_first target role cs f h.1)

Distinct-append :
    (cs : List CollaboratorEntry) (c : CollaboratorEntry)
    → Distinct cs
    → All (Differs (trim c.address)) cs
    → Distinct (cs ++ c ∷ [])
Distinct-append [] c d h = (tt, tt)
Distinct-append (x ∷ xs) c d h = (
  All-append (Differs (trim x.address)) xs (c ∷ []) d.0 (λ e. h.0 (sym e), tt),
  Distinct-append xs c d.1 h.1,
)

Distinct-remove_first :
    (target : Text) (cs : List CollaboratorEntry) → Distinct cs → Distinct (remove_first target cs)
unfolding remove_first
Distinct-remove_first target [] d = tt
Distinct-remove_first target (c ∷ cs) d = ground (
  arith,
  All-remove_first (Differs (trim c.address)) target cs d.0,
  Distinct-remove_first target cs d.1,
)

Distinct-update_first :
    (target : Text) (role : CollaboratorRole) (cs : List CollaboratorEntry)
    → Distinct cs
    → Distinct (update_first target role cs)
unfolding update_first
Distinct-update_first target role [] d = tt
Distinct-update_first target role (c ∷ cs) d = ground (
  arith,
  All-update_first (Differs (trim c.address)) target role cs (λ x h. h) d.0,
  Distinct-update_first target role cs d.1,
)

-- The three forms of an edited list.
data Edited (target : Text) (role : Option CollaboratorRole) (cs next : List CollaboratorEntry)
    : Type 0 where
  added :
      (new : CollaboratorRole)
      → role ≡ some new
      → All (Differs target) cs
      → next ≡ cs ++ record { address = target; role = new } ∷ []
      → Edited target role cs next
  removed : next ≡ remove_first target cs → Edited target role cs next
  updated :
      (new : CollaboratorRole)
      → role ≡ some new
      → next ≡ update_first target new cs
      → Edited target role cs next

edit-Edited :
    (change : CollaborationChange) (target : Text) (cs : List CollaboratorEntry)
    (existing : Option CollaboratorEntry) {next : List CollaboratorEntry}
    → find_existing target cs ≡ existing
    → check_new change existing ≡ ok tt
    → edit change target existing cs ≡ ok next
    → Edited target (role_of change) cs next
unfolding edit
edit-Edited (add address role) target cs none f n e =
    added role refl (find-none target cs f) (ground arith)
edit-Edited (add address role) target cs (some x) f n e = cc
edit-Edited (remove address) target cs none f n e = cc
edit-Edited (remove address) target cs (some x) f n e = removed (ground arith)
edit-Edited (set_role address role) target cs none f n e = cc
edit-Edited (set_role address role) target cs (some x) f n e = updated role refl (ground arith)

Edited-Distinct :
    {target : Text} {role : Option CollaboratorRole} {cs next : List CollaboratorEntry}
    → trim target ≡ target
    → Edited target role cs next
    → Distinct cs
    → Distinct next
Edited-Distinct {target} {cs} t (added new r f e) d = rw e (Distinct-append cs _ d (rw t f))
Edited-Distinct {target} {cs} t (removed e) d = rw e (Distinct-remove_first target cs d)
Edited-Distinct {target} {cs} t (updated new r e) d = rw e (Distinct-update_first target new cs d)

-- A property of entries that the new entry and the new role have.
Edited-All :
    (P : CollaboratorEntry → Type 0) {target : Text} {role : Option CollaboratorRole}
    {cs next : List CollaboratorEntry}
    → ((new : CollaboratorRole) → role ≡ some new → P (record { address = target; role = new }))
    → ((new : CollaboratorRole) (c : CollaboratorEntry)
        → role ≡ some new
        → P c
        → P (record c { role = new }))
    → Edited target role cs next
    → All P cs
    → All P next
Edited-All P {cs} n u (added new r f e) h = rw e (All-append P cs _ h (n new r, tt))
Edited-All P {target} {cs} n u (removed e) h = rw e (All-remove_first P target cs h)
Edited-All P {target} {cs} n u (updated new r e) h =
    rw e (All-update_first P target new cs (λ c. u new c r) h)

-- On a record whose entries have distinct addresses, none of them the owner's, and no entry with
-- the owner's role, a planned change gives such a record again, counts the version up by one, and
-- leaves the owner and the project as they are.
pub plan-IsWellFormed :
    (r : CollaborationRecord) (actor : Text) (change : CollaborationChange)
    (next : CollaborationRecord)
    → IsWellFormed r
    → plan_collaboration_change r actor change ≡ ok next
    → IsWellFormed next
      × (next.version ≡ r.version + 1)
      × (next.owner ≡ r.owner)
      × (next.project_id ≡ r.project_id)
plan-IsWellFormed r actor change next w h =
    let p = plan-Planned r actor change h in
    let target = trim (target_of change) in
    let e = edit-Edited change target r.collaborators _ refl p.checked.fresh p.edited in
    let clean = trim-trim (target_of change) in
    let shape : IsWellFormed
        (record r { collaborators = p.collaborators; version = r.version + 1 }) =
      record {
        distinct = Edited-Distinct clean e w.distinct;
        not_owner =
            Edited-All (Differs (trim r.owner)) (λ new q. rw clean p.checked.not_owner)
              (λ new c q k. k) e w.not_owner;
        no_owner_role =
            Edited-All (λ c. c.role ≢ owner) (λ new q o. p.checked.assignable (q ∙ ap some o))
              (λ new c q k o. p.checked.assignable (q ∙ ap some o)) e w.no_owner_role;
      } in
    (
      rw p.result shape,
      ap (λ x. x.version) p.result,
      ap (λ x. x.owner) p.result,
      ap (λ x. x.project_id) p.result,
    )
