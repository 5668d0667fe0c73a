-- ===== src/Collaboration/Membership/Ranks.antt =====
-- The admins of a record under planned changes
-- (backend/src/services/collaboration/membership-changes.ts).
use split_naira.Prelude.{
  ◌≡◌, ◌≢◌, refl, Text, text_eq, trim, Bool, true, false, List, [], ◌∷◌, ◌++◌, some, arith, filter,
  find, All, map, Option-cases, ok, inl, inr,
}
use split_naira.Collaboration.Permissions.{
  CollaboratorRole, owner, admin, project_update_collaborators, assert_project_permission,
  role_has_permission, RoleEntry, entry_role,
}
use split_naira.Collaboration.Permissions.Matrix.{assert_project_permission_iff}
use split_naira.Collaboration.Membership.{
  CollaboratorEntry, CollaborationRecord, CollaborationChange, add, remove, set_role, as_context,
  outranks, is_entry_of, remove_first, update_first, check_existing, check_granted, role_of,
  target_of, edit, find_existing, plan_collaboration_change,
}
use split_naira.Collaboration.Membership.Plans.{plan-Planned}

abbrev pub is_admin_role : CollaboratorRole → Bool
is_admin_role admin = true
is_admin_role _ = false

abbrev pub is_admin : CollaboratorEntry → Bool
is_admin c = is_admin_role c.role

-- No entry carries the role `owner`, as the source's type of an entry says.
abbrev pub NoOwnerEntry : CollaborationRecord → Type 0
NoOwnerEntry r = All (λ c. c.role ≢ owner) r.collaborators

admins-append :
    (cs : List CollaboratorEntry) (c : CollaboratorEntry)
    → is_admin c ≡ false
    → filter is_admin (cs ++ c ∷ []) ≡ filter is_admin cs
admins-append [] c h = rw h
admins-append (d ∷ ds) c h = ground (arith, admins-append ds c h)

admins-remove_first :
    (target : Text) (cs : List CollaboratorEntry) {e : CollaboratorEntry}
    → find (is_entry_of target) cs ≡ some e
    → is_admin e ≡ false
    → filter is_admin (remove_first target cs) ≡ filter is_admin cs
unfolding remove_first
admins-remove_first target [] f h = refl
admins-remove_first target (c ∷ cs) {e} f h = ground (arith, admins-remove_first target cs {e = e})

admins-update_first :
    (target : Text) (role : CollaboratorRole) (cs : List CollaboratorEntry) {e : CollaboratorEntry}
    → find (is_entry_of target) cs ≡ some e
    → is_admin e ≡ false
    → role ≢ admin
    → filter is_admin (update_first target role cs) ≡ filter is_admin cs
unfolding update_first
admins-update_first target role [] f h n = refl
admins-update_first target role (c ∷ cs) {e} f h n =
    ground (arith, admins-update_first target role cs {e = e})

find-ne-owner :
    (requester : Text) (cs : List CollaboratorEntry)
    → All (λ c. c.role ≢ owner) cs
    → entry_role (
        find
          (λ (c : RoleEntry). text_eq (trim c.address) requester)
          (map (λ c. record { address = c.address; role = some c.role }) cs))
      ≢ some owner
find-ne-owner requester [] h = cc
find-ne-owner requester (c ∷ cs) h = ground (arith, find-ne-owner requester cs h.1)

-- An actor that passes the permission check and is not the owner is an admin.
actor_is_admin :
    (r : CollaborationRecord) (actor : Text) (role : CollaboratorRole)
    → NoOwnerEntry r
    → trim actor ≢ trim r.owner
    → assert_project_permission (some (as_context r)) actor project_update_collaborators ≡ ok role
    → role ≡ admin
unfolding role_has_permission
actor_is_admin r actor role w n h =
    let (_, has, who) =
      (assert_project_permission_iff (some (as_context r)) actor project_update_collaborators
          role).0
        h in
    ground (arith, find-ne-owner (trim actor) r.collaborators w)

admins-edit :
    (change : CollaborationChange) (target : Text) (cs : List CollaboratorEntry)
    {next : List CollaboratorEntry}
    → check_existing admin (find_existing target cs) ≡ ok tt
    → check_granted admin (role_of change) ≡ ok tt
    → edit change target (find_existing target cs) cs ≡ ok next
    → filter is_admin next ≡ filter is_admin cs
unfolding edit outranks
admins-edit (add address role) target cs c g h =
    ground (arith, admins-append cs (record { address = target; role = role }))
admins-edit (remove address) target cs c g h = elim (Option-cases (find_existing target cs)) [
  | inl missing ↦ absurd (ground arith)
  | inr (e, found) ↦ ground (arith, admins-remove_first target cs found)
]
admins-edit (set_role address role) target cs c g h =
    elim (Option-cases (find_existing target cs)) [
      | inl missing ↦ absurd (ground arith)
      | inr (e, found) ↦ ground (arith, admins-update_first target role cs found)
    ]

-- On a record without an entry of the owner's role, a change that is planned for an actor other
-- than the owner leaves the admins as they are: no admin is added, removed or given another role,
-- whatever the change.
pub plan_keeps_admins :
    (r : CollaborationRecord) (actor : Text) (change : CollaborationChange)
    (next : CollaborationRecord)
    → NoOwnerEntry r
    → trim actor ≢ trim r.owner
    → plan_collaboration_change r actor change ≡ ok next
    → filter is_admin next.collaborators ≡ filter is_admin r.collaborators
plan_keeps_admins r actor change next w n h =
    let p = plan-Planned r actor change h in
    let is_admin_actor = actor_is_admin r actor p.actor_role w n p.permitted in
    rw p.result (
      admins-edit change (trim (target_of change)) r.collaborators
        (rw is_admin_actor at p.checked.outranked) (rw is_admin_actor at p.checked.granted)
        p.edited)
