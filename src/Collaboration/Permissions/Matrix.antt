-- ===== src/Collaboration/Permissions/Matrix.antt =====
-- The permissions by the rank of the role, and what a grant needs
-- (backend/src/services/collaboration/permissions.ts).
use split_naira.Prelude.{
  ℕ, ◌≤◌, ◌≡◌, ◌≢◌, ◌⊎◌, ◌↔◌, Text, text_eq, text_eq_iff, trim, true, Option, none, some, arith, ok,
  find, [],
}
use split_naira.Collaboration.Permissions.{
  CollaboratorRole, owner, admin, editor, viewer, ProjectPermission, ProjectRoleContext,
  role_has_permission, assert_project_permission, entry_role,
}

-- `ROLE_RANK` of membership-changes.ts.
abbrev pub role_rank : CollaboratorRole → ℕ
role_rank owner = 3
role_rank admin = 2
role_rank editor = 1
role_rank viewer = 0

-- A role has every permission of each role whose rank is not higher.
pub role_has_permission_mono :
    (low high : CollaboratorRole) (p : ProjectPermission)
    → role_rank low ≤ role_rank high
    → role_has_permission low p ≡ true
    → role_has_permission high p ≡ true
unfolding role_has_permission
role_has_permission_mono owner high p h g = ground arith
role_has_permission_mono admin high p h g = ground arith
role_has_permission_mono editor high p h g = ground arith
role_has_permission_mono viewer high p h g = ground arith

-- What a grant of a role on a record means.
abbrev pub IsGrantedOn : ProjectRoleContext → Text → ProjectPermission → CollaboratorRole → Type 0
IsGrantedOn context requester p role =
    (trim requester ≢ [])
    × (role_has_permission role p ≡ true)
    × (((trim requester ≡ trim context.owner) × (role ≡ owner))
        ⊎ ((trim requester ≢ trim context.owner)
            × (entry_role
                  (find (λ c. text_eq (trim c.address) (trim requester)) context.collaborators)
                ≡ some role)))

granted_on :
    (context : ProjectRoleContext) (requester : Text) (p : ProjectPermission)
    (role : CollaboratorRole)
    → (assert_project_permission (some context) requester p ≡ ok role)
      ↔ IsGrantedOn context requester p role
unfolding assert_project_permission
granted_on context requester p role =
    ground (arith, text_eq_iff (trim requester) (trim context.owner))

abbrev pub IsGranted :
    Option ProjectRoleContext → Text → ProjectPermission → CollaboratorRole → Type 0
IsGranted none requester p role = ⊥
IsGranted (some context) requester p role = IsGrantedOn context requester p role

pub assert_project_permission_iff :
    (context : Option ProjectRoleContext) (requester : Text) (p : ProjectPermission)
    (role : CollaboratorRole)
    → (assert_project_permission context requester p ≡ ok role) ↔ IsGranted context requester p role
unfolding assert_project_permission
assert_project_permission_iff none requester p role = ground arith
assert_project_permission_iff (some context) requester p role = granted_on context requester p role
