-- ===== src/Collaboration/Permissions.antt =====
-- The permissions matrix (backend/src/services/collaboration/permissions.ts): what each role may
-- do, and how the role of a requester is resolved from the stored record.
pub mod Matrix
use split_naira.Prelude.{
  ℕ, Text, text_eq, trim, is_empty, Bool, true, false, List, [], ◌∷◌, map, Option, none, some, ◌==◌,
  if◌then◌else◌, any, find, Result, ok, err, ◌>>=◌, ◌>>◌, guard, or_else,
}

pub data CollaboratorRole : Type 0 where
  owner admin editor viewer : CollaboratorRole

abbrev pub collaborator_roles : List CollaboratorRole
collaborator_roles = owner ∷ admin ∷ editor ∷ viewer ∷ []

pub data ProjectPermission : Type 0 where
  project_read project_update_metadata project_update_collaborators project_lock : ProjectPermission
  project_delete project_invite project_cancel_invite : ProjectPermission
  funds_deposit funds_distribute funds_claim : ProjectPermission

-- `===` on permissions.
abbrev pub permission_number : ProjectPermission → ℕ
permission_number project_read = 0
permission_number project_update_metadata = 1
permission_number project_update_collaborators = 2
permission_number project_lock = 3
permission_number project_delete = 4
permission_number project_invite = 5
permission_number project_cancel_invite = 6
permission_number funds_deposit = 7
permission_number funds_distribute = 8
permission_number funds_claim = 9

abbrev pub permission_eq : ProjectPermission → ProjectPermission → Bool
permission_eq a b = permission_number a == permission_number b

abbrev pub role_permissions : CollaboratorRole → List ProjectPermission
role_permissions owner =
    project_read ∷ project_update_metadata ∷ project_update_collaborators ∷ project_lock
    ∷ project_delete ∷ project_invite ∷ project_cancel_invite ∷ funds_deposit ∷ funds_distribute
    ∷ funds_claim ∷ []
role_permissions admin =
    project_read ∷ project_update_metadata ∷ project_update_collaborators ∷ project_invite
    ∷ project_cancel_invite ∷ funds_deposit ∷ funds_distribute ∷ funds_claim ∷ []
role_permissions editor = project_read ∷ project_update_metadata ∷ funds_deposit ∷ funds_claim ∷ []
role_permissions viewer = project_read ∷ funds_claim ∷ []

unfoldable pub role_has_permission : CollaboratorRole → ProjectPermission → Bool
role_has_permission role permission = any (permission_eq permission) (role_permissions role)

-- `permission_denied`, with the role that the error carries; no role for an unknown requester.
pub record PermissionDenied : Type 0 where
  pub role : Option CollaboratorRole
  pub permission : ProjectPermission

unfoldable pub assert_permission :
    CollaboratorRole → ProjectPermission → Result PermissionDenied (Unit {0})
unfolding role_has_permission
assert_permission role permission =
    guard (role_has_permission role permission)
      (record { role = some role; permission = permission })

pub record RoleEntry : Type 0 where
  pub address : Text
  pub role : Option CollaboratorRole

pub record ProjectRoleContext : Type 0 where
  pub owner : Text
  pub collaborators : List RoleEntry

-- The role of the first entry with the address.
abbrev pub entry_role : Option RoleEntry → Option CollaboratorRole
entry_role none = none
entry_role (some e) = some (or_else e.role viewer)

unfoldable pub resolve_collaborator_role : Text → Text → List RoleEntry → Option CollaboratorRole
resolve_collaborator_role requester owner_address collaborators =
    if text_eq (trim requester) (trim owner_address)
    then some owner
    else entry_role (find (λ c. text_eq (trim c.address) (trim requester)) collaborators)

unfoldable pub get_permissions_matrix : List (CollaboratorRole × List ProjectPermission)
get_permissions_matrix = map (λ role. (role, role_permissions role)) collaborator_roles

unfoldable pub resolve_requester_role : Option ProjectRoleContext → Text → Option CollaboratorRole
unfolding resolve_collaborator_role
resolve_requester_role none requester = none
resolve_requester_role (some context) requester =
    if is_empty (trim requester)
    then none
    else resolve_collaborator_role requester context.owner context.collaborators

-- The check on the resolved role.
abbrev pub assert_resolved :
    Option CollaboratorRole → ProjectPermission → Result PermissionDenied CollaboratorRole
assert_resolved none permission = err (record { role = none; permission = permission })
assert_resolved (some role) permission = do assert_permission role permission; ok role

unfoldable pub assert_project_permission :
    Option ProjectRoleContext → Text → ProjectPermission → Result PermissionDenied CollaboratorRole
unfolding resolve_requester_role assert_permission
assert_project_permission context requester permission =
    assert_resolved (resolve_requester_role context requester) permission
