-- ===== src/Collaboration/Membership.antt =====
-- Membership changes (backend/src/services/collaboration/membership-changes.ts): the change that is
-- planned on a record.
pub mod Plans
pub mod Ranks
pub mod Shape
pub mod Store
pub mod Commits
pub mod Concurrency
use split_naira.Prelude.{
  ℕ, zero, suc, ◌+◌, ◌-◌, Text, text_eq, trim, is_empty, Bool, true, false, ◌&&◌, ◌||◌, not, List,
  [], ◌∷◌, ◌++◌, map, Option, none, some, ltb, ◌==◌, if◌then◌else◌, any, find, Result, ok, err,
  ◌>>=◌, ◌>>◌, guard, is_some,
}
use split_naira.Prelude.Dict.{Dict, get, set}
use split_naira.Collaboration.Permissions.{
  CollaboratorRole, owner, admin, editor, viewer, ProjectRoleContext, RoleEntry, PermissionDenied,
  project_update_collaborators, assert_project_permission,
}
use split_naira.Collaboration.Permissions.Matrix.{role_rank}

pub record CollaboratorEntry : Type 0 where
  pub address : Text
  pub role : CollaboratorRole

pub record CollaborationRecord : Type 0 where
  pub project_id : Text
  pub owner : Text
  pub collaborators : List CollaboratorEntry
  pub version : ℕ

pub data CollaborationChange : Type 0 where
  add : Text → CollaboratorRole → CollaborationChange
  remove : Text → CollaborationChange
  set_role : Text → CollaboratorRole → CollaborationChange

pub data ChangeError : Type 0 where
  permission_denied invalid_collaborator owner_immutable role_not_assignable : ChangeError
  collaborator_exists collaborator_not_found project_not_found : ChangeError
  stale_collaboration_state collaboration_change_conflict : ChangeError

abbrev pub max_change_attempts : ℕ
max_change_attempts = 5

-- `"role" in change`.
abbrev pub target_of : CollaborationChange → Text
target_of (add address role) = address
target_of (remove address) = address
target_of (set_role address role) = address

abbrev pub role_of : CollaborationChange → Option CollaboratorRole
role_of (add address role) = some role
role_of (remove address) = none
role_of (set_role address role) = some role

abbrev pub is_assignable : CollaboratorRole → Bool
is_assignable owner = false
is_assignable _ = true

-- The record, as the authority for the requester's role.
abbrev pub as_context : CollaborationRecord → ProjectRoleContext
as_context r = record {
  owner = r.owner;
  collaborators = map (λ c. record { address = c.address; role = some c.role }) r.collaborators;
}

abbrev pub deny : {A : Type 0} → Result PermissionDenied A → Result ChangeError A
deny (ok a) = ok a
deny (err e) = err permission_denied

unfoldable pub outranks : CollaboratorRole → CollaboratorRole → Bool
outranks owner role = true
outranks actor role = ltb (role_rank role) (role_rank actor)

abbrev pub is_entry_of : Text → CollaboratorEntry → Bool
is_entry_of target c = text_eq (trim c.address) target

-- `c !== existing` and `c === existing` compare objects: the first entry with the address.
unfoldable pub remove_first : Text → List CollaboratorEntry → List CollaboratorEntry
remove_first target [] = []
remove_first target (c ∷ cs) =
    let rest = c ∷ remove_first target cs in if is_entry_of target c then cs else rest

unfoldable pub update_first :
    Text → CollaboratorRole → List CollaboratorEntry → List CollaboratorEntry
update_first target role [] = []
update_first target role (c ∷ cs) =
    let rest = c ∷ update_first target role cs in
    if is_entry_of target c then record c { role = role } ∷ cs else rest

-- The checks on the roles: of the existing entry, and of the change.
abbrev pub check_existing :
    CollaboratorRole → Option CollaboratorEntry → Result ChangeError (Unit {0})
check_existing actor none = ok tt
check_existing actor (some e) = guard (outranks actor e.role) permission_denied

abbrev pub check_assignable : Option CollaboratorRole → Result ChangeError (Unit {0})
check_assignable none = ok tt
check_assignable (some role) = guard (is_assignable role) role_not_assignable

abbrev pub check_granted :
    CollaboratorRole → Option CollaboratorRole → Result ChangeError (Unit {0})
check_granted actor none = ok tt
check_granted actor (some role) = guard (outranks actor role) permission_denied

-- `change.type === "add" && existing`.
abbrev pub check_new :
    CollaborationChange → Option CollaboratorEntry → Result ChangeError (Unit {0})
check_new (add address role) (some e) = err collaborator_exists
check_new _ _ = ok tt

-- The `switch` on the change.
unfoldable pub edit :
    CollaborationChange
    → Text
    → Option CollaboratorEntry
    → List CollaboratorEntry
    → Result ChangeError (List CollaboratorEntry)
unfolding remove_first update_first
edit (add address role) target existing cs =
    ok (cs ++ record { address = target; role = role } ∷ [])
edit (remove address) target none cs = err collaborator_not_found
edit (remove address) target (some e) cs = ok (remove_first target cs)
edit (set_role address role) target none cs = err collaborator_not_found
edit (set_role address role) target (some e) cs = ok (update_first target role cs)

abbrev pub find_existing : Text → List CollaboratorEntry → Option CollaboratorEntry
find_existing target cs = find (is_entry_of target) cs

-- The checks, in the source's order, once the actor's role is known.
pub check_change :
    CollaboratorRole → CollaborationRecord → CollaborationChange → Result ChangeError (Unit {0})
unfolding outranks
check_change actor_role r change = do
  let target = trim (target_of change)
  guard (not (is_empty target)) invalid_collaborator
  guard (not (text_eq target (trim r.owner))) owner_immutable
  check_assignable (role_of change)
  let existing = find_existing target r.collaborators
  check_new change existing
  check_existing actor_role existing
  check_granted actor_role (role_of change)

abbrev pub apply_edit :
    CollaborationRecord
    → Result ChangeError (List CollaboratorEntry)
    → Result ChangeError CollaborationRecord
apply_edit r (ok cs) = ok (record r { collaborators = cs; version = r.version + 1 })
apply_edit r (err e) = err e

pub plan_as :
    CollaborationRecord
    → CollaborationChange
    → CollaboratorRole
    → Result ChangeError CollaborationRecord
unfolding check_change edit
plan_as r change actor_role = do
  let target = trim (target_of change)
  check_change actor_role r change
  apply_edit r (edit change target (find_existing target r.collaborators) r.collaborators)

unfoldable pub plan_collaboration_change :
    CollaborationRecord → Text → CollaborationChange → Result ChangeError CollaborationRecord
unfolding plan_as
plan_collaboration_change r actor change = do
  actor_role ←
      deny (assert_project_permission (some (as_context r)) actor project_update_collaborators)
  plan_as r change actor_role
