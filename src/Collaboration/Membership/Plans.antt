-- ===== src/Collaboration/Membership/Plans.antt =====
-- What a planned change has established, and the shape of the record that it keeps.
use split_naira.Prelude.{
  ◌+◌, ◌≡◌, ◌≢◌, refl, Text, text_eq_iff, trim, List, [], some, arith, Result, ok, err, >>=-eq-ok,
}
use split_naira.Collaboration.Permissions.{
  CollaboratorRole, owner, PermissionDenied, project_update_collaborators,
  assert_project_permission,
}
use split_naira.Collaboration.Membership.{
  CollaboratorEntry, CollaborationRecord, CollaborationChange, ChangeError, target_of, role_of,
  as_context, deny, check_existing, check_granted, check_new, check_change, apply_edit, plan_as,
  edit, find_existing, plan_collaboration_change,
}

-- What the checks establish.
pub record Checked (role : CollaboratorRole) (r : CollaborationRecord)
    (change : CollaborationChange) : Type 0 where
  pub not_blank : trim (target_of change) ≢ []
  pub not_owner : trim (target_of change) ≢ trim r.owner
  pub assignable : role_of change ≢ some owner
  pub fresh : check_new change (find_existing (trim (target_of change)) r.collaborators) ≡ ok tt
  pub outranked :
      check_existing role (find_existing (trim (target_of change)) r.collaborators) ≡ ok tt
  pub granted : check_granted role (role_of change) ≡ ok tt

check_change-Checked :
    (role : CollaboratorRole) (r : CollaborationRecord) (change : CollaborationChange)
    → check_change role r change ≡ ok tt
    → Checked role r change
unfolding check_change
check_change-Checked role r change h =
    ground (arith, text_eq_iff (trim (target_of change)) (trim r.owner))

pub record Planned (r : CollaborationRecord) (actor : Text) (change : CollaborationChange)
    (next : CollaborationRecord) : Type 0 where
  pub actor_role : CollaboratorRole
  pub collaborators : List CollaboratorEntry
  pub permitted :
      assert_project_permission (some (as_context r)) actor project_update_collaborators
      ≡ ok actor_role
  pub checked : Checked actor_role r change
  pub edited :
      edit change
        (trim (target_of change))
        (find_existing (trim (target_of change)) r.collaborators)
        r.collaborators
      ≡ ok collaborators
  pub result : next ≡ record r { collaborators = collaborators; version = r.version + 1 }

deny-eq-ok : {A : Type 0} (m : Result PermissionDenied A) {a : A} → deny m ≡ ok a → m ≡ ok a
deny-eq-ok (ok a) h = ground arith
deny-eq-ok (err e) h = cc

apply_edit-eq-ok :
    (r : CollaborationRecord) (m : Result ChangeError (List CollaboratorEntry))
    {next : CollaborationRecord}
    → apply_edit r m ≡ ok next
    → (cs : List CollaboratorEntry) × (m ≡ ok cs)
      × (next ≡ record r { collaborators = cs; version = r.version + 1 })
apply_edit-eq-ok r (ok cs) h = (cs, refl, ground arith)
apply_edit-eq-ok r (err e) h = cc

pub plan-Planned :
    (r : CollaborationRecord) (actor : Text) (change : CollaborationChange)
    {next : CollaborationRecord}
    → plan_collaboration_change r actor change ≡ ok next
    → Planned r actor change next
unfolding plan_collaboration_change
plan-Planned r actor change h =
    let (role, permitted, h1) =
      >>=-eq-ok
        (deny (assert_project_permission (some (as_context r)) actor project_update_collaborators))
        (plan_as r change) h in
    let (_, checked, h2) =
      >>=-eq-ok (check_change role r change)
        (λ _. apply_edit r (
          edit change (trim (target_of change))
            (find_existing (trim (target_of change)) r.collaborators) r.collaborators))
        h1 in
    let (cs, edited, result) = apply_edit-eq-ok r _ h2 in
    record {
      actor_role = role;
      collaborators = cs;
      permitted = deny-eq-ok _ permitted;
      checked = check_change-Checked role r change checked;
      edited = edited;
      result = result;
    }
