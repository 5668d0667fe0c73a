-- ===== src/Witnesses/MembershipTests.antt =====
-- Membership and invitations at concrete inputs.
use split_naira.Prelude.{
  ℕ, ◌+◌, ◌≡◌, ◌≢◌, refl, codes, trim, text_eq, text_eq_iff, List, [], ◌∷◌, none, some, true, false,
  filter, ok, ◌==◌, if◌then◌else◌,
}
use split_naira.Collaboration.Permissions.{owner, admin, editor, assert_project_permission}
use split_naira.Collaboration.Membership.{
  CollaborationRecord, CollaborationChange, max_change_attempts, add, set_role,
  plan_collaboration_change,
}
use split_naira.Collaboration.Membership.Store.{
  ApplyCollaborationChangeInput, Round, apply_collaboration_change,
}
use split_naira.Collaboration.Invitations.{Registry, cancelled}
use split_naira.Collaboration.Invitations.Closed.{KeepsClosed}
use split_naira.Collaboration.Reinvitations.{Command, cancel, accept, execute_all}
use split_naira.Collaboration.Reinvitations.Histories.{AllFresh, IsFresh, execute_all-KeepsClosed}
use split_naira.Collaboration.Membership.Shape.{IsWellFormed, plan-IsWellFormed}
use split_naira.Collaboration.Membership.Ranks.{is_admin, plan_keeps_admins}
use split_naira.Collaboration.Membership.Concurrency.{
  schedule, Outcome, apply_collaboration_change-Outcome,
}

abbrev team : CollaborationRecord
team = record {
  project_id = codes "p";
  owner = codes "GOWN";
  collaborators = record { address = codes "GADM"; role = admin } ∷ [];
  version = 7;
}

abbrev grown : CollaborationRecord
grown = record {
  project_id = codes "p";
  owner = codes "GOWN";
  collaborators =
      record { address = codes "GADM"; role = admin }
      ∷ record { address = codes "GNEW"; role = editor }
      ∷ [];
  version = 8;
}

abbrev invite : CollaborationChange
invite = add (codes " GNEW ") editor

planned : plan_collaboration_change team (codes "GADM") invite ≡ ok grown
unfolding plan_collaboration_change assert_project_permission trim text_eq
planned = refl

not_the_owner : trim (codes "GADM") ≢ trim team.owner
unfolding trim text_eq
not_the_owner e =
    let same : false ≡ true = (text_eq_iff (trim (codes "GADM")) (trim team.owner)).1 e in cc same

team-IsWellFormed : IsWellFormed team
team-IsWellFormed = record {
  distinct = (tt, tt);
  not_owner = (not_the_owner, tt);
  no_owner_role = ((λ e. cc), tt);
}

plan-IsWellFormed_example :
    IsWellFormed grown
    × (grown.version ≡ team.version + 1)
    × (grown.owner ≡ team.owner)
    × (grown.project_id ≡ team.project_id)
plan-IsWellFormed_example =
    plan-IsWellFormed team (codes "GADM") invite grown team-IsWellFormed planned

plan_keeps_admins_example : filter is_admin grown.collaborators ≡ filter is_admin team.collaborators
plan_keeps_admins_example =
    plan_keeps_admins team (codes "GADM") invite grown ((λ e. cc), tt) not_the_owner planned

abbrev request : ApplyCollaborationChangeInput
request = record {
  project_id = codes "p";
  actor_address = codes "GADM";
  change = invite;
  expected_version = some 7;
}

abbrev demotion : ApplyCollaborationChangeInput
demotion = record {
  project_id = codes "p";
  actor_address = codes "GOWN";
  change = set_role (codes "GADM") editor;
  expected_version = none;
}

-- The owner raises the version between the read and the write of the first attempt.
abbrev contended : ℕ → Round
contended n = record { before_read = []; before_write = if n == 4 then demotion ∷ [] else [] }

apply_collaboration_change-Outcome_example :
    Outcome
      ((codes "p", team) ∷ [])
      request
      (schedule max_change_attempts contended)
      (apply_collaboration_change contended ((codes "p", team) ∷ []) request)
apply_collaboration_change-Outcome_example =
    apply_collaboration_change-Outcome contended ((codes "p", team) ∷ []) request

-- A cancelled invitation, whose link is still followed.
abbrev called_off : Registry
called_off = record {
  invitations =
      (
        codes "i",
        record {
          id = codes "i";
          email = codes "a@b";
          token_jti = codes "t";
          project_id = some (codes "p");
          inviter_wallet_address = some (codes "GOWN");
          status = cancelled;
          created_at = 1;
          expires_at = 100;
          cancelled_at = some 2;
          cancelled_by = some (codes "GOWN");
          accepted_at = none;
          expired_at = none;
        },
      )
      ∷ [];
  token_index = (codes "t", codes "i") ∷ [];
  cancel_events = [];
  expired_events = [];
}

abbrev followed : List Command
followed = accept (codes "t") 5 5 ∷ cancel (codes "i") (codes "GOWN") none 6 ∷ []

followed_fresh : AllFresh called_off followed
unfolding AllFresh IsFresh
followed_fresh = (tt, (tt, tt))

execute_all-KeepsClosed_example :
    KeepsClosed called_off.invitations (execute_all called_off followed).invitations
execute_all-KeepsClosed_example = execute_all-KeepsClosed called_off followed followed_fresh

abbrev quiet : ℕ → Round
quiet n = record { before_read = []; before_write = [] }
