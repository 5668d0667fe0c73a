-- ===== src/Witnesses/SplitTests.antt =====
-- Drafts, owners, deadlines and deletions at concrete inputs.
use split_naira.Prelude.{
  ◌≡◌, ◌↔◌, refl, arith, codes, text_eq, text_eq_iff, List, [], ◌∷◌, ◌++◌, none, some, true, false,
  is_ok,
}
use split_naira.Prelude.Dict.{get}
use split_naira.Lifecycle.{at}
use split_naira.Splits.Drafts.{SplitDraftRecord, Drafts, draft, as_published}
use split_naira.Splits.Drafts.Ending.{
  DraftCommand, publish, discard, run_all, AllFresh, IsKeyed, run_all-ended,
}
use split_naira.Splits.Ownership.{Ownership, transfer_ownership}
use split_naira.Splits.Ownership.Transfers.{MayTransfer, transfer_ownership_iff}
use split_naira.Splits.Expiration.{Expirations, ExpirationInput, configure_expiration}
use split_naira.Splits.Deletion.{
  DeletionInput, ProjectDeletionAuditEvent, phrase_of_confirmation, request_project_deletion,
}
use split_naira.Splits.Deletion.Safeguards.{IsDecided, IsLogged, request_project_deletion_decides}

abbrev finished : SplitDraftRecord
finished = record {
  id = codes "d";
  owner = codes "GOWN";
  project_id = some (codes "p");
  title = none;
  project_type = none;
  token = some (codes "CTOKEN");
  collaborators =
      record { address = codes "GADA"; alias = none; basis_points = some 6000 }
      ∷ record { address = codes "GBEN"; alias = none; basis_points = some 4000 }
      ∷ [];
  status = draft;
  created_at = 1;
  updated_at = 1;
  published_at = none;
  discarded_at = none;
}

one_draft : get (codes "d") ((codes "d", finished) ∷ []) ≡ some finished
unfolding get text_eq
one_draft = refl

abbrev out : SplitDraftRecord
out = as_published finished 5

abbrev drafts : Drafts
drafts = (codes "d", out) ∷ []

one_out : get (codes "d") drafts ≡ some out
unfolding get text_eq
one_out = refl

drafts-IsKeyed : IsKeyed drafts
unfolding get
drafts-IsKeyed id d h = ground (arith, text_eq_iff (codes "d") id)

abbrev attempts : List DraftCommand
attempts = discard (codes "d") (codes "GOWN") 6 ∷ publish (codes "d") (codes "GOWN") 7 ∷ []

attempts_fresh : AllFresh drafts attempts
unfolding AllFresh
attempts_fresh = (tt, (tt, tt))

run_all-ended_example : get (codes "d") (run_all drafts attempts) ≡ some out
run_all-ended_example =
    run_all-ended drafts attempts (codes "d") out drafts-IsKeyed attempts_fresh one_out refl

abbrev owned : Ownership
owned = record { owners = (codes "p", codes "GOWN") ∷ []; transfers = []; audit = [] }

transfer_ownership_iff_example :
    (is_ok (transfer_ownership owned (codes "t") (codes "p") (codes " gown") (codes "GNEW") 9).1
      ≡ true)
    ↔ MayTransfer owned (codes "p") (codes " gown") (codes "GNEW")
transfer_ownership_iff_example =
    transfer_ownership_iff owned (codes "t") (codes "p") (codes " gown") (codes "GNEW") 9

abbrev no_deadlines : Expirations
no_deadlines = record { records = []; events = [] }

abbrev ask : ExpirationInput
ask = record {
  project_id = codes "p";
  created_at = at 10;
  expires_at = some (at 50);
  actor = codes "GOWN";
}

abbrev with_deadline : Expirations
with_deadline = record {
  records =
      (
        codes "p",
        record {
          project_id = codes "p";
          created_at = 10;
          expires_at = some 50;
          configured_by = codes "GOWN";
          updated_at = 20;
        },
      )
      ∷ [];
  events = [];
}

accepted : is_ok (configure_expiration no_deadlines ask 20).1 ≡ true
unfolding configure_expiration get
accepted = refl

abbrev deletion : DeletionInput
deletion = record {
  snapshot = record {
    project_id = codes "p";
    has_deposits = true;
    has_distributions = false;
    has_claims = false;
    transaction_count = 3;
    total_volume_stroops = none;
  };
  confirmed = true;
  confirmation_text = some phrase_of_confirmation;
}

request_project_deletion_decides_example :
    IsDecided deletion (request_project_deletion [] deletion (codes "GOWN") 5).1
    × ((e : ProjectDeletionAuditEvent) × ((request_project_deletion [] deletion (codes "GOWN") 5).0
          ≡ [] ++ e ∷ [])
        × IsLogged (request_project_deletion [] deletion (codes "GOWN") 5).1 e)
request_project_deletion_decides_example =
    request_project_deletion_decides [] deletion (codes "GOWN") 5
