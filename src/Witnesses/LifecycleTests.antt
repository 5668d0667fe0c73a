-- ===== src/Witnesses/LifecycleTests.antt =====
-- The lifecycle of a split at concrete inputs.
use split_naira.Prelude.{◌≡◌, ◌⊎◌, codes, List, [], ◌∷◌, none, some, false, All, Any}
use split_naira.Lifecycle.{
  at, Collaborator, ProjectSnapshot, PaymentRecord, completed, failed, unpaid, string,
}
use split_naira.Lifecycle.Participants.{derive_participant, payments_of}
use split_naira.Lifecycle.Participants.Payments.{Beats, TakenFrom, derive_participant_best}

abbrev ada : Collaborator
ada = record { address = codes "GADA"; alias = none; basis_points = 6000 }

abbrev ben : Collaborator
ben = record { address = codes "GBEN"; alias = none; basis_points = 4000 }

-- A failed attempt, and a later one that was completed.
abbrev retried : List PaymentRecord
retried =
    record { recipient = codes "GADA"; status = failed; round_id = codes "1"; timestamp = 10 }
    ∷ record { recipient = codes "gada"; status = completed; round_id = codes "2"; timestamp = 5 }
    ∷ []

derive_participant_best_example :
    All (Beats (derive_participant retried ada)) (payments_of ada retried)
    × (((derive_participant retried ada).status ≡ unpaid)
        ⊎ Any (TakenFrom (derive_participant retried ada)) (payments_of ada retried))
derive_participant_best_example = derive_participant_best retried ada

abbrev with_deadline : ProjectSnapshot
with_deadline = record {
  project_id = codes "p";
  locked = false;
  balance = string (codes "50");
  total_distributed = string (codes "0");
  distribution_round = 0;
  collaborators = ada ∷ ben ∷ [];
  is_draft = false;
  expires_at = some (at 100);
}
