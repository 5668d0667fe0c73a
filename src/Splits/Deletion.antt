-- ===== src/Splits/Deletion.antt =====
-- Deletion safeguards (backend/src/services/collaboration/project-deletion.ts). The audit log is the
-- module's state.
pub mod Safeguards
use split_naira.Prelude.{
  ℕ, Text, codes, text_eq, Bool, true, false, ◌&&◌, ◌||◌, not, List, [], ◌∷◌, ◌++◌, Option, none,
  some, ltb, if◌then◌else◌,
}

pub record ProjectFinancialSnapshot : Type 0 where
  pub project_id : Text
  pub has_deposits : Bool
  pub has_distributions : Bool
  pub has_claims : Bool
  pub transaction_count : ℕ
  pub total_volume_stroops : Option Text

pub data DeletionMode : Type 0 where
  hard soft : DeletionMode

-- The `reason` texts.
pub data DeletionReason : Type 0 where
  has_history confirmation_required no_history : DeletionReason

pub record DeletionDecision : Type 0 where
  pub allowed : Bool
  pub mode : Option DeletionMode
  pub reason : DeletionReason
  pub requires_confirmation : Bool
  pub confirmation_phrase : Text

pub data DeletionEventType : Type 0 where
  deletion_requested soft_deleted hard_delete_blocked : DeletionEventType

pub record ProjectDeletionAuditEvent : Type 0 where
  pub kind : DeletionEventType
  pub project_id : Text
  pub actor : Text
  pub mode : Option DeletionMode
  pub reason : DeletionReason
  pub at : ℕ
  pub financial : ProjectFinancialSnapshot

unfoldable pub has_financial_history : ProjectFinancialSnapshot → Bool
has_financial_history s =
    s.has_deposits || s.has_distributions || s.has_claims || ltb 0 s.transaction_count

abbrev pub phrase_of_confirmation : Text
phrase_of_confirmation = codes "DELETE PROJECT"

pub record DeletionInput : Type 0 where
  pub snapshot : ProjectFinancialSnapshot
  pub confirmed : Bool
  pub confirmation_text : Option Text

abbrev pub text_is : Option Text → Text → Bool
text_is none t = false
text_is (some s) t = text_eq s t

-- `input.confirmed && input.confirmationText === CONFIRMATION_PHRASE`.
abbrev pub is_confirmed : DeletionInput → Bool
is_confirmed input = input.confirmed && text_is input.confirmation_text phrase_of_confirmation

abbrev pub decision : Bool → Option DeletionMode → DeletionReason → DeletionDecision
decision allowed mode reason = record {
  allowed = allowed;
  mode = mode;
  reason = reason;
  requires_confirmation = true;
  confirmation_phrase = phrase_of_confirmation;
}

unfoldable pub evaluate_project_deletion : DeletionInput → DeletionDecision
unfolding has_financial_history
evaluate_project_deletion input =
    if has_financial_history input.snapshot
    then decision (is_confirmed input) (if is_confirmed input then some soft else none) has_history
    else if not input.confirmed || not (text_is input.confirmation_text phrase_of_confirmation)
    then decision false none confirmation_required
    else decision true (some hard) no_history

abbrev pub audit_event :
    DeletionEventType
    → Option DeletionMode
    → DeletionDecision
    → ProjectFinancialSnapshot
    → Text
    → ℕ
    → ProjectDeletionAuditEvent
audit_event kind mode d snapshot actor at = record {
  kind = kind;
  project_id = snapshot.project_id;
  actor = actor;
  mode = mode;
  reason = d.reason;
  at = at;
  financial = snapshot;
}

abbrev pub is_soft : Option DeletionMode → Bool
is_soft (some soft) = true
is_soft _ = false

unfoldable pub event_of :
    DeletionDecision → ProjectFinancialSnapshot → Text → ℕ → ProjectDeletionAuditEvent
event_of d snapshot actor at =
    if not d.allowed
    then audit_event hard_delete_blocked none d snapshot actor at
    else if is_soft d.mode
    then audit_event soft_deleted (some soft) d snapshot actor at
    else audit_event deletion_requested (some hard) d snapshot actor at

-- The log afterwards, and the decision.
unfoldable pub request_project_deletion :
    List ProjectDeletionAuditEvent
    → DeletionInput
    → Text
    → ℕ
    → List ProjectDeletionAuditEvent × DeletionDecision
unfolding evaluate_project_deletion event_of
request_project_deletion log input actor at =
    let d = evaluate_project_deletion input in (log ++ event_of d input.snapshot actor at ∷ [], d)

unfoldable pub reset_project_deletion_audit_for_tests : List ProjectDeletionAuditEvent
reset_project_deletion_audit_for_tests = []
