-- ===== src/Splits/Deletion/Safeguards.antt =====
-- The decision on a deletion and the event that is logged
-- (backend/src/services/collaboration/project-deletion.ts).
use split_naira.Prelude.{
  ℕ, ◌≤◌, ◌≡◌, ◌⊎◌, ◌↔◌, refl, Text, codes, text_eq_iff, true, false, List, [], ◌∷◌, ◌++◌, some,
  arith, inl, inr, Option-cases,
}
use split_naira.Splits.Deletion.{
  hard, soft, ProjectFinancialSnapshot, DeletionInput, DeletionDecision, ProjectDeletionAuditEvent,
  has_financial_history, is_confirmed, evaluate_project_deletion, event_of,
  request_project_deletion, deletion_requested, soft_deleted, hard_delete_blocked,
}

-- Any deposit, distribution or claim, or a transaction.
abbrev pub HasHistory : ProjectFinancialSnapshot → Type 0
HasHistory s =
    (s.has_deposits ≡ true)
    ⊎ (s.has_distributions ≡ true)
    ⊎ (s.has_claims ≡ true)
    ⊎ (1 ≤ s.transaction_count)

-- The flag, and the phrase to the letter.
abbrev pub Confirms : DeletionInput → Type 0
Confirms input =
    (input.confirmed ≡ true) × (input.confirmation_text ≡ some (codes "DELETE PROJECT"))

Confirms-iff : (input : DeletionInput) → (is_confirmed input ≡ true) ↔ Confirms input
Confirms-iff input = elim (Option-cases input.confirmation_text) [
  | inl missing ↦ ground arith
  | inr (text, given) ↦ ground (arith, text_eq_iff text (codes "DELETE PROJECT"))
]

history_iff : (s : ProjectFinancialSnapshot) → (has_financial_history s ≡ true) ↔ HasHistory s
unfolding has_financial_history
history_iff s = ground arith

-- The table of the policy: nothing without the confirmation, a deletion for good without financial
-- history, and a soft one otherwise.
abbrev pub IsDecided : DeletionInput → DeletionDecision → Type 0
IsDecided input d =
    ((d.allowed ≡ true) ↔ Confirms input)
    × ((d.mode ≡ some hard) ↔ (¬ HasHistory input.snapshot × Confirms input))
    × ((d.mode ≡ some soft) ↔ (HasHistory input.snapshot × Confirms input))

decision_by_flags :
    (input : DeletionInput)
    → (((evaluate_project_deletion input).allowed ≡ true) ↔ (is_confirmed input ≡ true))
      × (((evaluate_project_deletion input).mode ≡ some hard)
          ↔ ((has_financial_history input.snapshot ≡ false) × (is_confirmed input ≡ true)))
      × (((evaluate_project_deletion input).mode ≡ some soft)
          ↔ ((has_financial_history input.snapshot ≡ true) × (is_confirmed input ≡ true)))
unfolding evaluate_project_deletion
decision_by_flags input = ground arith

no_history_iff :
    (s : ProjectFinancialSnapshot) → (has_financial_history s ≡ false) ↔ (¬ HasHistory s)
unfolding has_financial_history
no_history_iff s = ground arith

decision-IsDecided : (input : DeletionInput) → IsDecided input (evaluate_project_deletion input)
decision-IsDecided input =
    let (allowed, gone, kept) = decision_by_flags input in
    let confirms = Confirms-iff input in
    let history = history_iff input.snapshot in
    let clean = no_history_iff input.snapshot in
    (
      ((λ h. confirms.0 (allowed.0 h)), (λ h. allowed.1 (confirms.1 h))),
      (
        (λ h. (clean.0 (gone.0 h).0, confirms.0 (gone.0 h).1)),
        (λ h. gone.1 (clean.1 h.0, confirms.1 h.1)),
      ),
      (
        (λ h. (history.0 (kept.0 h).0, confirms.0 (kept.0 h).1)),
        (λ h. kept.1 (history.1 h.0, confirms.1 h.1)),
      ),
    )

-- The logged event agrees with the decision: it is a block, a soft deletion or a deletion.
abbrev pub IsLogged : DeletionDecision → ProjectDeletionAuditEvent → Type 0
IsLogged d e =
    ((e.kind ≡ hard_delete_blocked) ↔ (d.allowed ≡ false))
    × ((e.kind ≡ soft_deleted) ↔ (d.mode ≡ some soft))
    × ((e.kind ≡ deletion_requested) ↔ (d.mode ≡ some hard))
    × (e.mode ≡ d.mode)

event-IsLogged :
    (input : DeletionInput) (actor : Text) (at : ℕ)
    → IsLogged
        (evaluate_project_deletion input)
        (event_of (evaluate_project_deletion input) input.snapshot actor at)
unfolding evaluate_project_deletion event_of
event-IsLogged input actor at = ground arith

-- A request is allowed exactly when it is confirmed by the flag and the phrase together; then a
-- project is to be deleted for good exactly when it has no deposit, distribution, claim or
-- transaction, and softly otherwise; and each request adds one event to the audit log, which says
-- what was decided.
pub request_project_deletion_decides :
    (log : List ProjectDeletionAuditEvent) (input : DeletionInput) (actor : Text) (at : ℕ)
    → IsDecided input (request_project_deletion log input actor at).1
      × ((e : ProjectDeletionAuditEvent) × ((request_project_deletion log input actor at).0
            ≡ log ++ e ∷ [])
          × IsLogged (request_project_deletion log input actor at).1 e)
unfolding request_project_deletion
request_project_deletion_decides log input actor at =
    (decision-IsDecided input, (_, refl, event-IsLogged input actor at))
