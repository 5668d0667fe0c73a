-- ===== src/Ledger/Reconciliation/Findings.antt =====
-- Which findings of the dry run (backend/src/scripts/reconcile-dry-run.ts) are critical.
use split_naira.Prelude.{
  ℕ, ◌≡◌, ◌↔◌, refl, ◌∙◌, Text, text_eq, text_eq_iff, Bool, true, false, ◌&&◌, ◌||◌, List, [], ◌∷◌,
  ◌++◌, map, arith, ltb, if◌then◌else◌, or_else, length, filter, any, All, All-map, Any, Bool-cases,
  inl, inr,
}
use split_naira.Prelude.Dict.{get, set}
use split_naira.Ledger.{TransactionRecord, LedgerBlock, is_completed, is_settlement}
use split_naira.Ledger.Invariants.{InvariantSeverity, critical, warning, InvariantViolation}
use split_naira.Ledger.Invariants.Balance.{LedgerBalanceReport}
use split_naira.Ledger.Invariants.Checks.{IsCritical}
use split_naira.Ledger.Orphans.{
  includes, is_unsettled, is_unrecorded, describe_transaction, describe_block,
  OrphanedTransactionsReport, orphan_report,
}
use split_naira.Ledger.Reconciliation.{
  invariant_text, is_critical, finding_if_any, warning_finding, orphan_findings, Groups,
  group_by_id, any_critical, group_finding, invariant_findings, is_grave,
}

pub any-append :
    {A : Type 0} (p : A → Bool) (xs ys : List A) → any p (xs ++ ys) ≡ (any p xs || any p ys)
any-append p [] ys = refl
any-append p (x ∷ xs) ys = ground (arith, any-append p xs ys)

has_grave_group : Groups → Bool
has_grave_group groups = any (λ group. any_critical group.1) groups

has_grave_group-set_grown :
    (k : Text) (listed : List InvariantViolation) (grave : Bool) (groups : Groups)
    → any_critical listed ≡ (any_critical (or_else (get k groups) []) || grave)
    → has_grave_group (set k listed groups) ≡ (has_grave_group groups || grave)
unfolding has_grave_group set get
has_grave_group-set_grown k listed grave [] h = ground arith
has_grave_group-set_grown k listed grave ((j, w) ∷ groups) h = elim (Bool-cases (text_eq j k)) [
  | inl same ↦ let grown = (rw (same) at h) in rw (same, grown) (ground arith)
  | inr other ↦
      let grown = (rw (other) at h) in
      rw (other, has_grave_group-set_grown k listed grave groups grown) (ground arith)
]

has_grave_group-set :
    (k : Text) (v : InvariantViolation) (groups : Groups)
    → has_grave_group (set k (or_else (get k groups) [] ++ (v ∷ [])) groups)
      ≡ (has_grave_group groups || is_critical v.severity)
has_grave_group-set k v groups =
    let listed = or_else (get k groups) [] in
    has_grave_group-set_grown k (listed ++ (v ∷ [])) (is_critical v.severity) groups
      (any-append (λ w. is_critical w.severity) listed (v ∷ []) ∙ ground arith)

has_grave_group-group_by_id :
    (vs : List InvariantViolation) (groups : Groups)
    → has_grave_group (group_by_id vs groups) ≡ (has_grave_group groups || any_critical vs)
unfolding group_by_id
has_grave_group-group_by_id [] groups = ground arith
has_grave_group-group_by_id (v ∷ vs) groups =
    let key = invariant_text v.invariant_id in
    let next = set key (or_else (get key groups) [] ++ (v ∷ [])) groups in
    rw (has_grave_group-group_by_id vs next, has_grave_group-set key v groups) (ground arith)

any-group_finding :
    (groups : Groups) → any is_grave (map group_finding groups) ≡ has_grave_group groups
unfolding has_grave_group
any-group_finding [] = refl
any-group_finding (group ∷ groups) = elim (Bool-cases (any_critical group.1)) [
  | inl grave ↦ rw (grave) refl
  | inr mild ↦ rw (mild) (any-group_finding groups)
]

any_critical_iff :
    (vs : List InvariantViolation) → All IsCritical vs → (any_critical vs ≡ false) ↔ (vs ≡ [])
any_critical_iff [] h = ((λ _. refl), (λ _. refl))
any_critical_iff (v ∷ vs) (h, hs) = rw (h) ((λ e. absurd (cc e)), (λ e. absurd (cc e)))

-- Where all violations are critical, no finding about them is critical exactly if there are none.
pub invariant_findings_iff :
    (report : LedgerBalanceReport)
    → All IsCritical report.violations
    → (any is_grave (invariant_findings report) ≡ false) ↔ (report.violations ≡ [])
unfolding invariant_findings has_grave_group
invariant_findings_iff report h =
    rw
      (
        any-group_finding (group_by_id report.violations []),
        has_grave_group-group_by_id report.violations [],
      )
      (any_critical_iff report.violations h)

any-finding_if_any :
    (check_id : Text) (severity : InvariantSeverity) (count : ℕ) (ids : List Text)
    → any is_grave (finding_if_any check_id severity count ids)
      ≡ (is_critical severity && ltb 0 count)
any-finding_if_any check_id critical count ids = ground arith
any-finding_if_any check_id warning count ids = ground arith

any-warning_finding : (warnings : List Text) → any is_grave (map warning_finding warnings) ≡ false
any-warning_finding [] = refl
any-warning_finding (w ∷ warnings) = any-warning_finding warnings

none_left_iff :
    {A B : Type 0} (p : A → Bool) (describe : A → B) (xs : List A)
    → (ltb 0 (length (map describe (filter p xs))) ≡ false) ↔ All (λ x. p x ≡ false) xs
none_left_iff p describe [] = ((λ _. tt), (λ _. refl))
none_left_iff p describe (x ∷ xs) = elim (Bool-cases (p x)) [
  | inl left ↦ rw (left) ((λ h. absurd (ground arith)), (λ h. absurd (cc (h.0))))
  | inr kept ↦
      let (to, back) = none_left_iff p describe xs in
      rw (kept) ((λ h. (refl, to h)), (λ h. back h.1))
]

-- A completed payout has a row of the ledger; a settlement has one of the transactions.
abbrev pub IsSettled : List LedgerBlock → TransactionRecord → Type 0
IsSettled blocks tx = if is_completed tx then Any (λ b. b.tx_hash ≡ tx.tx_hash) blocks else Unit

abbrev pub IsRecorded : List TransactionRecord → LedgerBlock → Type 0
IsRecorded txs block =
    if is_settlement block then Any (λ tx. tx.tx_hash ≡ block.tx_hash) txs else Unit

includes-map_iff :
    {A : Type 0} (hash_of : A → Text) (h : Text) (xs : List A)
    → (includes h (map hash_of xs) ≡ true) ↔ Any (λ x. hash_of x ≡ h) xs
includes-map_iff hash_of h [] = ((λ e. absurd (cc e)), (λ e. absurd e))
includes-map_iff hash_of h (x ∷ xs) = elim (Bool-cases (text_eq (hash_of x) h)) [
  | inl same ↦ rw (same) ((λ _. inl ((text_eq_iff (hash_of x) h).0 same)), (λ _. refl))
  | inr other ↦
      let (to, back) = includes-map_iff hash_of h xs in
      let apart = text_eq_iff (hash_of x) h in
      rw (other) (
        (λ e. inr (to e)),
        (λ e. elim e [ inl here ↦ absurd (cc (apart.1 here, other)) | inr there ↦ back there ]),
      )
]

is_unsettled_iff :
    (blocks : List LedgerBlock) (tx : TransactionRecord)
    → (is_unsettled blocks tx ≡ false) ↔ IsSettled blocks tx
is_unsettled_iff blocks tx =
    let found = includes-map_iff (λ (b : LedgerBlock). b.tx_hash) tx.tx_hash blocks in
    elim (Bool-cases (is_completed tx)) [
      | inr pending ↦ rw (pending) ((λ _. tt), (λ _. refl))
      | inl done ↦
          rw (done) ((λ h. found.0 (ground arith)), (λ h. let k = found.1 h in ground arith))
    ]

is_unrecorded_iff :
    (txs : List TransactionRecord) (block : LedgerBlock)
    → (is_unrecorded txs block ≡ false) ↔ IsRecorded txs block
is_unrecorded_iff txs block =
    let found = includes-map_iff (λ (tx : TransactionRecord). tx.tx_hash) block.tx_hash txs in
    elim (Bool-cases (is_settlement block)) [
      | inr pending ↦ rw (pending) ((λ _. tt), (λ _. refl))
      | inl done ↦
          rw (done) ((λ h. found.0 (ground arith)), (λ h. let k = found.1 h in ground arith))
    ]

All-iff :
    {A : Type 0} (p : A → Bool) (P : A → Type 0) (xs : List A)
    → ((x : A) → (p x ≡ false) ↔ P x)
    → All (λ x. p x ≡ false) xs ↔ All P xs
All-iff p P xs each = (
  All-map (λ x. p x ≡ false) P (λ x. (each x).0) xs,
  All-map P (λ x. p x ≡ false) (λ x. (each x).1) xs,
)

either_false : (a b c : Bool) → c ≡ (a || b) → (c ≡ false) ↔ ((a ≡ false) × (b ≡ false))
either_false a b c h = ground arith

any-orphan_findings :
    (report : OrphanedTransactionsReport)
    → any is_grave (orphan_findings report) ≡ (
        ltb 0 (length report.completed_transactions_missing_ledger_block)
        || ltb 0 (length report.settlement_ledger_blocks_missing_transaction))
unfolding orphan_findings
any-orphan_findings report =
    simp (any-append, any-finding_if_any, any-warning_finding) (ground arith)

-- No finding of the orphan check is critical exactly if every completed payout has a row of the
-- ledger and every settlement one of the transactions.
pub orphan_findings_iff :
    (find_users : List Text → List Text) (txs : List TransactionRecord) (blocks : List LedgerBlock)
    → (any is_grave (orphan_findings (orphan_report find_users txs true blocks)) ≡ false)
      ↔ (All (IsSettled blocks) txs × All (IsRecorded txs) blocks)
unfolding orphan_findings orphan_report
orphan_findings_iff find_users txs blocks =
    let report = orphan_report find_users txs true blocks in
    let (split, join) = either_false _ _ _ (any-orphan_findings report) in
    let (settled, unsettled) = none_left_iff (is_unsettled blocks) describe_transaction txs in
    let (recorded, unrecorded) = none_left_iff (is_unrecorded txs) describe_block blocks in
    let (to_settled, of_settled) = All-iff _ _ txs (is_unsettled_iff blocks) in
    let (to_recorded, of_recorded) = All-iff _ _ blocks (is_unrecorded_iff txs) in
    (
      (λ h. let (a, b) = split h in (to_settled (settled a), to_recorded (recorded b))),
      (λ h. join (unsettled (of_settled h.0), unrecorded (of_recorded h.1))),
    )
