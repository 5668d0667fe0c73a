-- ===== src/Collaboration/Membership/Commits.antt =====
-- The commits of requests (backend/src/services/collaboration/membership-changes.ts): what an
-- attempt that passes its checks has read, and what the store does with its write.
use split_naira.Prelude.{
  ℕ, ◌<◌, ◌≡◌, ◌⊎◌, inl, inr, refl, sym, ap, ◌∙◌, subst, Text, text_eq, text_eq_iff, true, false,
  List, [], ◌∷◌, Option, none, some, arith, Result, ok, err, ◌>>=◌, >>=-eq-ok, Bool-cases,
  Option-cases,
}
use split_naira.Prelude.Dict.{get, set, get-set}
use split_naira.Collaboration.Membership.{
  CollaborationRecord, ChangeError, plan_collaboration_change,
}
use split_naira.Collaboration.Membership.Store.{
  CollaborationStore, ApplyCollaborationChangeInput, check_version, compare_and_set, prepare,
  prepare_on, write, commit, commit_all,
}
use split_naira.Collaboration.Membership.Plans.{plan-Planned}

-- What an attempt that passes its checks has read and planned.
pub record Prepared (store : CollaborationStore) (input : ApplyCollaborationChangeInput)
    (r next : CollaborationRecord) : Type 0 where
  pub current : get input.project_id store ≡ some r
  pub expected : check_version input.expected_version r ≡ ok tt
  pub planned : plan_collaboration_change r input.actor_address input.change ≡ ok next

prepare_on-ok :
    (store : CollaborationStore) (input : ApplyCollaborationChangeInput)
    (found : Option CollaborationRecord) {r next : CollaborationRecord}
    → get input.project_id store ≡ found
    → prepare_on input found ≡ ok (r, next)
    → Prepared store input r next
unfolding prepare_on
prepare_on-ok store input none f h = absurd (cc h)
prepare_on-ok store input (some r0) {r} {next} f h =
    let (_, expected, h1) =
      >>=-eq-ok (check_version input.expected_version r0)
        (λ _. plan_collaboration_change r0 input.actor_address input.change >>= λ n. ok (r0, n))
        h in
    let (n, planned, h2) =
      >>=-eq-ok (plan_collaboration_change r0 input.actor_address input.change) (λ n. ok (r0, n))
        h1 in
    let same : r0 ≡ r = ground arith in
    let same_next : n ≡ next = ground arith in
    record {
      current = f ∙ ap some same;
      expected = rw (← same) expected;
      planned = rw (← same, ← same_next) planned;
    }

pub prepare-Prepared :
    (store : CollaborationStore) (input : ApplyCollaborationChangeInput)
    {r next : CollaborationRecord}
    → prepare store input ≡ ok (r, next)
    → Prepared store input r next
unfolding prepare
prepare-Prepared store input h = prepare_on-ok store input (get input.project_id store) refl h

pub compare_and_set-true :
    (store : CollaborationStore) (project_id : Text) (v : ℕ) (next : CollaborationRecord)
    {s : CollaborationStore}
    → compare_and_set store project_id v next ≡ (s, true)
    → (r : CollaborationRecord) × (get project_id store ≡ some r)
      × (r.version ≡ v)
      × (s ≡ set project_id next store)
unfolding compare_and_set
compare_and_set-true store project_id v next h = elim (Option-cases (get project_id store)) [
  | inl missing ↦ absurd (ground arith)
  | inr (r, found) ↦ (r, found, ground arith, ground arith)
]

pub compare_and_set-false :
    (store : CollaborationStore) (project_id : Text) (v : ℕ) (next : CollaborationRecord)
    {s : CollaborationStore}
    → compare_and_set store project_id v next ≡ (s, false)
    → s ≡ store
unfolding compare_and_set
compare_and_set-false store project_id v next h = elim (Option-cases (get project_id store)) [
  | inl missing ↦ ground arith
  | inr (r, found) ↦ ground arith
]

pub compare_and_set-current :
    (store : CollaborationStore) (project_id : Text) (r next : CollaborationRecord)
    → get project_id store ≡ some r
    → compare_and_set store project_id r.version next ≡ (set project_id next store, true)
unfolding compare_and_set
compare_and_set-current store project_id r next h = ground arith

-- The record of a project later on: the same, or one of a higher version.
abbrev pub Later : CollaborationRecord → Option CollaborationRecord → Type 0
Later r none = ⊥
Later r (some r') = (r' ≡ r) ⊎ (r.version < r'.version)

Later-refl : (r : CollaborationRecord) {o : Option CollaborationRecord} → o ≡ some r → Later r o
Later-refl r h = rw h (inl refl)

Later-trans :
    (r : CollaborationRecord) (s : CollaborationRecord) (o : Option CollaborationRecord)
    → Later r (some s)
    → Later s o
    → Later r o
Later-trans r s none h k = k
Later-trans r s (some t) h k = ground arith

Later-bind :
    (r : CollaborationRecord) (o t : Option CollaborationRecord)
    → Later r o
    → ((s : CollaborationRecord) → o ≡ some s → Later s t)
    → Later r t
Later-bind r none t h k = absurd h
Later-bind r (some s) t h k = Later-trans r s t h (k s refl)

-- A write counts the version up.
write-Later :
    (store : CollaborationStore) (other : ApplyCollaborationChangeInput) (project_id : Text)
    (r : CollaborationRecord) (m : Result ChangeError (CollaborationRecord × CollaborationRecord))
    → prepare store other ≡ m
    → get project_id store ≡ some r
    → Later r (get project_id (write store other.project_id m))
write-Later store other project_id r (err e) p h = Later-refl r h
write-Later store other project_id r (ok (seen, next)) p h =
    let prepared = prepare-Prepared store other p in
    let counted =
      ap (λ x. x.version)
        (plan-Planned seen other.actor_address other.change prepared.planned).result in
    subst (λ x. Later r (get project_id x.0))
      (sym (compare_and_set-current store other.project_id seen next prepared.current))
      (rw get-set (elim (Bool-cases (text_eq other.project_id project_id)) [
        | inr else_where ↦ rw else_where (Later-refl r h)
        | inl same ↦
            let one : r ≡ seen =
              cc (h, prepared.current, (text_eq_iff other.project_id project_id).0 same) in
            rw same (inr (rw one (omega (arith, counted))))
      ]))

commit-Later :
    (store : CollaborationStore) (other : ApplyCollaborationChangeInput) (project_id : Text)
    (r : CollaborationRecord)
    → get project_id store ≡ some r
    → Later r (get project_id (commit store other))
unfolding commit
commit-Later store other project_id r h =
    write-Later store other project_id r (prepare store other) refl h

pub commit_all-Later :
    (others : List ApplyCollaborationChangeInput) (store : CollaborationStore) (project_id : Text)
    (r : CollaborationRecord)
    → get project_id store ≡ some r
    → Later r (get project_id (commit_all store others))
unfolding commit_all
commit_all-Later [] store project_id r h = Later-refl r h
commit_all-Later (other ∷ others) store project_id r h =
    Later-bind r _ _ (commit-Later store other project_id r h)
      (λ s found. commit_all-Later others (commit store other) project_id s found)
