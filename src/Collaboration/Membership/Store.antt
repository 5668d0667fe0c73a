-- ===== src/Collaboration/Membership/Store.antt =====
-- The versioned store of collaboration records, and the loop that applies a change while other
-- requests commit theirs (backend/src/services/collaboration/membership-changes.ts).
use split_naira.Prelude.{
  ℕ, zero, suc, Text, Bool, true, false, List, [], ◌∷◌, Option, none, some, ◌==◌, if◌then◌else◌,
  Result, ok, err, ◌>>=◌, ◌>>◌, guard,
}
use split_naira.Prelude.Dict.{Dict, get, set}
use split_naira.Collaboration.Membership.{
  CollaborationRecord, CollaborationChange, ChangeError, max_change_attempts,
  plan_collaboration_change, project_not_found, stale_collaboration_state,
  collaboration_change_conflict,
}

-- The store of `createInMemoryCollaborationStore`; a snapshot is what `read` gives.
abbrev pub CollaborationStore : Type 0
CollaborationStore = Dict CollaborationRecord

unfoldable pub read : CollaborationStore → Text → Option CollaborationRecord
read store project_id = get project_id store

abbrev pub replace_if :
    CollaborationStore
    → Text
    → ℕ
    → CollaborationRecord
    → Option CollaborationRecord
    → CollaborationStore × Bool
replace_if store project_id expected next none = (store, false)
replace_if store project_id expected next (some current) =
    if current.version == expected then (set project_id next store, true) else (store, false)

unfoldable pub compare_and_set :
    CollaborationStore → Text → ℕ → CollaborationRecord → CollaborationStore × Bool
compare_and_set store project_id expected next =
    replace_if store project_id expected next (get project_id store)

pub record ApplyCollaborationChangeInput : Type 0 where
  pub project_id : Text
  pub actor_address : Text
  pub change : CollaborationChange
  pub expected_version : Option ℕ

abbrev pub check_version : Option ℕ → CollaborationRecord → Result ChangeError (Unit {0})
check_version none r = ok tt
check_version (some v) r = guard (r.version == v) stale_collaboration_state

-- The part of an attempt before its write: the record that was read, and the planned one.
unfoldable pub prepare_on :
    ApplyCollaborationChangeInput
    → Option CollaborationRecord
    → Result ChangeError (CollaborationRecord × CollaborationRecord)
prepare_on input none = err project_not_found
prepare_on input (some r) = do
  check_version input.expected_version r
  next ← plan_collaboration_change r input.actor_address input.change
  ok (r, next)

unfoldable pub prepare :
    CollaborationStore
    → ApplyCollaborationChangeInput
    → Result ChangeError (CollaborationRecord × CollaborationRecord)
unfolding read prepare_on
prepare store input = prepare_on input (read store input.project_id)

-- Another request that wins its race: read, plan and write with nothing in between.
abbrev pub write :
    CollaborationStore
    → Text
    → Result ChangeError (CollaborationRecord × CollaborationRecord)
    → CollaborationStore
write store project_id (err e) = store
write store project_id (ok (r, next)) = (compare_and_set store project_id r.version next).0

unfoldable pub commit : CollaborationStore → ApplyCollaborationChangeInput → CollaborationStore
commit store input = write store input.project_id (prepare store input)

unfoldable pub commit_all :
    CollaborationStore → List ApplyCollaborationChangeInput → CollaborationStore
commit_all store [] = store
commit_all store (other ∷ others) = commit_all (commit store other) others

-- What the other requests commit in one attempt: before its read, and before its write.
pub record Round : Type 0 where
  pub before_read : List ApplyCollaborationChangeInput
  pub before_write : List ApplyCollaborationChangeInput

abbrev pub write_or :
    {A : Type 0}
    → CollaborationStore × Bool
    → CollaborationRecord
    → (CollaborationStore → A)
    → (CollaborationStore → CollaborationRecord → A)
    → A
write_or (store, false) next retry done = retry store
write_or (store, true) next retry done = done store next

-- The write of an attempt, after the others' commits; a lost race goes on with `retry`.
abbrev pub try_write :
    CollaborationStore
    → List ApplyCollaborationChangeInput
    → Text
    → (CollaborationStore → Result ChangeError CollaborationRecord × CollaborationStore)
    → Result ChangeError (CollaborationRecord × CollaborationRecord)
    → Result ChangeError CollaborationRecord × CollaborationStore
try_write seen others project_id retry (err e) = (err e, seen)
try_write seen others project_id retry (ok (r, next)) =
    write_or (compare_and_set (commit_all seen others) project_id r.version next) next retry
      (λ s n. (ok n, s))

-- The loop of `applyCollaborationChange`, over the attempts left and the rounds to come.
unfoldable pub attempt :
    ℕ
    → (ℕ → Round)
    → CollaborationStore
    → ApplyCollaborationChangeInput
    → Result ChangeError CollaborationRecord × CollaborationStore
attempt zero rounds store input = (err collaboration_change_conflict, store)
attempt (suc left) rounds store input =
    let seen = commit_all store (rounds left).before_read in
    try_write seen (rounds left).before_write input.project_id (λ s. attempt left rounds s input)
      (prepare seen input)

unfoldable pub apply_collaboration_change :
    (ℕ → Round)
    → CollaborationStore
    → ApplyCollaborationChangeInput
    → Result ChangeError CollaborationRecord × CollaborationStore
unfolding attempt
apply_collaboration_change rounds store input = attempt max_change_attempts rounds store input
