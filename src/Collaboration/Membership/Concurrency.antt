-- ===== src/Collaboration/Membership/Concurrency.antt =====
-- `applyCollaborationChange` (backend/src/services/collaboration/membership-changes.ts) while
-- other requests commit theirs.
use split_naira.Prelude.{
  ℕ, zero, suc, ◌≡◌, inl, inr, refl, sym, ap, ◌∙◌, subst, Text, Bool, true, false, List, [], ◌∷◌,
  ◌++◌, some, arith, Result, ok, err,
}
use split_naira.Prelude.Dict.{get, set}
use split_naira.Collaboration.Membership.{
  CollaborationRecord, ChangeError, collaboration_change_conflict, plan_collaboration_change,
  max_change_attempts,
}
use split_naira.Collaboration.Membership.Store.{
  CollaborationStore, ApplyCollaborationChangeInput, check_version, compare_and_set, prepare,
  commit, commit_all, Round, write_or, try_write, attempt, apply_collaboration_change,
}
use split_naira.Collaboration.Membership.Commits.{
  Prepared, prepare-Prepared, compare_and_set-true, compare_and_set-false, compare_and_set-current,
  Later, commit_all-Later,
}

-- All commits of the others in the attempts that are left, in their order.
pub schedule : ℕ → (ℕ → Round) → List ApplyCollaborationChangeInput
schedule zero rounds = []
schedule (suc left) rounds =
    (rounds left).before_read ++ ((rounds left).before_write ++ schedule left rounds)

-- What a request does in the end, by the commits of the others. Refused by its checks at one moment,
-- or out of attempts, it leaves the store that the others' commits alone lead to. Applied, at one
-- moment its checks passed and its change was planned on the record of that moment, and the planned
-- record replaced it.
pub data Outcome (start : CollaborationStore) (input : ApplyCollaborationChangeInput)
    (others : List ApplyCollaborationChangeInput)
    : Result ChangeError CollaborationRecord × CollaborationStore → Type 0 where
  refused :
      (e : ChangeError) (made rest : List ApplyCollaborationChangeInput)
      → others ≡ made ++ rest
      → prepare (commit_all start made) input ≡ err e
      → Outcome start input others (err e, commit_all start made)
  exhausted :
      Outcome start input others (err collaboration_change_conflict, commit_all start others)
  applied :
      (r next : CollaborationRecord) (made rest : List ApplyCollaborationChangeInput)
      → others ≡ made ++ rest
      → Prepared (commit_all start made) input r next
      → Outcome start input others (ok next, set input.project_id next (commit_all start made))

commit_all-append :
    (start : CollaborationStore) (xs ys : List ApplyCollaborationChangeInput)
    → commit_all (commit_all start xs) ys ≡ commit_all start (xs ++ ys)
unfolding commit_all
commit_all-append start [] ys = refl
commit_all-append start (x ∷ xs) ys = commit_all-append (commit start x) xs ys

append-nothing : {A : Type 0} (xs : List A) → xs ++ [] ≡ xs
append-nothing [] = refl
append-nothing (x ∷ xs) = ap (λ l. x ∷ l) (append-nothing xs)

append_assoc : {A : Type 0} (xs ys zs : List A) → (xs ++ ys) ++ zs ≡ xs ++ (ys ++ zs)
append_assoc [] ys zs = refl
append_assoc (x ∷ xs) ys zs = ap (λ l. x ∷ l) (append_assoc xs ys zs)

write_or-Outcome :
    (start : CollaborationStore) (input : ApplyCollaborationChangeInput)
    (others made rest : List ApplyCollaborationChangeInput) (r next : CollaborationRecord)
    (retry : CollaborationStore → Result ChangeError CollaborationRecord × CollaborationStore)
    (outcome : CollaborationStore × Bool)
    → others ≡ made ++ rest
    → compare_and_set (commit_all start made) input.project_id r.version next ≡ outcome
    → Later r (get input.project_id (commit_all start made))
    → check_version input.expected_version r ≡ ok tt
    → plan_collaboration_change r input.actor_address input.change ≡ ok next
    → Outcome start input others (retry (commit_all start made))
    → Outcome start input others (write_or outcome next retry (λ s' n. (ok n, s')))
write_or-Outcome start input others made rest r next retry (s', false) split w l v p again =
    rw (compare_and_set-false (commit_all start made) input.project_id r.version next w) again
write_or-Outcome start input others made rest r next retry (s', true) split w l v p again =
    let (now, current, same_version, written) =
      compare_and_set-true (commit_all start made) input.project_id r.version next w in
    let same : now ≡ r = elim (rw current at l) [ inl e ↦ e | inr newer ↦ absurd (omega arith) ] in
    rw written (
      applied r next made rest split
        (record { current = current ∙ ap some same; expected = v; planned = p }))

try_write-Outcome :
    (start : CollaborationStore) (input : ApplyCollaborationChangeInput)
    (others made before_write rest : List ApplyCollaborationChangeInput)
    (retry : CollaborationStore → Result ChangeError CollaborationRecord × CollaborationStore)
    (m : Result ChangeError (CollaborationRecord × CollaborationRecord))
    → others ≡ made ++ (before_write ++ rest)
    → prepare (commit_all start made) input ≡ m
    → Outcome start input others (retry (commit_all start (made ++ before_write)))
    → Outcome start input others
        (try_write (commit_all start made) before_write input.project_id retry m)
try_write-Outcome start input others made before_write rest retry (err e) split p again =
    refused e made (before_write ++ rest) split p
try_write-Outcome start input others made before_write rest retry (ok (r, next)) split p again =
    let q = prepare-Prepared (commit_all start made) input p in
    let race = commit_all-append start made before_write in
    rw race (
      write_or-Outcome start input others (made ++ before_write) rest r next retry
        (compare_and_set (commit_all start (made ++ before_write)) input.project_id r.version next)
        (split ∙ sym (append_assoc made before_write rest)) refl
        (subst (λ s. Later r (get input.project_id s)) race
          (commit_all-Later before_write (commit_all start made) input.project_id r q.current))
        q.expected q.planned again)

attempt-Outcome :
    (left : ℕ) (rounds : ℕ → Round) (start : CollaborationStore)
    (made : List ApplyCollaborationChangeInput) (input : ApplyCollaborationChangeInput)
    → Outcome start input
        (made ++ schedule left rounds)
        (attempt left rounds (commit_all start made) input)
unfolding attempt schedule
attempt-Outcome zero rounds start made input =
    subst
      (λ l.
        Outcome start input (made ++ []) (err collaboration_change_conflict, commit_all start l))
      (append-nothing made) exhausted
attempt-Outcome (suc left) rounds start made input =
    let before_read = (rounds left).before_read in
    let before_write = (rounds left).before_write in
    let others = made ++ (before_read ++ (before_write ++ schedule left rounds)) in
    let seen = made ++ before_read in
    let split : others ≡ seen ++ (before_write ++ schedule left rounds) =
      sym (append_assoc made before_read (before_write ++ schedule left rounds)) in
    rw (commit_all-append start made before_read) (
      try_write-Outcome start input others seen before_write (schedule left rounds)
        (λ s. attempt left rounds s input) (prepare (commit_all start seen) input) split refl
        (subst
          (λ l.
            Outcome start input l
              (attempt left rounds (commit_all start (seen ++ before_write)) input))
          (append_assoc seen before_write (schedule left rounds) ∙ sym split)
          (attempt-Outcome left rounds start (seen ++ before_write) input)))

-- Whatever other requests commit before each read and each write of the five attempts: a request is
-- refused by its checks on the store of one moment, or runs out of attempts, and then the store is
-- the one that the others' commits up to then lead to, with no write of its own; or at one moment
-- between the commits of others its checks passed and its change was planned on the current record,
-- and the planned record replaced it, as its only write.
pub apply_collaboration_change-Outcome :
    (rounds : ℕ → Round) (store : CollaborationStore) (input : ApplyCollaborationChangeInput)
    → Outcome store input
        (schedule max_change_attempts rounds)
        (apply_collaboration_change rounds store input)
unfolding apply_collaboration_change commit_all
apply_collaboration_change-Outcome rounds store input =
    attempt-Outcome max_change_attempts rounds store [] input

-- What a single attempt makes of its plan.
abbrev pub decided_at_once :
    CollaborationStore
    → Text
    → Result ChangeError (CollaborationRecord × CollaborationRecord)
    → Result ChangeError CollaborationRecord × CollaborationStore
decided_at_once store project_id (err e) = (err e, store)
decided_at_once store project_id (ok (r, next)) = (ok next, set project_id next store)

try_write_alone :
    (store : CollaborationStore) (input : ApplyCollaborationChangeInput)
    (retry : CollaborationStore → Result ChangeError CollaborationRecord × CollaborationStore)
    (m : Result ChangeError (CollaborationRecord × CollaborationRecord))
    → prepare store input ≡ m
    → try_write store [] input.project_id retry m ≡ decided_at_once store input.project_id m
unfolding commit_all
try_write_alone store input retry (err e) p = refl
try_write_alone store input retry (ok (r, next)) p =
    ap (λ o. write_or o next retry (λ s n. (ok n, s)))
      (compare_and_set-current store input.project_id r next
        (prepare-Prepared store input p).current)

attempt_alone :
    (left : ℕ) (rounds : ℕ → Round) (store : CollaborationStore)
    (input : ApplyCollaborationChangeInput)
    → (rounds left).before_read ≡ []
    → (rounds left).before_write ≡ []
    → attempt (suc left) rounds store input
      ≡ decided_at_once store input.project_id (prepare store input)
unfolding attempt commit_all
attempt_alone left rounds store input quiet_read quiet_write =
    let retry = λ (s : CollaborationStore). attempt left rounds s input in
    subst
      (λ b.
        try_write (commit_all store b) (rounds left).before_write input.project_id retry
          (prepare (commit_all store b) input)
        ≡ decided_at_once store input.project_id (prepare store input))
      (sym quiet_read)
      (subst
        (λ w.
          try_write store w input.project_id retry (prepare store input)
          ≡ decided_at_once store input.project_id (prepare store input))
        (sym quiet_write) (try_write_alone store input retry (prepare store input) refl))

-- A request that meets no other one in its first attempt is decided by that attempt: its error is
-- the one of its checks, and without an error its planned record is written.
apply_collaboration_change_alone :
    (rounds : ℕ → Round) (store : CollaborationStore) (input : ApplyCollaborationChangeInput)
    → (rounds 4).before_read ≡ []
    → (rounds 4).before_write ≡ []
    → apply_collaboration_change rounds store input
      ≡ decided_at_once store input.project_id (prepare store input)
unfolding apply_collaboration_change
apply_collaboration_change_alone rounds store input quiet_read quiet_write =
    attempt_alone 4 rounds store input quiet_read quiet_write
