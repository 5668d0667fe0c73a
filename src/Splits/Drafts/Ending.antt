-- ===== src/Splits/Drafts/Ending.antt =====
-- Sequences of commands on a draft registry (backend/src/services/splits/split-draft.registry.ts),
-- and the drafts that have ended.
use split_naira.Prelude.{
  ℕ, ◌≡◌, refl, Text, text_eq, text_eq_iff, is_empty, true, false, List, [], ◌∷◌, Option, none,
  some, arith, or_else, Bool-cases, inl, inr, not, if◌then◌else◌,
}
use split_naira.Prelude.Dict.{get, set, get-set}
use split_naira.Splits.Drafts.{
  DraftStatus, draft, published, discarded, SplitDraftRecord, Drafts, DraftInput, save_draft,
  update_draft, publish_draft, publish_found, discard_draft, discard_found, discard_as, is_draft,
  is_incomplete, updated_draft, new_draft, as_published, as_discarded,
}

-- What a registry is asked to do; a save carries the id that a new draft gets.
pub data DraftCommand : Type 0 where
  save : Text → DraftInput → ℕ → DraftCommand
  publish : Text → Text → ℕ → DraftCommand
  discard : Text → Text → ℕ → DraftCommand

unfoldable pub run : Drafts → DraftCommand → Drafts
run drafts (save new_id input now) = (save_draft drafts new_id input now).0
run drafts (publish id owner now) = (publish_draft drafts id owner now).0
run drafts (discard id owner now) = (discard_draft drafts id owner now).0

unfoldable pub run_all : Drafts → List DraftCommand → Drafts
run_all drafts [] = drafts
run_all drafts (c ∷ cs) = run_all (run drafts c) cs

-- The id of a new draft is not in use.
abbrev pub IsFresh : Drafts → DraftCommand → Type 0
IsFresh drafts (save new_id input now) = get new_id drafts ≡ none
IsFresh drafts _ = Unit

unfoldable pub AllFresh : Drafts → List DraftCommand → Type 0
unfolding run
AllFresh drafts [] = Unit
AllFresh drafts (c ∷ cs) = IsFresh drafts c × AllFresh (run drafts c) cs

-- Every draft stands under its own id.
abbrev pub IsKeyed : Drafts → Type 0
IsKeyed drafts = (id : Text) (d : SplitDraftRecord) → get id drafts ≡ some d → d.id ≡ id

-- One step keeps the ids in place, and keeps each draft that has ended.
abbrev Keeps : Drafts → Drafts → Type 0
Keeps a b =
    IsKeyed b
    × ((id : Text) (d : SplitDraftRecord)
        → get id a ≡ some d
        → is_draft d.status ≡ false
        → get id b ≡ some d)

Keeps-refl : (a : Drafts) → IsKeyed a → Keeps a a
Keeps-refl a k = (k, λ id d h f. h)

Keeps-set :
    (a : Drafts) (id : Text) (new : SplitDraftRecord)
    → IsKeyed a
    → new.id ≡ id
    → ((d : SplitDraftRecord) → get id a ≡ some d → is_draft d.status ≡ true)
    → Keeps a (set id new a)
Keeps-set a id new k own open_there = (
  λ j d h. elim (Bool-cases (text_eq id j)) [
    | inl same ↦
        let e : (if text_eq id j then some new else get j a) ≡ some d =
          rw (← get-set id j new a) h in
        ground (arith, text_eq_iff id j)
    | inr other ↦
        let e : (if text_eq id j then some new else get j a) ≡ some d =
          rw (← get-set id j new a) h in
        k j d (ground arith)
  ],
  λ j d h f. elim (Bool-cases (text_eq id j)) [
    | inl same ↦ absurd (cc (open_there d (rw (← (text_eq_iff id j).0 same) at h), f))
    | inr other ↦ rw (get-set, other) h
  ],
)

update-Keeps :
    (drafts : Drafts) (id : Text) (found : Option SplitDraftRecord) (input : DraftInput) (now : ℕ)
    → IsKeyed drafts
    → get id drafts ≡ found
    → Keeps drafts (update_draft drafts found input now).0
unfolding update_draft
update-Keeps drafts id none input now k h = Keeps-refl drafts k
update-Keeps drafts id (some d) input now k h = elim (Bool-cases (not (is_draft d.status))) [
  | inl ended ↦ rw ended (Keeps-refl drafts k)
  | inr editable ↦ elim (Bool-cases (not (text_eq d.owner input.owner))) [
    | inl foreign ↦ rw (editable, foreign) (Keeps-refl drafts k)
    | inr own ↦
        rw (editable, own)
          (Keeps-set drafts d.id (updated_draft input d now) k refl
            (λ d' e. ground (arith, k id d h)))
  ]
]

save-Keeps :
    (drafts : Drafts) (new_id : Text) (input : DraftInput) (now : ℕ)
    → IsKeyed drafts
    → get new_id drafts ≡ none
    → Keeps drafts (save_draft drafts new_id input now).0
unfolding save_draft
save-Keeps drafts new_id input now k fresh = elim (Bool-cases (is_empty (or_else input.id []))) [
  | inl new ↦
      rw new (
        Keeps-set drafts new_id (new_draft new_id input now) k refl (λ d e. absurd (cc (e, fresh))))
  | inr known ↦ rw known (update-Keeps drafts (or_else input.id []) _ input now k refl)
]

publish-Keeps :
    (drafts : Drafts) (id : Text) (found : Option SplitDraftRecord) (owner : Text) (now : ℕ)
    → IsKeyed drafts
    → get id drafts ≡ found
    → Keeps drafts (publish_found drafts id found owner now).0
unfolding publish_found
publish-Keeps drafts id none owner now k h = Keeps-refl drafts k
publish-Keeps drafts id (some d) owner now k h = elim (Bool-cases (not (text_eq d.owner owner))) [
  | inl e1 ↦ rw e1 (Keeps-refl drafts k)
  | inr e1 ↦ elim (Bool-cases (not (is_draft d.status))) [
    | inl e2 ↦ rw (e1, e2) (Keeps-refl drafts k)
    | inr e2 ↦ elim (Bool-cases (is_incomplete d)) [
      | inl e3 ↦ rw (e1, e2, e3) (Keeps-refl drafts k)
      | inr e3 ↦
          rw (e1, e2, e3)
            (Keeps-set drafts id (as_published d now) k (k id d h) (λ d' e. ground arith))
    ]
  ]
]

discard_as-Keeps :
    (status : DraftStatus) (drafts : Drafts) (id : Text) (d : SplitDraftRecord) (now : ℕ)
    → IsKeyed drafts
    → get id drafts ≡ some d
    → d.status ≡ status
    → Keeps drafts (discard_as status drafts id d now).0
unfolding discard_as
discard_as-Keeps discarded drafts id d now k h e = Keeps-refl drafts k
discard_as-Keeps published drafts id d now k h e = Keeps-refl drafts k
discard_as-Keeps draft drafts id d now k h e =
    Keeps-set drafts id (as_discarded d now) k (k id d h) (λ d' e'. ground arith)

discard-Keeps :
    (drafts : Drafts) (id : Text) (found : Option SplitDraftRecord) (owner : Text) (now : ℕ)
    → IsKeyed drafts
    → get id drafts ≡ found
    → Keeps drafts (discard_found drafts id found owner now).0
unfolding discard_found
discard-Keeps drafts id none owner now k h = Keeps-refl drafts k
discard-Keeps drafts id (some d) owner now k h = elim (Bool-cases (not (text_eq d.owner owner))) [
  | inl e1 ↦ rw e1 (Keeps-refl drafts k)
  | inr e1 ↦ rw e1 (discard_as-Keeps d.status drafts id d now k h refl)
]

run-Keeps :
    (drafts : Drafts) (c : DraftCommand)
    → IsKeyed drafts
    → IsFresh drafts c
    → Keeps drafts (run drafts c)
unfolding run publish_draft discard_draft
run-Keeps drafts (save new_id input now) k fresh = save-Keeps drafts new_id input now k fresh
run-Keeps drafts (publish id owner now) k fresh = publish-Keeps drafts id _ owner now k refl
run-Keeps drafts (discard id owner now) k fresh = discard-Keeps drafts id _ owner now k refl

-- In a registry whose drafts stand under their own ids, a draft that has been published or discarded
-- is still there, unchanged in every field, after any sequence of saves, publications and discards
-- by anyone, where each new draft draws an id that is not in use.
pub run_all-ended :
    (drafts : Drafts) (cs : List DraftCommand) (id : Text) (d : SplitDraftRecord)
    → IsKeyed drafts
    → AllFresh drafts cs
    → get id drafts ≡ some d
    → is_draft d.status ≡ false
    → get id (run_all drafts cs) ≡ some d
unfolding run_all AllFresh
run_all-ended drafts [] id d k fresh h ended = h
run_all-ended drafts (c ∷ cs) id d k (f, fresh) h ended =
    let (keyed, kept) = run-Keeps drafts c k f in
    run_all-ended (run drafts c) cs id d keyed fresh (kept id d h ended) ended
