-- ===== src/Splits/Drafts/Publishing.antt =====
-- What a draft must be to be published, and what that opens.
use split_naira.Prelude.{ℕ, ◌≤◌, ◌≡◌, ◌↔◌, Text, text_eq_iff, false, some, arith, length, ok}
use split_naira.Prelude.Dict.{get, set}
use split_naira.Splits.Drafts.{
  draft, SplitDraftRecord, Drafts, total_bps, publish_draft, publish_found, as_published,
  is_missing, is_incomplete,
}

-- Complete: a project, a token, two collaborators, and shares that make the whole.
abbrev pub IsComplete : SplitDraftRecord → Type 0
IsComplete d =
    (is_missing d.project_id ≡ false)
    × (is_missing d.token ≡ false)
    × (2 ≤ length d.collaborators)
    × (total_bps d ≡ 10000)

incomplete_iff : (d : SplitDraftRecord) → (is_incomplete d ≡ false) ↔ IsComplete d
incomplete_iff d = ground arith

found_iff :
    (drafts : Drafts) (id owner : Text) (d : SplitDraftRecord) (now : ℕ)
    → (publish_found drafts id (some d) owner now
        ≡ (set id (as_published d now) drafts, ok (as_published d now)))
      ↔ ((d.owner ≡ owner) × (d.status ≡ draft) × IsComplete d)
unfolding publish_found
found_iff drafts id owner d now = ground (arith, incomplete_iff d, text_eq_iff d.owner owner)

-- A registered draft is published, that is replaced in the registry by its published form, exactly
-- when it is asked for by its owner, still a draft and complete.
publish_draft_iff :
    (drafts : Drafts) (id owner : Text) (d : SplitDraftRecord) (now : ℕ)
    → get id drafts ≡ some d
    → (publish_draft drafts id owner now
        ≡ (set id (as_published d now) drafts, ok (as_published d now)))
      ↔ ((d.owner ≡ owner) × (d.status ≡ draft) × IsComplete d)
unfolding publish_draft
publish_draft_iff drafts id owner d now h = rw h (found_iff drafts id owner d now)
