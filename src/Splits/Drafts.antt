-- ===== src/Splits/Drafts.antt =====
-- Split drafts (backend/src/services/splits/split-draft.registry.ts). The registry is the map of
-- drafts; the clock and the generated id are arguments. Basis points are natural numbers.
pub mod Publishing
pub mod Ending
use split_naira.Prelude.{
  ℕ, ◌+◌, Text, text_eq, is_empty, Bool, true, false, ◌&&◌, ◌||◌, not, List, [], ◌∷◌, Option, none,
  some, ltb, ◌==◌, if◌then◌else◌, filter, length, Result, ok, err, or_else, sum_by,
}
use split_naira.Prelude.Dict.{Dict, get, set, values}

pub data DraftStatus : Type 0 where
  draft published discarded : DraftStatus

pub record SplitDraftCollaborator : Type 0 where
  pub address : Text
  pub alias : Option Text
  pub basis_points : Option ℕ

pub record SplitDraftRecord : Type 0 where
  pub id : Text
  pub owner : Text
  pub project_id : Option Text
  pub title : Option Text
  pub project_type : Option Text
  pub token : Option Text
  pub collaborators : List SplitDraftCollaborator
  pub status : DraftStatus
  pub created_at : ℕ
  pub updated_at : ℕ
  pub published_at : Option ℕ
  pub discarded_at : Option ℕ

pub record DraftInput : Type 0 where
  pub id : Option Text
  pub owner : Text
  pub project_id : Option Text
  pub title : Option Text
  pub project_type : Option Text
  pub token : Option Text
  pub collaborators : Option (List SplitDraftCollaborator)

pub data DraftError : Type 0 where
  draft_not_found draft_not_editable forbidden_not_owner draft_not_publishable : DraftError
  draft_incomplete draft_already_published financial_action_on_draft : DraftError

abbrev pub Drafts : Type 0
Drafts = Dict SplitDraftRecord

-- What an operation leaves, and what it returns or throws.
abbrev pub DraftOutcome : Type 0
DraftOutcome = Drafts × Result DraftError SplitDraftRecord

unfoldable pub reset_split_draft_registry_for_tests : Drafts
reset_split_draft_registry_for_tests = []

abbrev pub is_draft : DraftStatus → Bool
is_draft draft = true
is_draft _ = false

-- `a ?? b` on optional fields.
abbrev pub coalesce {ℓ} : {A : Type ℓ} → Option A → Option A → Option A
coalesce none b = b
coalesce (some a) b = some a

abbrev pub updated_draft : DraftInput → SplitDraftRecord → ℕ → SplitDraftRecord
updated_draft input existing now = record existing {
  project_id = coalesce input.project_id existing.project_id;
  title = coalesce input.title existing.title;
  project_type = coalesce input.project_type existing.project_type;
  token = coalesce input.token existing.token;
  collaborators = or_else input.collaborators existing.collaborators;
  updated_at = now;
}

pub update_draft : Drafts → Option SplitDraftRecord → DraftInput → ℕ → DraftOutcome
update_draft drafts none input now = (drafts, err draft_not_found)
update_draft drafts (some existing) input now =
    if not (is_draft existing.status)
    then (drafts, err draft_not_editable)
    else if not (text_eq existing.owner input.owner)
    then (drafts, err forbidden_not_owner)
    else (
      set existing.id (updated_draft input existing now) drafts,
      ok (updated_draft input existing now),
    )

abbrev pub new_draft : Text → DraftInput → ℕ → SplitDraftRecord
new_draft id input now = record {
  id = id;
  owner = input.owner;
  project_id = input.project_id;
  title = input.title;
  project_type = input.project_type;
  token = input.token;
  collaborators = or_else input.collaborators [];
  status = draft;
  created_at = now;
  updated_at = now;
  published_at = none;
  discarded_at = none;
}

-- `if (input.id)` takes an empty id for a missing one.
unfoldable pub save_draft : Drafts → Text → DraftInput → ℕ → DraftOutcome
unfolding update_draft
save_draft drafts new_id input now =
    if is_empty (or_else input.id [])
    then (set new_id (new_draft new_id input now) drafts, ok (new_draft new_id input now))
    else update_draft drafts (get (or_else input.id []) drafts) input now

abbrev pub get_draft : Drafts → Text → Option SplitDraftRecord
get_draft drafts id = get id drafts

unfoldable pub list_drafts_for_owner : Drafts → Text → List SplitDraftRecord
list_drafts_for_owner drafts owner =
    filter (λ d. text_eq d.owner owner && is_draft d.status) (values drafts)

unfoldable pub is_financial_action_blocked_for_draft : Option SplitDraftRecord → Bool
is_financial_action_blocked_for_draft none = false
is_financial_action_blocked_for_draft (some d) = is_draft d.status

abbrev pub basis_points_of : SplitDraftCollaborator → ℕ
basis_points_of c = or_else c.basis_points 0

abbrev pub total_bps : SplitDraftRecord → ℕ
total_bps d = sum_by basis_points_of d.collaborators

-- `!x` on an optional text.
abbrev pub is_missing : Option Text → Bool
is_missing x = is_empty (or_else x [])

-- The tests on the content of the draft, in the source's order; all have one error.
abbrev pub is_incomplete : SplitDraftRecord → Bool
is_incomplete d =
    is_missing d.project_id
    || is_missing d.token
    || ltb (length d.collaborators) 2
    || not (total_bps d == 10000)

abbrev pub as_published : SplitDraftRecord → ℕ → SplitDraftRecord
as_published d now = record d { status = published; published_at = some now; updated_at = now }

pub publish_found : Drafts → Text → Option SplitDraftRecord → Text → ℕ → DraftOutcome
publish_found drafts id none owner now = (drafts, err draft_not_found)
publish_found drafts id (some d) owner now =
    if not (text_eq d.owner owner)
    then (drafts, err forbidden_not_owner)
    else if not (is_draft d.status)
    then (drafts, err draft_not_publishable)
    else if is_incomplete d
    then (drafts, err draft_incomplete)
    else (set id (as_published d now) drafts, ok (as_published d now))

unfoldable pub publish_draft : Drafts → Text → Text → ℕ → DraftOutcome
unfolding publish_found
publish_draft drafts id owner now = publish_found drafts id (get id drafts) owner now

abbrev pub as_discarded : SplitDraftRecord → ℕ → SplitDraftRecord
as_discarded d now = record d { status = discarded; discarded_at = some now; updated_at = now }

pub discard_as : DraftStatus → Drafts → Text → SplitDraftRecord → ℕ → DraftOutcome
discard_as discarded drafts id d now = (drafts, ok d)
discard_as published drafts id d now = (drafts, err draft_already_published)
discard_as draft drafts id d now = (set id (as_discarded d now) drafts, ok (as_discarded d now))

pub discard_found : Drafts → Text → Option SplitDraftRecord → Text → ℕ → DraftOutcome
unfolding discard_as
discard_found drafts id none owner now = (drafts, err draft_not_found)
discard_found drafts id (some d) owner now =
    if not (text_eq d.owner owner)
    then (drafts, err forbidden_not_owner)
    else discard_as d.status drafts id d now

unfoldable pub discard_draft : Drafts → Text → Text → ℕ → DraftOutcome
unfolding discard_found
discard_draft drafts id owner now = discard_found drafts id (get id drafts) owner now

unfoldable pub assert_not_draft : Option SplitDraftRecord → Result DraftError (Unit {0})
unfolding is_financial_action_blocked_for_draft
assert_not_draft d =
    if is_financial_action_blocked_for_draft d then err financial_action_on_draft else ok tt
