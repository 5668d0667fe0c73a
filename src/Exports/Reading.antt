-- ===== src/Exports/Reading.antt =====
-- The rows of an export (backend/src/lib/csv.ts) as a reader of RFC 4180 takes them.
use split_naira.Prelude.{
  ℕ, ◌≡◌, refl, sym, ap, ◌∙◌, Text, false, List, [], ◌∷◌, ◌++◌, map, Option, none, some, ◌==◌,
  ==_iff, if◌then◌else◌, if_false, arith, All, Bool-cases, inl, inr,
}
use mathlib.Core.List.{append_assoc}
use split_naira.Exports.{
  is_special, formula_trigger, needs_quoting, neutralize, double_quotes, cell_text,
  to_safe_csv_cell, join_cells, to_csv_row,
}

-- Where a reader stands: at the start of a cell, in one without or with quotes, after a quote in one
-- with quotes, after a carriage return, and after the line.
pub data Place : Type 0 where
  at_start in_plain in_quotes after_quote after_return at_end : Place

pub data Action : Type 0 where
  push : Place → Action
  skip : Place → Action
  next_cell refuse : Action

abbrev close_or : ℕ → Action → Action
close_or c other = if c == b',' then next_cell else if c == 13 then skip after_return else other

unfoldable pub act : Place → ℕ → Action
act at_start c = if c == 34 then skip in_quotes else close_or c (push in_plain)
act in_plain c = close_or c (push in_plain)
act in_quotes c = if c == 34 then skip after_quote else push in_quotes
act after_quote c = if c == 34 then push in_quotes else close_or c refuse
act after_return c = if c == 10 then skip at_end else refuse
act at_end c = refuse

abbrev pub prepend : Text → Option (List Text) → Option (List Text)
prepend s none = none
prepend s (some []) = some []
prepend s (some (cell ∷ cells)) = some ((s ++ cell) ∷ cells)

abbrev pub new_cell : Option (List Text) → Option (List Text)
new_cell none = none
new_cell (some cells) = some ([] ∷ cells)

unfoldable pub read_from : Place → Text → Option (List Text)
unfolding act
read_from at_end [] = some ([] ∷ [])
read_from _ [] = none
read_from place (c ∷ s) = elim (act place c) [
  | push next ↦ prepend (c ∷ []) (read_from next s)
  | skip next ↦ read_from next s
  | next_cell ↦ new_cell (read_from at_start s)
  | refuse ↦ none
]

unfoldable pub read_row : Text → Option (List Text)
unfolding read_from
read_row s = read_from at_start s

prepend-prepend :
    (c : ℕ) (s : Text) (read : Option (List Text))
    → prepend (c ∷ []) (prepend s read) ≡ prepend (c ∷ s) read
prepend-prepend c s none = refl
prepend-prepend c s (some []) = refl
prepend-prepend c s (some (cell ∷ cells)) = refl

prepend_nothing : (read : Option (List Text)) → prepend [] read ≡ read
prepend_nothing none = refl
prepend_nothing (some []) = refl
prepend_nothing (some (cell ∷ cells)) = refl

push_quoted :
    (c : ℕ) (s : Text)
    → (c == 34) ≡ false
    → read_from in_quotes (c ∷ s) ≡ prepend (c ∷ []) (read_from in_quotes s)
unfolding read_from act
push_quoted c s other = rw (read_from, other) refl

read_quoted :
    (s rest : Text)
    → read_from in_quotes (double_quotes s ++ (34 ∷ rest)) ≡ prepend s (read_from after_quote rest)
unfolding read_from act double_quotes
read_quoted [] rest = sym (prepend_nothing (read_from after_quote rest))
read_quoted (c ∷ s) rest = elim (Bool-cases (c == 34)) [
  | inl quote ↦
      let here : c ≡ 34 = (==_iff c 34).0 quote in
      rw (quote, read_quoted s rest)
        (prepend-prepend 34 s (read_from after_quote rest)
          ∙ ap (λ d. prepend (d ∷ s) (read_from after_quote rest)) (sym here))
  | inr other ↦
      ap (λ t. read_from in_quotes (t ++ (34 ∷ rest)))
        (if_false (34 ∷ 34 ∷ double_quotes s) (c ∷ double_quotes s) other)
      ∙ push_quoted c (double_quotes s ++ (34 ∷ rest)) other
      ∙ ap (prepend (c ∷ [])) (read_quoted s rest)
      ∙ prepend-prepend c s (read_from after_quote rest)
]

Pushes : Place → ℕ → Type 0
Pushes place c = act place c ≡ push in_plain

ordinary : (c : ℕ) → is_special c ≡ false → Pushes in_plain c × Pushes at_start c
unfolding act Pushes
ordinary c h = ground arith

read_pushed :
    (place : Place) (c : ℕ) (s : Text)
    → Pushes place c
    → read_from place (c ∷ s) ≡ prepend (c ∷ []) (read_from in_plain s)
unfolding read_from Pushes act
read_pushed at_start c s h = rw (read_from, h) refl
read_pushed in_plain c s h = rw (read_from, h) refl
read_pushed in_quotes c s h = rw (read_from, h) refl
read_pushed after_quote c s h = rw (read_from, h) refl
read_pushed after_return c s h = rw (read_from, h) refl
read_pushed at_end c s h = absurd (cc h)

plain_parts :
    (c : ℕ) (s : Text)
    → needs_quoting (c ∷ s) ≡ false
    → (is_special c ≡ false) × (needs_quoting s ≡ false)
unfolding needs_quoting
plain_parts c s h = ground arith

read_plain :
    (s rest : Text)
    → needs_quoting s ≡ false
    → read_from in_plain (s ++ rest) ≡ prepend s (read_from in_plain rest)
read_plain [] rest h = sym (prepend_nothing (read_from in_plain rest))
read_plain (c ∷ s) rest h =
    let (first, others) = plain_parts c s h in
    read_pushed in_plain c (s ++ rest) (ordinary c first).0
    ∙ ap (prepend (c ∷ [])) (read_plain s rest others)
    ∙ prepend-prepend c s (read_from in_plain rest)

-- What follows a cell reads the same after it as at the start of an empty one.
abbrev Closes : Text → Type 0
Closes rest =
    (read_from in_plain rest ≡ read_from at_start rest)
    × (read_from after_quote rest ≡ read_from at_start rest)

read_unquoted :
    (s rest : Text)
    → needs_quoting s ≡ false
    → Closes rest
    → read_from at_start (s ++ rest) ≡ prepend s (read_from at_start rest)
read_unquoted [] rest h closes = sym (prepend_nothing (read_from at_start rest))
read_unquoted (c ∷ s) rest h closes =
    let (first, others) = plain_parts c s h in
    read_pushed at_start c (s ++ rest) (ordinary c first).1
    ∙ ap (prepend (c ∷ [])) (read_plain s rest others)
    ∙ prepend-prepend c s (read_from in_plain rest)
    ∙ ap (prepend (c ∷ s)) closes.0

read_opened : (s : Text) → read_from at_start (34 ∷ s) ≡ read_from in_quotes s
unfolding read_from act
read_opened s = refl

append-nothing : (s : Text) → s ++ [] ≡ s
append-nothing [] = refl
append-nothing (c ∷ s) = ap (λ t. c ∷ t) (append-nothing s)

closed : (s : Text) → prepend s (read_from at_start (13 ∷ 10 ∷ [])) ≡ some (s ∷ [])
unfolding read_from act
closed s = ap (λ t. some (t ∷ [])) (append-nothing s)

opened : (s : Text) → read_from at_start (b',' ∷ s) ≡ new_cell (read_from at_start s)
unfolding read_from act
opened s = refl

joined : (s : Text) (cells : List Text) → prepend s (new_cell (some cells)) ≡ some (s ∷ cells)
joined s cells = ap (λ t. some (t ∷ cells)) (append-nothing s)

read_cell :
    (value : Option Text) (rest : Text)
    → Closes rest
    → read_from at_start (to_safe_csv_cell value ++ rest)
      ≡ prepend (neutralize (cell_text value)) (read_from at_start rest)
unfolding to_safe_csv_cell
read_cell value rest closes =
    let s = neutralize (cell_text value) in
    elim (Bool-cases (needs_quoting s)) [
      | inr plain ↦ rw (plain) (read_unquoted s rest plain closes)
      | inl special ↦ rw (special) (
          read_opened (double_quotes s ++ (34 ∷ []) ++ rest)
          ∙ ap (read_from in_quotes) (append_assoc (double_quotes s) (34 ∷ []) rest)
          ∙ read_quoted s rest
          ∙ ap (prepend s) closes.1)
    ]

comma-Closes : (s : Text) → Closes (b',' ∷ s)
unfolding read_from act
comma-Closes s = (refl, refl)

return-Closes : Closes (13 ∷ 10 ∷ [])
unfolding read_from act
return-Closes = (refl, refl)

abbrev pub written : Option Text → Text
written value = neutralize (cell_text value)

read_cells :
    (value : Option Text) (values : List (Option Text))
    → read_from at_start (join_cells (value ∷ values) ++ (13 ∷ 10 ∷ []))
      ≡ some (map written (value ∷ values))
unfolding join_cells
read_cells value [] = read_cell value (13 ∷ 10 ∷ []) return-Closes ∙ closed (written value)
read_cells value (next ∷ values) =
    let rest = join_cells (next ∷ values) ++ (13 ∷ 10 ∷ []) in
    ap (read_from at_start)
      (append_assoc (to_safe_csv_cell value) (b',' ∷ join_cells (next ∷ values)) (13 ∷ 10 ∷ []))
    ∙ read_cell value (b',' ∷ rest) (comma-Closes rest)
    ∙ ap (prepend (written value)) (opened rest)
    ∙ ap (λ read. prepend (written value) (new_cell read)) (read_cells next values)
    ∙ joined (written value) (map written (next ∷ values))

neutralize-safe : (s : Text) → formula_trigger (neutralize s) ≡ false
unfolding neutralize formula_trigger
neutralize-safe [] = refl
neutralize-safe (c ∷ s) = ground arith

written-safe :
    (values : List (Option Text)) → All (λ cell. formula_trigger cell ≡ false) (map written values)
written-safe [] = tt
written-safe (value ∷ values) = (neutralize-safe (cell_text value), written-safe values)

-- A reader of RFC 4180 takes a row of at least one value as exactly its values, each with a quote in
-- front where it would start a formula, and none of the cells that it reads starts one.
pub read_row-to_csv_row :
    (value : Option Text) (values : List (Option Text))
    → (read_row (to_csv_row (value ∷ values)) ≡ some (map written (value ∷ values)))
      × All (λ cell. formula_trigger cell ≡ false) (map written (value ∷ values))
unfolding read_row to_csv_row
read_row-to_csv_row value values = (read_cells value values, written-safe (value ∷ values))
