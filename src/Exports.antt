-- ===== src/Exports.antt =====
-- The rows of an export (backend/src/lib/csv.ts); Payouts has the listings that it walks.
pub mod Reading
pub mod Payouts
use split_naira.Prelude.{
  ℕ, Text, codes, Bool, true, false, ◌||◌, List, [], ◌∷◌, ◌++◌, map, Option, none, some, ◌==◌,
  if◌then◌else◌, any,
}

-- `/^[=+\-@\t\r]/` and `/[",\n\r]/`.
abbrev pub is_trigger : ℕ → Bool
is_trigger c = c == b'=' || c == b'+' || c == b'-' || c == b'@' || c == 9 || c == 13

abbrev pub is_special : ℕ → Bool
is_special c = c == 34 || c == b',' || c == 10 || c == 13

unfoldable pub formula_trigger : Text → Bool
formula_trigger [] = false
formula_trigger (c ∷ s) = is_trigger c

unfoldable pub needs_quoting : Text → Bool
needs_quoting s = any is_special s

unfoldable pub neutralize : Text → Text
unfolding formula_trigger
neutralize raw = if formula_trigger raw then 39 ∷ raw else raw

-- `replace(/"/g, '""')`.
unfoldable pub double_quotes : Text → Text
double_quotes [] = []
double_quotes (c ∷ s) = let rest = double_quotes s in if c == 34 then 34 ∷ 34 ∷ rest else c ∷ rest

abbrev pub cell_text : Option Text → Text
cell_text none = []
cell_text (some value) = value

-- A value that is null or undefined is none; a number is the text that it prints as.
unfoldable pub to_safe_csv_cell : Option Text → Text
unfolding neutralize needs_quoting double_quotes
to_safe_csv_cell value =
    let neutralized = neutralize (cell_text value) in
    if needs_quoting neutralized then 34 ∷ (double_quotes neutralized ++ (34 ∷ [])) else neutralized

unfoldable pub join_cells : List (Option Text) → Text
unfolding to_safe_csv_cell
join_cells [] = []
join_cells (value ∷ []) = to_safe_csv_cell value
join_cells (value ∷ next ∷ values) = to_safe_csv_cell value ++ (b',' ∷ join_cells (next ∷ values))

unfoldable pub to_csv_row : List (Option Text) → Text
unfolding join_cells
to_csv_row values = join_cells values ++ (13 ∷ 10 ∷ [])
