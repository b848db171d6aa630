-- ===== src/TableSort.antt =====
-- view/table-sort.js: the order of a table's rows, where rows of the class `childrow` belong to the
-- row before them.
pub mod Groups
mod Tests
use azkaban_private.Prelude.{
  ℕ, ◌≡◌, if◌then◌else◌, Bool, false, true, not, ◌&&◌, Option, none, some, List, [], ◌∷◌, ◌++◌,
  String,
}

-- A row: the texts of its cells by index, trimmed and in lower case, with `none` for a cell that it
-- does not have, and whether it is a child row.
pub record Tr : Type 0 where
  pub cell : ℕ → Option String
  pub childrow : Bool

-- A row with its `childRows`.
pub record Group : Type 0 where
  pub row : Tr
  pub child_rows : List Tr

-- The loop of `initialize`, where the option is the variable `row`: a child row goes to the last
-- row before it, and a child row at the very start is a row as any other.
unfoldable pub group_rows : Option Group → List Tr → List Group
group_rows none [] = []
group_rows (some g) [] = g ∷ []
group_rows none (r ∷ rows) = group_rows (some (record { row = r; child_rows = [] })) rows
group_rows (some g) (r ∷ rows) =
    if r.childrow
    then group_rows (some (record { row = g.row; child_rows = g.child_rows ++ r ∷ [] })) rows
    else g ∷ group_rows (some (record { row = r; child_rows = [] })) rows

abbrev pub rows_of : List Group → List Tr
rows_of [] = []
rows_of (g ∷ gs) = g.row ∷ (g.child_rows ++ rows_of gs)

-- The classes of a header.
pub data Header : Type 0 where
  plain asc desc : Header

-- `toggleSort`: the header's new class, which says the order too.
abbrev pub toggle_sort : Header → Header
toggle_sort asc = desc
toggle_sort desc = asc
toggle_sort plain = asc

-- What a comparison says.
pub data Verdict : Type 0 where
  below same above : Verdict

-- The groups whose row is a child row, and those whose row is not.
abbrev pub orphans : List Group → List Group
orphans [] = []
orphans (g ∷ gs) = let rest = orphans gs in if g.row.childrow then g ∷ rest else rest

abbrev pub owners : List Group → List Group
owners [] = []
owners (g ∷ gs) = let rest = owners gs in if g.row.childrow then rest else g ∷ rest

abbrev pub is_there : Option String → Bool
is_there none = false
is_there (some text) = true

-- Every group's row has the cell.
abbrev pub all_have : ℕ → List Group → Bool
all_have index [] = true
all_have index (g ∷ gs) = is_there (g.row.cell index) && all_have index gs

abbrev pub text_or : String → Option String → String
text_or other none = other
text_or other (some text) = text

-- `before` is the engine's order of texts, and `engine` its sorting of an array.
module _ (before : String → String → Bool)
    (engine : (Group → Group → Verdict) → List Group → List Group) where
  abbrev pub compare_texts : Bool → String → String → Verdict
  compare_texts true a b = if before a b then above else if before b a then below else same
  compare_texts false a b = if before a b then below else if before b a then above else same

  -- `sort`: the rows that are no child rows are sorted and put at the end of the table, each with
  -- its child rows; what is not moved stays in front. `none` is the TypeError for a row that does
  -- not have the cell, which is thrown before a row is moved.
  unfoldable pub sort : ℕ → Bool → List Group → Option (List Group)
  sort index descending gs =
      let text = λ (g : Group). text_or "" (g.row.cell index) in
      if all_have index (owners gs)
      then some
          (orphans gs ++ engine (λ a b. compare_texts descending (text a) (text b)) (owners gs))
      else none
