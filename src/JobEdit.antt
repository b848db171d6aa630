-- ===== src/JobEdit.antt =====
-- view/job-edit.js: the table that overrides the properties of a job, one cell of which is edited at
-- a time.
pub mod Edited
pub mod Events
pub mod Table
pub mod Saved
mod Tests
use azkaban_private.Prelude.{
  ℕ, suc, ◌+◌, ◌==◌, ◌≡◌, if◌then◌else◌, Bool, false, true, ◌&&◌, ◌||◌, not, Option, none, some,
  List, [], ◌∷◌, ◌++◌, String, str_eq, lookup, insert, map,
}
use azkaban_private.Options.{Params, Cell, shown, editing, Row, flow_override}

pub data Column : Type 0 where
  key_column value_column : Column

abbrev pub column_number : Column → ℕ
column_number key_column = 0
column_number value_column = 1

-- A cell, by its row and column. Rows that were removed from the table are still objects.
abbrev pub CellRef : Type 0
CellRef = ℕ × Column

abbrev pub same_cell : CellRef → CellRef → Bool
same_cell a b = a.0 == b.0 && column_number a.1 == column_number b.1

pub record View : Type 0 where
  pub cell : CellRef → Cell
  -- The rows in the table.
  pub rows : List ℕ
  -- The number of the next row that is made.
  pub next_row : ℕ
  pub editing_target : Option CellRef
  pub override_params : Params

abbrev pub set_cell : CellRef → Cell → (CellRef → Cell) → CellRef → Cell
set_cell c content cell d = if same_cell c d then content else cell d

abbrev pub content : Cell → String
content (shown s) = s
content (editing s) = s

-- `closeEditingTarget`, for a click outside of the cell that is edited.
unfoldable pub close_editing_target : View → View
close_editing_target v = elim v.editing_target [
  | none ↦ v
  | some c ↦ record v {
    cell = set_cell c (shown (content (v.cell c))) v.cell;
    editing_target = none;
  }
]

abbrev pub is_target : CellRef → Option CellRef → Bool
is_target c none = false
is_target c (some d) = same_cell d c

-- `handleEditColumn`, for a click in the cell `c`.
unfoldable pub handle_edit_column : CellRef → View → View
handle_edit_column c v =
    let closed = close_editing_target v in
    if is_target c v.editing_target then v else record closed {
      cell = set_cell c (editing (content (closed.cell c))) closed.cell;
      editing_target = some c;
    }

-- `handleAddRow`, which puts the row at the end of the table.
unfoldable pub handle_add_row : String → String → View → View
handle_add_row key value v = record v {
  cell =
      set_cell (v.next_row, key_column) (shown key)
        (set_cell (v.next_row, value_column) (shown value) v.cell);
  rows = v.rows ++ v.next_row ∷ [];
  next_row = suc v.next_row;
}

abbrev pub without_row : ℕ → List ℕ → List ℕ
without_row r [] = []
without_row r (q ∷ rows) = let rest = without_row r rows in if r == q then rest else q ∷ rest

-- `handleRemoveColumn`
unfoldable pub handle_remove_column : ℕ → View → View
handle_remove_column r v = record v { rows = without_row r v.rows }

-- `handleCancel`
unfoldable pub handle_cancel : View → View
handle_cancel v = record v { rows = [] }

-- What the user does. Each is the handlers that the event comes to, in their order: that of the
-- button, then that of the cell around it, or that of the whole view, which closes the editing.
pub data Event : Type 0 where
  click_cell : CellRef → Event
  -- A click elsewhere, or the return key in the cell that is edited.
  click_outside : Event
  type_text : String → Event
  click_add : Event
  click_remove : ℕ → Event
  click_cancel : Event

unfoldable pub handle : Event → View → View
handle (click_cell c) v = handle_edit_column c v
handle click_outside v = close_editing_target v
handle (type_text s) v = elim v.editing_target [
  | none ↦ v
  | some c ↦ record v { cell = set_cell c (editing s) v.cell }
]
handle click_add v = close_editing_target (handle_add_row "" "" v)
handle (click_remove r) v = handle_edit_column (r, value_column) (handle_remove_column r v)
handle click_cancel v = close_editing_target (handle_cancel v)

abbrev pub handle_all : List Event → View → View
handle_all [] v = v
handle_all (e ∷ es) v = handle_all es (handle e v)

-- The rows that `show` adds for the properties of the job.
unfoldable pub add_params : Params → View → View
add_params [] v = v
add_params ((key, value) ∷ params) v =
    add_params params
      (if str_eq key "type" || str_eq key "dependencies" then v else handle_add_row key value v)

-- The answer's handler in `show`.
unfoldable pub show_job : Params → View → View
show_job params v = add_params params (record v { override_params = params })

abbrev pub row_of : (CellRef → Cell) → ℕ → Row
row_of cell r = record { key = cell (r, key_column); value = cell (r, value_column) }

-- An object whose values may be undefined.
abbrev pub Overrides : Type 0
Overrides = List (String × Option String)

abbrev pub defined : Params → Overrides
defined = map (λ p. (p.0, some p.1))

-- `jobOverride` of `handleSet`, for the rows of the table.
unfoldable pub job_override : Params → List Row → Overrides
job_override params rows =
    let object = insert "type" (lookup "type" params) (defined (flow_override rows [])) in
    elim (lookup "dependencies" params) [
      | none ↦ object
      | some d ↦ insert "dependencies" (some d) object
    ]

-- `handleSet`: what is sent.
unfoldable pub handle_set : View → Overrides
handle_set v =
    let closed = close_editing_target v in
    job_override closed.override_params (map (row_of closed.cell) closed.rows)
