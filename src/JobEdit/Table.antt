-- ===== src/JobEdit/Table.antt =====
-- The table of properties, as the rows that `show` adds.
use mathlib.Core.List.{map-append}
use azkaban_private.Prelude.{
  ℕ, ◌<◌, ◌≡◌, refl, ◌∙◌, ap, if◌then◌else◌, Bool, false, true, ◌||◌, List, [], ◌∷◌, ◌++◌, String,
  str_eq, arith, All, map,
}
use azkaban_private.Options.{Params, Cell, shown, editing, Row, flow_override}
use azkaban_private.Options as Dialog
use azkaban_private.JobEdit.{
  Column, key_column, value_column, CellRef, same_cell, View, set_cell, handle_add_row, add_params,
  row_of,
}
use azkaban_private.JobEdit.Edited.{IsValid, handle_add_row-IsValid}

-- The properties that get a row.
abbrev pub is_kept_apart : String → Bool
is_kept_apart key = str_eq key "type" || str_eq key "dependencies"

abbrev pub editable : Params → Params
editable [] = []
editable (p ∷ params) = let rest = editable params in if is_kept_apart p.0 then rest else p ∷ rest

abbrev pub table : View → List Row
table v = map (row_of v.cell) v.rows

set_cell-other :
    (n r : ℕ) (k j : Column) (x : Cell) (cell : CellRef → Cell)
    → same_cell (n, k) (r, j) ≡ false
    → set_cell (n, k) x cell (r, j) ≡ cell (r, j)
set_cell-other n r k j x cell other = rw other refl

set_cell_self :
    (n : ℕ) (k : Column) (x : Cell) (cell : CellRef → Cell) → set_cell (n, k) x cell (n, k) ≡ x
set_cell_self n k x cell = let same : same_cell (n, k) (n, k) ≡ true = ground arith in rw same refl

abbrev pub row : Cell → Cell → Row
row key value = record { key = key; value = value }

-- A row with a new number leaves the others as they are.
table-set_cell :
    (n : ℕ) (k : Column) (x : Cell) (cell : CellRef → Cell) (rows : List ℕ)
    → All (λ r. r < n) rows
    → map (row_of (set_cell (n, k) x cell)) rows ≡ map (row_of cell) rows
table-set_cell n k x cell [] a = refl
table-set_cell n k x cell (r ∷ rows) (low, a) =
    ap
      (λ c.
        row c (set_cell (n, k) x cell (r, value_column))
        ∷ map (row_of (set_cell (n, k) x cell)) rows)
      (set_cell-other n r k key_column x cell (ground arith))
    ∙ ap (λ c. row (cell (r, key_column)) c ∷ map (row_of (set_cell (n, k) x cell)) rows)
        (set_cell-other n r k value_column x cell (ground arith))
    ∙ ap (λ l. row_of cell r ∷ l) (table-set_cell n k x cell rows a)

pub table-handle_add_row :
    (key value : String) (v : View)
    → IsValid v
    → table (handle_add_row key value v) ≡ Dialog.handle_add_row key value (table v)
unfolding handle_add_row
table-handle_add_row key value v i =
    let n = v.next_row in
    let inner = set_cell (n, value_column) (shown value) v.cell in
    let outer = set_cell (n, key_column) (shown key) inner in
    let apart : same_cell (n, key_column) (n, value_column) ≡ false = ground arith in
    map-append (row_of outer) v.rows (n ∷ [])
    ∙ ap (λ l. l ++ row_of outer n ∷ [])
        (table-set_cell n key_column (shown key) inner v.rows i.listed
          ∙ table-set_cell n value_column (shown value) v.cell v.rows i.listed)
    ∙ ap (λ c. map (row_of v.cell) v.rows ++ row c (outer (n, value_column)) ∷ [])
        (set_cell_self n key_column (shown key) inner)
    ∙ ap (λ c. map (row_of v.cell) v.rows ++ row (shown key) c ∷ [])
        (set_cell-other n n key_column value_column (shown key) inner apart
          ∙ set_cell_self n value_column (shown value) v.cell)

pub by_cases : (P : Bool → Type 0) (b : Bool) → P true → P false → P b
by_cases P true t f = t
by_cases P false t f = f

-- What `add_params` does to a view.
pub table-add_params :
    (params : Params) (v : View)
    → IsValid v
    → (table (add_params params v) ≡ Dialog.add_params (editable params) (table v))
      × ((add_params params v).editing_target ≡ v.editing_target)
      × ((add_params params v).override_params ≡ v.override_params)
unfolding add_params handle_add_row
table-add_params [] v i = (refl, refl, refl)
table-add_params ((key, value) ∷ params) v i =
    by_cases
      (λ b.
        let next = add_params params (if b then v else handle_add_row key value v) in
        (table next
          ≡ Dialog.add_params (if b then editable params else (key, value) ∷ editable params)
              (table v))
        × (next.editing_target ≡ v.editing_target)
        × (next.override_params ≡ v.override_params))
      (is_kept_apart key) (table-add_params params v i)
      (let w = handle_add_row key value v in
        let (rows, target, same) =
          table-add_params params w (handle_add_row-IsValid key value v i) in
        (
          rows ∙ ap (Dialog.add_params (editable params)) (table-handle_add_row key value v i),
          target,
          same,
        ))
