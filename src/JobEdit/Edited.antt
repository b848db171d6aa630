-- ===== src/JobEdit/Edited.antt =====
-- The cell of the table of properties that is an input, and the handlers that change it.
use azkaban_private.Prelude.{
  ℕ, suc, ◌<◌, ◌==◌, ◌≡◌, refl, sym, ◌∙◌, ap, subst, if◌then◌else◌, Bool, false, true, none, some,
  List, [], ◌∷◌, ◌++◌, String, arith, All, Bool-cases, Option-cases, inl, inr, ◌⊎◌,
}
use azkaban_private.Options.{Cell, shown, editing}
use azkaban_private.JobEdit.{
  Column, key_column, value_column, CellRef, same_cell, View, set_cell, content,
  close_editing_target, is_target, handle_edit_column, handle_add_row, without_row,
}

abbrev pub is_editing : Cell → Bool
is_editing (shown s) = false
is_editing (editing s) = true

-- A cell is an `input` exactly if it is the cell that is edited, and every row was made before.
pub record IsValid (v : View) : Type 0 where
  pub edited : (c : CellRef) → is_editing (v.cell c) ≡ is_target c v.editing_target
  pub made : (c : CellRef) → is_target c v.editing_target ≡ true → c.0 < v.next_row
  pub listed : All (λ r. r < v.next_row) v.rows

-- The view with the cell `c` closed.
abbrev closed_at : CellRef → View → View
closed_at c v = record v {
  cell = set_cell c (shown (content (v.cell c))) v.cell;
  editing_target = none;
}

pub close_cases :
    (v : View)
    → (v.editing_target ≡ none) × (close_editing_target v ≡ v)
      ⊎ ((c : CellRef) × (v.editing_target ≡ some c) × (close_editing_target v ≡ closed_at c v))
unfolding close_editing_target
close_cases v = elim (Option-cases v.editing_target) [
  | inl e ↦ inl (e, ap (λ o. elim o [ none ↦ v | some c ↦ closed_at c v ]) e)
  | inr (c, e) ↦ inr (c, e, ap (λ o. elim o [ none ↦ v | some c ↦ closed_at c v ]) e)
]

pub same_cell_eq : (c d : CellRef) → same_cell c d ≡ true → c ≡ d
same_cell_eq (r, key_column) (q, key_column) e = ground arith
same_cell_eq (r, key_column) (q, value_column) e = ground arith
same_cell_eq (r, value_column) (q, key_column) e = ground arith
same_cell_eq (r, value_column) (q, value_column) e = ground arith

pub is_editing-set_cell :
    (c d : CellRef) (content_c : Cell) (cell : CellRef → Cell)
    → is_editing (set_cell c content_c cell d)
      ≡ (if same_cell c d then is_editing content_c else is_editing (cell d))
is_editing-set_cell c d x cell = elim (Bool-cases (same_cell c d)) [
  | inl e ↦ rw e refl
  | inr e ↦ rw e refl
]

pub close-IsValid :
    (v : View)
    → IsValid v
    → IsValid (close_editing_target v) × ((close_editing_target v).editing_target ≡ none)
close-IsValid v i = elim (close_cases v) [
  | inl (e, closed) ↦ subst (λ w. IsValid w × (w.editing_target ≡ none)) (sym closed) (i, e)
  | inr (c, e, closed) ↦
      subst (λ w. IsValid w × (w.editing_target ≡ none)) (sym closed)
        (
          record {
            edited = λ d.
                is_editing-set_cell c d (shown (content (v.cell c))) v.cell
                ∙ off (same_cell c d) (is_editing (v.cell d)) (i.edited d ∙ ap (is_target d) e);
            made = λ d t. cc;
            listed = i.listed;
          },
          refl,
        )
]
  where
    off : (b x : Bool) → x ≡ b → (if b then false else x) ≡ false
    off true x e = refl
    off false x e = e

-- Editing the cell of a row that was made, in a view where none is edited.
open-IsValid :
    (v : View) (c : CellRef)
    → IsValid v
    → v.editing_target ≡ none
    → c.0 < v.next_row
    → IsValid (record v {
      cell = set_cell c (editing (content (v.cell c))) v.cell;
      editing_target = some c;
    })
open-IsValid v c i e low = record {
  edited = λ d.
      is_editing-set_cell c d (editing (content (v.cell c))) v.cell
      ∙ on (same_cell c d) (is_editing (v.cell d)) (i.edited d ∙ ap (is_target d) e);
  made = λ d t. let same : c ≡ d = same_cell_eq c d t in subst (λ x. x.0 < v.next_row) same low;
  listed = i.listed;
}
  where
    on : (b x : Bool) → x ≡ false → (if b then true else x) ≡ b
    on true x e = refl
    on false x e = e

next_row-close : (v : View) → (close_editing_target v).next_row ≡ v.next_row
next_row-close v = elim (close_cases v) [
  | inl (e, closed) ↦ ap (λ w. w.next_row) closed
  | inr (c, e, closed) ↦ ap (λ w. w.next_row) closed
]

pub handle_edit_column-IsValid :
    (v : View) (c : CellRef) → IsValid v → c.0 < v.next_row → IsValid (handle_edit_column c v)
unfolding handle_edit_column
handle_edit_column-IsValid v c i low = elim (Bool-cases (is_target c v.editing_target)) [
  | inl e ↦ rw e i
  | inr e ↦
      let (closed, none_left) = close-IsValid v i in
      rw e (
        open-IsValid (close_editing_target v) c closed none_left
          (subst (λ n. c.0 < n) (sym (next_row-close v)) low))
]

All-raise : (n : ℕ) (rows : List ℕ) → All (λ r. r < n) rows → All (λ r. r < suc n) (rows ++ n ∷ [])
All-raise n [] a = (omega arith, tt)
All-raise n (r ∷ rows) a = (omega (arith, a.0), All-raise n rows a.1)

pub All-without_row :
    (r n : ℕ) (rows : List ℕ) → All (λ q. q < n) rows → All (λ q. q < n) (without_row r rows)
All-without_row r n [] a = tt
All-without_row r n (q ∷ rows) (low, a) =
    let rest = All-without_row r n rows a in
    elim (Bool-cases (r == q)) [ inl e ↦ rw e rest | inr e ↦ rw e (low, rest) ]

-- A new row is of no cell that is edited.
pub handle_add_row-IsValid :
    (key value : String) (v : View) → IsValid v → IsValid (handle_add_row key value v)
unfolding handle_add_row
handle_add_row-IsValid key value v i = record {
  edited = λ d.
      is_editing-set_cell (v.next_row, key_column) d (shown key)
        (set_cell (v.next_row, value_column) (shown value) v.cell)
      ∙ ap (λ x. if same_cell (v.next_row, key_column) d then false else x)
          (is_editing-set_cell (v.next_row, value_column) d (shown value) v.cell)
      ∙ fresh d;
  made = λ d t. let low = i.made d t in omega arith;
  listed = All-raise v.next_row v.rows i.listed;
}
  where
    apart :
        (d : CellRef) (k : Column)
        → same_cell (v.next_row, k) d ≡ true
        → is_target d v.editing_target ≡ false
    apart d k e = elim (Bool-cases (is_target d v.editing_target)) [
      | inl t ↦
          let low = i.made d t in
          let same : v.next_row ≡ d.0 = ap (λ x. x.0) (same_cell_eq (v.next_row, k) d e) in
          absurd (omega arith)
      | inr t ↦ t
    ]

    skip : (b x y : Bool) → x ≡ y → (b ≡ true → y ≡ false) → (if b then false else x) ≡ y
    skip true x y e n = sym (n refl)
    skip false x y e n = e

    fresh :
        (d : CellRef)
        → (if same_cell (v.next_row, key_column) d
            then false
            else if same_cell (v.next_row, value_column) d
            then false
            else is_editing (v.cell d))
          ≡ is_target d v.editing_target
    fresh d =
        skip (same_cell (v.next_row, key_column) d) _ (is_target d v.editing_target)
          (skip (same_cell (v.next_row, value_column) d) _ (is_target d v.editing_target)
            (i.edited d) (apart d value_column))
          (apart d key_column)
