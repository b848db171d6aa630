-- ===== src/JobEdit/Events.antt =====
-- Sessions with the table of properties.
use azkaban_private.Prelude.{
  ◌<◌, ◌≡◌, refl, sym, ◌∙◌, ap, subst, fun_ext, if◌then◌else◌, Bool, false, true, Option, none,
  some, List, [], ◌∷◌, inl, inr, map,
}
use azkaban_private.Options.{Cell, shown, editing}
use azkaban_private.JobEdit.{
  value_column, CellRef, same_cell, View, set_cell, content, close_editing_target, is_target,
  handle_add_row, without_row, handle_remove_column, handle_cancel, Event, click_cell,
  click_outside, type_text, click_add, click_remove, click_cancel, handle, handle_all, row_of,
  job_override, handle_set,
}
use azkaban_private.JobEdit.Edited.{
  IsValid, is_editing, close_cases, same_cell_eq, is_editing-set_cell, close-IsValid,
  handle_edit_column-IsValid, All-without_row, handle_add_row-IsValid,
}

-- The events that can come: a click is in a row that was made.
abbrev pub IsEvent : View → Event → Type 0
IsEvent v (click_cell c) = c.0 < v.next_row
IsEvent v (click_remove r) = r < v.next_row
IsEvent v e = Unit

handle-IsValid : (e : Event) (v : View) → IsValid v → IsEvent v e → IsValid (handle e v)
unfolding handle handle_remove_column handle_cancel
handle-IsValid (click_cell c) v i low = handle_edit_column-IsValid v c i low
handle-IsValid click_outside v i may = (close-IsValid v i).0
handle-IsValid (type_text s) v i may = typed v.editing_target refl
  where
    typed :
        (o : Option CellRef)
        → v.editing_target ≡ o
        → IsValid (elim o [ none ↦ v | some c ↦ record v { cell = set_cell c (editing s) v.cell } ])
    typed none e = i
    typed (some c) e = record {
      edited = λ d.
          is_editing-set_cell c d (editing s) v.cell
          ∙ kept (same_cell c d) (is_editing (v.cell d)) (is_target d v.editing_target) (i.edited d)
              (sym (ap (is_target d) e));
      made = i.made;
      listed = i.listed;
    }
      where
        kept : (b x y : Bool) → x ≡ y → b ≡ y → (if b then true else x) ≡ y
        kept true x y e f = f
        kept false x y e f = e
handle-IsValid click_add v i may =
    (close-IsValid (handle_add_row "" "" v) (handle_add_row-IsValid "" "" v i)).0
handle-IsValid (click_remove r) v i low =
    handle_edit_column-IsValid (record v { rows = without_row r v.rows }) (r, value_column)
      (record {
        edited = i.edited;
        made = i.made;
        listed = All-without_row r v.next_row v.rows i.listed;
      })
      low
handle-IsValid click_cancel v i may =
    (close-IsValid (record v { rows = [] })
      (record { edited = i.edited; made = i.made; listed = tt })).0

abbrev pub AreEvents : View → List Event → Type 0
AreEvents v [] = Unit
AreEvents v (e ∷ es) = IsEvent v e × AreEvents (handle e v) es

-- What would be sent if every cell showed its text.
abbrev pub all_shown : (CellRef → Cell) → CellRef → Cell
all_shown cell c = shown (content (cell c))

close-all_shown :
    (v : View)
    → IsValid v
    → let w = close_editing_target v in
      (w.cell ≡ all_shown v.cell) × (w.rows ≡ v.rows) × (w.override_params ≡ v.override_params)
close-all_shown v i = elim (close_cases v) [
  | inl (e, closed) ↦
      subst
        (λ w.
          (w.cell ≡ all_shown v.cell) × (w.rows ≡ v.rows) × (w.override_params ≡ v.override_params))
        (sym closed)
        (fun_ext (λ d. shown_of (v.cell d) (i.edited d ∙ ap (is_target d) e)), refl, refl)
  | inr (c, e, closed) ↦
      subst
        (λ w.
          (w.cell ≡ all_shown v.cell) × (w.rows ≡ v.rows) × (w.override_params ≡ v.override_params))
        (sym closed)
        (
          fun_ext
              (λ d. at (same_cell c d) c d (same_cell_eq c d) (i.edited d ∙ ap (is_target d) e)),
          refl,
          refl,
        )
]
  where
    shown_of : (x : Cell) → is_editing x ≡ false → x ≡ shown (content x)
    shown_of (shown s) e = refl
    shown_of (editing s) e = cc

    at :
        (b : Bool) (c d : CellRef)
        → (b ≡ true → c ≡ d)
        → is_editing (v.cell d) ≡ b
        → (if b then shown (content (v.cell c)) else v.cell d) ≡ shown (content (v.cell d))
    at true c d same e = ap (λ x. shown (content (v.cell x))) (same refl)
    at false c d same e = shown_of (v.cell d) e

-- Through every session with the table, one cell at most is an input, namely the one that is edited;
-- and if the properties are then set, what is sent is what a table sends that shows the text of
-- every cell, so that an edit that was not closed is not lost.
pub handle_all-IsValid :
    (es : List Event) (v : View)
    → IsValid v
    → AreEvents v es
    → let w = handle_all es v in
      IsValid w
      × (handle_set w ≡ job_override w.override_params (map (row_of (all_shown w.cell)) w.rows))
unfolding handle_set
handle_all-IsValid [] v i may =
    let (cells, rows, params) = close-all_shown v i in
    let w = close_editing_target v in
    (
      i,
      ap (λ p. job_override p (map (row_of w.cell) w.rows)) params
          ∙ ap (λ rs. job_override v.override_params (map (row_of w.cell) rs)) rows
          ∙ ap (λ cs. job_override v.override_params (map (row_of cs) v.rows)) cells,
    )
handle_all-IsValid (e ∷ es) v i may =
    handle_all-IsValid es (handle e v) (handle-IsValid e v i may.0) may.1
