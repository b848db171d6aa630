-- ===== src/JobEdit/Tests.antt =====
-- A job's properties in the table, edited and sent, and the theorems there.
use azkaban_private.Prelude.{
  ◌≡◌, refl, if◌then◌else◌, none, some, List, [], ◌∷◌, str_eq, lookup, insert, map, arith,
}
use azkaban_private.Options.{Params, shown, flow_override}
use azkaban_private.Options.Overrides.{IsObject}
use azkaban_private.JobEdit.{
  key_column, value_column, View, close_editing_target, handle_edit_column, handle_add_row, Event,
  click_cell, type_text, click_add, handle, handle_all, add_params, show_job, row_of, job_override,
  handle_set,
}
use azkaban_private.JobEdit.Edited.{IsValid}
use azkaban_private.JobEdit.Events.{AreEvents, all_shown, handle_all-IsValid}
use azkaban_private.JobEdit.Saved.{defined_value, handle_set-show_job}

abbrev empty_table : View
empty_table = record {
  cell = λ c. shown "";
  rows = [];
  next_row = 0;
  editing_target = none;
  override_params = [];
}

abbrev properties : Params
properties = ("type", "command") ∷ ("retries", "1") ∷ ("dependencies", "a,b") ∷ []

empty_table-IsValid : IsValid empty_table
empty_table-IsValid = record { edited = λ c. refl; made = λ c e. cc; listed = tt }

sent_as_shown :
    handle_set (show_job properties empty_table)
    ≡ ("retries", some "1") ∷ ("type", some "command") ∷ ("dependencies", some "a,b") ∷ []
unfolding handle_set show_job add_params handle_add_row close_editing_target job_override
    flow_override lookup insert
sent_as_shown = refl

properties-IsObject : IsObject properties
unfolding lookup
properties-IsObject = (refl, (refl, (refl, tt)))

handle_set-show_job_example : lookup "retries" (handle_set (show_job properties empty_table)) ≡ (
    if str_eq "type" "retries"
    then some (lookup "type" properties)
    else if str_eq "retries" ""
    then none
    else defined_value (lookup "retries" properties))
handle_set-show_job_example =
    handle_set-show_job properties empty_table properties-IsObject empty_table-IsValid refl refl
      "retries"

-- A row is added and its cells are filled; the second is still edited.
abbrev events : List Event
events =
    click_add
    ∷ click_cell (0, key_column)
    ∷ type_text "x"
    ∷ click_cell (0, value_column)
    ∷ type_text "y"
    ∷ []

edit_sent : handle_set (handle_all events empty_table) ≡ ("x", some "y") ∷ ("type", none) ∷ []
unfolding handle_set handle handle_edit_column handle_add_row close_editing_target job_override
    flow_override lookup insert
edit_sent = refl

events-AreEvents : AreEvents empty_table events
unfolding handle handle_edit_column handle_add_row close_editing_target
events-AreEvents = (tt, (omega arith, (tt, (omega arith, (tt, tt)))))

handle_all-IsValid_example :
    let w = handle_all events empty_table in
    IsValid w
    × (handle_set w ≡ job_override w.override_params (map (row_of (all_shown w.cell)) w.rows))
handle_all-IsValid_example =
    handle_all-IsValid events empty_table empty_table-IsValid events-AreEvents
