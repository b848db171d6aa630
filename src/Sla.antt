-- ===== src/Sla.antt =====
-- view/schedule-sla.js: the rules of a schedule's agreement on service levels, as a table in a
-- dialog. The row of the table that holds its button is left out of `rows`. `parse_int` and
-- `text_of` are the engine's parseInt, `none` for NaN, and its text of a number.
pub mod Reopened
mod Tests
use Prim.Native.String.{◌++◌ as join_texts}
use azkaban_private.Prelude.{
  ℕ, ◌/◌, ◌%◌, if◌then◌else◌, Bool, true, false, Option, none, some, List, [], ◌∷◌, ◌++◌, map,
  String, str_eq,
}

-- A setting of the answer to "slaInfo".
pub record Setting : Type 0 where
  pub id : String
  pub rule : String
  pub duration : String
  pub actions : List String

-- That answer, unless it has an error: `sla_emails` may be missing, and no settings are none.
pub record SlaInfo : Type 0 where
  pub sla_emails : Option (List String)
  pub all_job_names : List String
  pub settings : List Setting

-- What the elements of a row hold.
pub record Row : Type 0 where
  pub id : String
  pub rule : String
  pub duration : String
  pub email : Bool
  pub kill : Bool

-- The dialog: `names` is `indexToName` in the order of its indices.
pub record View : Type 0 where
  pub schedule_id : ℕ
  pub emails : String
  pub names : List String
  pub rows : List Row

abbrev pub rule_box_options : List String
rule_box_options = "SUCCESS" ∷ "FINISH" ∷ []

-- The value of a select whose first option is selected; without options it is empty.
abbrev pub first_option : List String → String
first_option [] = ""
first_option (name ∷ names) = name

-- The loop over the options, which selects each that is equal to a text; the last one stays.
unfoldable pub choose_option : String → String → List String → String
choose_option value wanted [] = value
choose_option value wanted (name ∷ names) =
    choose_option (if str_eq wanted name then name else value) wanted names

-- The loop over the actions.
unfoldable pub any_action : String → List String → Bool → Bool
any_action act [] checked = checked
any_action act (a ∷ actions) checked =
    any_action act actions (if str_eq a act then true else checked)

-- `text.substring(0, text.length - 1)`
abbrev pub drop_last : String → String
drop_last String.[] = ""
drop_last (String.◌∷◌ c String.[]) = ""
drop_last (String.◌∷◌ c (String.◌∷◌ d text)) = String.◌∷◌ c (drop_last (String.◌∷◌ d text))

-- `slaEmails.join()`
abbrev pub join : List String → String
join [] = ""
join (e ∷ []) = e
join (e ∷ f ∷ emails) = join_texts e (join_texts "," (join (f ∷ emails)))

module _ (parse_int : String → Option ℕ) (text_of : ℕ → String) where
  -- The value of a row's input for the duration.
  unfoldable pub duration_value : String → String
  duration_value raw_minutes = elim (parse_int (drop_last raw_minutes)) [
    | none ↦ "NaN:NaN"
    | some minutes ↦ join_texts (text_of (minutes / 60)) (join_texts ":" (text_of (minutes % 60)))
  ]

  unfoldable pub row_of : List String → Setting → Row
  row_of names setting = record {
    id = choose_option (first_option names) setting.id names;
    rule = choose_option (first_option rule_box_options) setting.rule rule_box_options;
    duration = duration_value setting.duration;
    email = any_action "EMAIL" setting.actions false;
    kill = any_action "KILL" setting.actions false;
  }

  -- The loop over the settings, each of which becomes the first row.
  unfoldable pub insert_rows : List String → List Setting → List Row → List Row
  insert_rows names [] rows = rows
  insert_rows names (setting ∷ settings) rows =
      insert_rows names settings (row_of names setting ∷ rows)

  -- `successHandler`, with `none` for an error; `last` says whether it is that of the last call of
  -- `initFromSched`, since each call has its own `indexToName`.
  unfoldable pub success_handler : Bool → Option SlaInfo → View → View
  success_handler last none view = view
  success_handler last (some info) view =
      let names = "" ∷ info.all_job_names in
      record view {
        emails = elim info.sla_emails [ none ↦ view.emails | some emails ↦ join emails ];
        names = if last then names else view.names;
        rows = insert_rows names info.settings view.rows;
      }

-- `initFromSched`; the answer to its request comes later.
unfoldable pub init_from_sched : ℕ → View → View
init_from_sched schedule_id view = record view { schedule_id = schedule_id; names = [] }

-- `handleAddRow`
unfoldable pub handle_add_row : View → View
handle_add_row view = record view {
  rows =
      view.rows
      ++ record {
        id = first_option view.names;
        rule = first_option rule_box_options;
        duration = "";
        email = false;
        kill = false;
      }
        ∷ [];
}

-- The loop of `handleSlaCancel` over as many rows as there are.
unfoldable pub delete_rows : List Row → List Row → List Row
delete_rows [] rows = rows
delete_rows (_ ∷ counted) [] = delete_rows counted []
delete_rows (_ ∷ counted) (_ ∷ rows) = delete_rows counted rows

-- `handleSlaCancel`
unfoldable pub handle_sla_cancel : View → View
handle_sla_cancel view = record view { rows = delete_rows view.rows view.rows }

abbrev pub bool_text : Bool → String
bool_text true = "true"
bool_text false = "false"

unfoldable pub row_text : Row → String
row_text row = join_texts row.id (
    join_texts "," (
      join_texts row.rule (
        join_texts "," (
          join_texts row.duration (
            join_texts ","
              (join_texts (bool_text row.email) (join_texts "," (bool_text row.kill))))))))

-- The request of `handleSetSla`.
pub record SlaRequest : Type 0 where
  pub schedule_id : ℕ
  pub sla_emails : String
  pub settings : List String

unfoldable pub handle_set_sla : View → SlaRequest
handle_set_sla view = record {
  schedule_id = view.schedule_id;
  sla_emails = view.emails;
  settings = map row_text view.rows;
}

-- What the user does while the dialog is open: a row is added, or the elements hold something else.
pub data Event : Type 0 where
  add_row : Event
  edit : String → List Row → Event

unfoldable pub handle : Event → View → View
unfolding handle_add_row
handle add_row view = handle_add_row view
handle (edit emails rows) view = record view { emails = emails; rows = rows }

unfoldable pub handle_all : List Event → View → View
handle_all [] view = view
handle_all (event ∷ events) view = handle_all events (handle event view)
