-- ===== src/Options.antt =====
-- view/flow-execute-dialog.js: the options of an execution, from an earlier execution into the
-- dialog's form, and from there to the server.
pub mod Overrides
pub mod RoundTrip
mod Tests
use Prim.Native.String.{◌++◌ as join_texts}
use azkaban_private.Prelude.{
  ℕ, ◌≡◌, if◌then◌else◌, Bool, false, true, ◌&&◌, ◌||◌, not, Option, none, some, List, [], ◌∷◌,
  ◌++◌, String, str_eq, lookup, insert, ◌>>=◌, map,
}
use azkaban_private.Flow.{Ref, Heap}
use azkaban_private.Disable.{Entries, gather_disabled_nodes}

-- An object with texts as its values.
abbrev pub Params : Type 0
Params = List (String × String)

-- A cell of the table of parameters: its text in a `span`, or an `input` while it is edited.
pub data Cell : Type 0 where
  shown editing : String → Cell

pub record Row : Type 0 where
  pub key : Cell
  pub value : Cell

-- The two radio buttons of the group "notify", of which one at most is checked.
pub data Notify : Type 0 where
  neither first last : Notify

abbrev pub is_first : Notify → Bool
is_first first = true
is_first _ = false

abbrev pub is_last : Notify → Bool
is_last last = true
is_last _ = false

-- The options of the page's selects, and the values of the radio buttons of the group "concurrent".
pub record Choices : Type 0 where
  pub failure_actions : List String
  pub pipeline_levels : List String
  pub radios : List String

-- What the form holds, where `none` is a select without a selected option, and a group without a
-- checked radio button. No element of the page has the id "queueLevel".
pub record Form : Type 0 where
  pub failure_action : Option String
  pub failure_emails : String
  pub success_emails : String
  pub notify : Notify
  pub override_failure_emails : Bool
  pub override_success_emails : Bool
  pub failure_emails_disabled : Bool
  pub success_emails_disabled : Bool
  pub rows : List Row
  pub concurrent : Option String
  pub pipeline_level : Option String

-- What the model holds of an earlier execution, where `none` is a field that is absent or, for a
-- text, empty.
pub record FlowInfo : Type 0 where
  pub success_emails : Option (List String)
  pub failure_emails : Option (List String)
  pub failure_action : Option String
  pub notify_first : Bool
  pub notify_last : Bool
  pub flow_params : Option (Params)
  pub concurrent_option : Option String
  pub pipeline_level : Option String
  pub failure_emails_override : Bool
  pub success_emails_override : Bool

-- `executingData`, where `none` is a property that is not set, undefined or null. Its `queueLevel` is
-- always undefined.
pub record ExecutingData : Type 0 where
  pub flow : String
  pub disabled : Entries
  pub failure_emails_override : Bool
  pub success_emails_override : Bool
  pub failure_action : Option String
  pub failure_emails : String
  pub success_emails : String
  pub notify_failure_first : Bool
  pub notify_failure_last : Bool
  pub flow_override : Params
  pub concurrent_option : Option String
  pub pipeline_level : Option String

-- `$(row).find('span')`: the texts of the cells that are not edited.
abbrev pub cell_spans : Cell → List String
cell_spans (shown s) = s ∷ []
cell_spans (editing s) = []

abbrev pub spans : Row → List String
spans r = cell_spans r.key ++ cell_spans r.value

-- `$(td[0]).text()` and `$(td[1]).text()`: the text of no element is empty.
abbrev pub row_entry : Row → String × String
row_entry r = elim (spans r) [
  | [] ↦ ("", "")
  | k ∷ rest ↦ elim rest [ [] ↦ (k, "") | v ∷ more ↦ (k, v) ]
]

-- The loop that fills `flowOverride`.
unfoldable pub flow_override : List Row → Params → Params
flow_override [] object = object
flow_override (r ∷ rows) object =
    let (key, val) = row_entry r in
    flow_override rows (if str_eq key "" then object else insert key val object)

-- `concurrentOption == option`
abbrev pub option_is : String → Option String → Bool
option_is option none = false
option_is option (some c) = str_eq c option

-- `getExecutionOptionData`, given what `gatherDisabledNodes` collects.
unfoldable pub execution_option_data : String → Entries → Form → ExecutingData
execution_option_data flow disabled f = record {
  flow = flow;
  disabled = disabled;
  failure_emails_override = f.override_failure_emails;
  success_emails_override = f.override_success_emails;
  failure_action = f.failure_action;
  failure_emails = f.failure_emails;
  success_emails = f.success_emails;
  notify_failure_first = is_first f.notify;
  notify_failure_last = is_last f.notify;
  flow_override = flow_override f.rows [];
  concurrent_option = f.concurrent;
  pipeline_level = if option_is "pipeline" f.concurrent then f.pipeline_level else none;
}

unfoldable pub get_execution_option_data :
    ℕ → String → Heap → List Ref → Form → Option ExecutingData
get_execution_option_data fuel flow h nodes f =
    gather_disabled_nodes fuel h nodes >>= λ disabled. some (execution_option_data flow disabled f)

-- `Array.prototype.join` without an argument.
abbrev pub join : List String → String
join [] = ""
join (s ∷ []) = s
join (s ∷ t ∷ rest) = join_texts s (join_texts "," (join (t ∷ rest)))

-- `handleAddRow`: the row goes to the end of the table.
abbrev pub handle_add_row : String → String → List Row → List Row
handle_add_row name value rows = rows ++ record { key = shown name; value = shown value } ∷ []

abbrev pub add_params : Params → List Row → List Row
add_params [] rows = rows
add_params ((key, value) ∷ params) rows = add_params params (handle_add_row key value rows)

abbrev pub has_choice : String → List String → Bool
has_choice c [] = false
has_choice c (r ∷ choices) = str_eq r c || has_choice c choices

-- `.val` of a select: without an option of that value, none stays selected.
abbrev pub select_option : List String → Option String → Option String → Option String
select_option options none old = old
select_option options (some s) old = if has_choice s options then some s else none

-- The radio button of that value is checked, if there is one among `radios`.
abbrev pub check_radio : List String → Option String → Option String → Option String
check_radio radios none old = old
check_radio radios (some c) old = if has_choice c radios then some c else old

-- The two buttons are checked one after the other, if they are to be.
abbrev pub check_notify : Bool → Bool → Notify → Notify
check_notify first_too last_too old = if last_too then last else if first_too then first else old

-- `changeFlowInfo`, for boxes and radio buttons that the user has not turned since the page was
-- loaded, so that they follow their attribute. The two flags for overriding are taken from each
-- other's field.
unfoldable pub change_flow_info : Choices → FlowInfo → Form → Form
change_flow_info choices i f = record {
  failure_action = select_option choices.failure_actions i.failure_action f.failure_action;
  failure_emails = elim i.failure_emails [ none ↦ f.failure_emails | some l ↦ join l ];
  success_emails = elim i.success_emails [ none ↦ f.success_emails | some l ↦ join l ];
  notify = check_notify i.notify_first i.notify_last f.notify;
  override_failure_emails = i.success_emails_override || f.override_failure_emails;
  override_success_emails = i.failure_emails_override || f.override_success_emails;
  failure_emails_disabled = not i.success_emails_override || f.failure_emails_disabled;
  success_emails_disabled = not i.failure_emails_override || f.success_emails_disabled;
  rows = elim i.flow_params [ none ↦ f.rows | some params ↦ add_params params f.rows ];
  concurrent = check_radio choices.radios i.concurrent_option f.concurrent;
  pipeline_level = select_option choices.pipeline_levels i.pipeline_level f.pipeline_level;
}

-- The clicks on the two boxes for overriding.
abbrev pub click_override_success : Form → Form
click_override_success f = record f {
  override_success_emails = not f.override_success_emails;
  success_emails_disabled = f.override_success_emails;
}

abbrev pub click_override_failure : Form → Form
click_override_failure f = record f {
  override_failure_emails = not f.override_failure_emails;
  failure_emails_disabled = f.override_failure_emails;
}
