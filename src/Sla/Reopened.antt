-- ===== src/Sla/Reopened.antt =====
-- What view/schedule-sla.js sends for a schedule whose dialog is opened after that of another one.
use azkaban_private.Prelude.{
  ℕ, ◌/◌, ◌%◌, ◌*◌, ◌-◌, Option, ap, ◌≡◌, refl, if◌then◌else◌, Bool, true, false, ◌||◌, none, some,
  ◌⊎◌, inl, inr, List, [], ◌∷◌, map, String, All, arith, str_eq, eq_iff,
}
use Prim.Native.String.{◌++◌ as join_texts}
use mathlib.Core.List.{reverse, reverse_aux}
use azkaban_private.Sla.{
  Setting, SlaInfo, Row, View, rule_box_options, choose_option, any_action, join, row_of,
  duration_value, drop_last, bool_text, success_handler, insert_rows, init_from_sched, delete_rows,
  handle_sla_cancel, row_text, handle_set_sla, Event, handle_all,
}

-- Whether a text is in a list.
abbrev pub is_in : String → List String → Bool
is_in text [] = false
is_in text (t ∷ texts) = str_eq t text || is_in text texts

choose_option-same :
    (value wanted : String) (names : List String)
    → (value ≡ wanted) ⊎ (is_in wanted names ≡ true)
    → choose_option value wanted names ≡ wanted
unfolding choose_option
choose_option-same value wanted [] (inl same) = same
choose_option-same value wanted [] (inr found) = cc
choose_option-same value wanted (name ∷ names) h =
    choose_option-same (if str_eq wanted name then name else value) wanted names (elim h [
      | inl same ↦ inl (ground (arith, eq_iff wanted name))
      | inr found ↦ ground (arith, eq_iff wanted name, eq_iff name wanted)
    ])

any_action-is_in :
    (act : String) (actions : List String) (checked : Bool)
    → any_action act actions checked ≡ (is_in act actions || checked)
unfolding any_action
any_action-is_in act [] checked = refl
any_action-is_in act (a ∷ actions) checked =
    ground (arith, any_action-is_in act actions (if str_eq a act then true else checked))

delete_rows-all : (rows : List Row) → delete_rows rows rows ≡ []
unfolding delete_rows
delete_rows-all [] = refl
delete_rows-all (row ∷ rows) = delete_rows-all rows

-- A number of minutes as hours, and the minutes that are left without them.
abbrev pub clock_text : (ℕ → String) → Option ℕ → String
clock_text text_of none = "NaN:NaN"
clock_text text_of (some minutes) =
    join_texts (text_of (minutes / 60)) (join_texts ":" (text_of (minutes - minutes / 60 * 60)))

duration_value-clock_text :
    (parse_int : String → Option ℕ) (text_of : ℕ → String) (text : String)
    → duration_value parse_int text_of text ≡ clock_text text_of (parse_int (drop_last text))
unfolding duration_value
duration_value-clock_text parse_int text_of text = of_minutes (parse_int (drop_last text))
  where
    of_minutes :
        (o : Option ℕ)
        → elim o [
          | none ↦ "NaN:NaN"
          | some minutes ↦
              join_texts (text_of (minutes / 60)) (join_texts ":" (text_of (minutes % 60)))
        ]
          ≡ clock_text text_of o
    of_minutes none = refl
    of_minutes (some minutes) =
        ap (λ (left : ℕ). join_texts (text_of (minutes / 60)) (join_texts ":" (text_of left)))
          (omega arith)

bool_text-if : (b : Bool) → bool_text b ≡ (if b then "true" else "false")
bool_text-if true = refl
bool_text-if false = refl

-- A row as it is sent: the values of its elements, separated by commas.
abbrev pub sent_text : Row → String
sent_text row = join (
    row.id
    ∷ row.rule
    ∷ row.duration
    ∷ (if row.email then "true" else "false")
    ∷ (if row.kill then "true" else "false")
    ∷ [])

row_text-sent_text : (rows : List Row) → map row_text rows ≡ map sent_text rows
unfolding row_text
row_text-sent_text [] = refl
row_text-sent_text (row ∷ rows) =
    let rest = row_text-sent_text rows in
    rw (bool_text-if row.email, bool_text-if row.kill, rest) refl

-- The row that a setting is sent as: its own texts, and whether its actions name EMAIL and KILL.
abbrev pub sent_row : (String → Option ℕ) → (ℕ → String) → Setting → Row
sent_row parse_int text_of setting = record {
  id = setting.id;
  rule = setting.rule;
  duration = clock_text text_of (parse_int (drop_last setting.duration));
  email = is_in "EMAIL" setting.actions;
  kill = is_in "KILL" setting.actions;
}

-- It names the flow or a job, and one of the rules that there are.
abbrev pub IsKnown : List String → Setting → Type 0
IsKnown job_names setting =
    (is_in setting.id ("" ∷ job_names) ≡ true) × (is_in setting.rule rule_box_options ≡ true)

module _ (parse_int : String → Option ℕ) (text_of : ℕ → String) where
  row_of-sent_row :
      (job_names : List String) (setting : Setting)
      → IsKnown job_names setting
      → row_of parse_int text_of ("" ∷ job_names) setting ≡ sent_row parse_int text_of setting
  unfolding row_of
  row_of-sent_row job_names setting (id, rule) = ground (
    arith,
    choose_option-same "" setting.id ("" ∷ job_names) (inr id),
    choose_option-same "SUCCESS" setting.rule rule_box_options (inr rule),
    any_action-is_in "EMAIL" setting.actions false,
    duration_value-clock_text parse_int text_of setting.duration,
    any_action-is_in "KILL" setting.actions false,
  )

  insert_rows-reverse :
      (job_names : List String) (settings : List Setting) (rows : List Row)
      → All (IsKnown job_names) settings
      → insert_rows parse_int text_of ("" ∷ job_names) settings rows
        ≡ reverse_aux (map (sent_row parse_int text_of) settings) rows
  unfolding insert_rows
  insert_rows-reverse job_names [] rows known = refl
  insert_rows-reverse job_names (setting ∷ settings) rows (first, known) =
      rw (row_of-sent_row job_names setting first)
        (insert_rows-reverse job_names settings (sent_row parse_int text_of setting ∷ rows) known)

  -- Whatever has been done in the dialog before, once it has been closed with no answer left to come,
  -- opening it for a schedule whose settings name the flow or a job and one of the rules, and setting
  -- them when the answer is there, sends exactly these settings, the last one first, with the hours
  -- and the minutes of the duration. The addresses are those of the schedule or, if the answer
  -- has none, those that the dialog held before, also if that was for another schedule.
  pub handle_set_sla-init_from_sched :
      (view : View) (events : List Event) (schedule_id : ℕ) (info : SlaInfo)
      → All (IsKnown info.all_job_names) info.settings
      → let before = handle_all events view in
        handle_set_sla (
          success_handler parse_int text_of true
            (some info)
            (init_from_sched schedule_id (handle_sla_cancel before)))
        ≡ record {
          schedule_id = schedule_id;
          sla_emails = elim info.sla_emails [ none ↦ before.emails | some emails ↦ join emails ];
          settings = map sent_text (reverse (map (sent_row parse_int text_of) info.settings));
        }
  unfolding handle_set_sla init_from_sched success_handler handle_sla_cancel
  handle_set_sla-init_from_sched view events schedule_id info known =
      let before = handle_all events view in
      rw
        (
          delete_rows-all before.rows,
          insert_rows-reverse info.all_job_names info.settings [] known,
          row_text-sent_text (reverse (map (sent_row parse_int text_of) info.settings)),
        )
        refl
