-- ===== src/Sla/Tests.antt =====
-- Runs of view/schedule-sla.js.
use azkaban_private.Prelude.{
  ℕ, zero, suc, ◌≡◌, refl, Option, true, none, some, List, [], ◌∷◌, map, String,
}
use mathlib.Core.List.{reverse}
use azkaban_private.Sla.{
  SlaInfo, View, Event, add_row, edit, handle_all, handle_sla_cancel, handle, delete_rows,
  success_handler, init_from_sched, insert_rows, row_of, choose_option, any_action, duration_value,
  handle_set_sla, row_text,
}
use azkaban_private.Sla.Reopened.{sent_row, sent_text, handle_set_sla-init_from_sched}

-- The engine's functions, on the numbers that occur.
abbrev parse_int : String → Option ℕ
parse_int text = some 90

abbrev text_of : ℕ → String
text_of n = elim n [ zero ↦ "0" | suc zero ↦ "1" | suc (suc _) ↦ "30" ]

abbrev empty_view : View
empty_view = record { schedule_id = 0; emails = ""; names = []; rows = [] }

abbrev info : SlaInfo
info = record {
  sla_emails = none;
  all_job_names = "a" ∷ "b" ∷ [];
  settings =
      record { id = ""; rule = "FINISH"; duration = "90m"; actions = "KILL" ∷ [] }
      ∷ record { id = "b"; rule = "SUCCESS"; duration = "90m"; actions = "EMAIL" ∷ [] }
      ∷ [];
}

abbrev events : List Event
events = add_row ∷ edit "me" [] ∷ add_row ∷ []

opened :
    handle_set_sla (
      success_handler parse_int text_of true
        (some info)
        (init_from_sched 8 (handle_sla_cancel (handle_all events empty_view))))
    ≡ record {
      schedule_id = 8;
      sla_emails = "me";
      settings = "b,SUCCESS,1:30,true,false" ∷ ",FINISH,1:30,false,true" ∷ [];
    }
unfolding handle_set_sla success_handler init_from_sched insert_rows row_of choose_option any_action
    duration_value row_text handle_all handle handle_sla_cancel delete_rows
opened = refl

handle_set_sla-init_from_sched_example :
    handle_set_sla (
      success_handler parse_int text_of true
        (some info)
        (init_from_sched 8 (handle_sla_cancel (handle_all events empty_view))))
    ≡ record {
      schedule_id = 8;
      sla_emails = (handle_all events empty_view).emails;
      settings = map sent_text (reverse (map (sent_row parse_int text_of) info.settings));
    }
handle_set_sla-init_from_sched_example =
    handle_set_sla-init_from_sched parse_int text_of empty_view events 8 info
      ((refl, refl), ((refl, refl), tt))
