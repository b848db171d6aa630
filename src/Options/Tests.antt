-- ===== src/Options/Tests.antt =====
-- Options of an earlier execution, the table of parameters, and the theorems about them there.
use azkaban_private.Prelude.{
  ◌≡◌, refl, if◌then◌else◌, false, true, ◌&&◌, not, none, some, List, [], ◌∷◌, String, str_eq,
  lookup, insert,
}
use azkaban_private.Disable.{nil}
use azkaban_private.Options.{shown, editing, Row, Choices, FlowInfo, flow_override, join}
use azkaban_private.Options.RoundTrip.{new_form, resent, change_flow_info-execution_option_data}

abbrev earlier : FlowInfo
earlier = record {
  success_emails = some ("a@x" ∷ "b@x" ∷ []);
  failure_emails = some [];
  failure_action = some "cancelImmediately";
  notify_first = false;
  notify_last = true;
  flow_params = some (("p", "1") ∷ ("q", "2") ∷ []);
  concurrent_option = some "pipeline";
  pipeline_level = some "2";
  failure_emails_override = true;
  success_emails_override = false;
}

-- The second row of `p` counts; a key that is being edited is left out and the value stands for it.
abbrev table : List Row
table =
    record { key = shown "p"; value = shown "1" }
    ∷ record { key = shown "p"; value = shown "3" }
    ∷ record { key = shown ""; value = shown "4" }
    ∷ record { key = editing "q"; value = shown "5" }
    ∷ []

sent_table : flow_override table [] ≡ ("p", "3") ∷ ("5", "") ∷ []
unfolding flow_override insert
sent_table = refl

emails_joined : join ("a@x" ∷ "b@x" ∷ []) ≡ "a@x,b@x"
emails_joined = refl

-- Those of the page.
abbrev choices : Choices
choices = record {
  failure_actions = "finishCurrent" ∷ "cancelImmediately" ∷ "finishPossible" ∷ [];
  pipeline_levels = "1" ∷ "2" ∷ [];
  radios = "skip" ∷ "ignore" ∷ "pipeline" ∷ [];
}

change_flow_info-execution_option_data_example :
    let e =
      resent choices earlier
        (new_form (some "finishCurrent") "" "" (some "skip") (some "1"))
        "flow"
        nil in
    (e.failure_emails ≡ join [])
    × (e.success_emails ≡ join ("a@x" ∷ "b@x" ∷ []))
    × (e.failure_action ≡ some "cancelImmediately")
    × (e.notify_failure_first ≡ (false && not true))
    × (e.notify_failure_last ≡ true)
    × ((k : String)
        → lookup k e.flow_override
          ≡ (if str_eq k "" then none else lookup k (("p", "1") ∷ ("q", "2") ∷ [])))
    × (e.concurrent_option ≡ some "pipeline")
    × (e.pipeline_level ≡ (if str_eq "pipeline" "pipeline" then some "2" else none))
    × (e.failure_emails_override ≡ false)
    × (e.success_emails_override ≡ true)
unfolding lookup
change_flow_info-execution_option_data_example =
    change_flow_info-execution_option_data choices earlier (some "finishCurrent") "" "" (some "1")
      (some "skip") "flow" nil [] ("a@x" ∷ "b@x" ∷ []) "cancelImmediately" "pipeline" "2"
      (refl, (refl, tt)) refl refl refl refl refl refl refl refl
