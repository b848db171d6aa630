-- ===== src/Options/RoundTrip.antt =====
-- The options of an earlier execution through the dialog's form back to the server.
use azkaban_private.Prelude.{
  ◌≡◌, refl, if◌then◌else◌, Bool, false, true, ◌||◌, ◌&&◌, not, Option, none, some, List, [],
  String, str_eq, lookup, arith,
}
use azkaban_private.Disable.{Entries}
use azkaban_private.Options.{
  Params, Form, FlowInfo, ExecutingData, flow_override, execution_option_data, join, add_params,
  has_choice, check_radio, select_option, change_flow_info, Choices, neither, is_first, is_last,
  check_notify,
}
use azkaban_private.Options.Overrides.{IsObject, lookup-add_params}

-- A form as the page has it when it is loaded, for the values that its elements start with.
abbrev pub new_form : Option String → String → String → Option String → Option String → Form
new_form action failures successes concurrent pipeline = record {
  failure_action = action;
  failure_emails = failures;
  success_emails = successes;
  notify = neither;
  override_failure_emails = false;
  override_success_emails = false;
  failure_emails_disabled = false;
  success_emails_disabled = false;
  rows = [];
  concurrent = concurrent;
  pipeline_level = pipeline;
}

abbrev pub params_of : FlowInfo → Params
params_of i = elim i.flow_params [ none ↦ [] | some ps ↦ ps ]

-- What an execution is sent with, if the options of an earlier one are taken as they are.
abbrev pub resent : Choices → FlowInfo → Form → String → Entries → ExecutingData
resent choices i f flow disabled =
    execution_option_data flow disabled (change_flow_info choices i f)

-- From a new form, the options of an earlier execution, if the page has options or radio buttons for
-- them, are sent again as they were: the e-mail addresses joined by commas, the action on failure,
-- the parameters except one with an empty name, and the concurrent option, with the pipeline level
-- for "pipeline" and no level for any other. Of two notifications the one for the first failure is
-- lost, and the two flags for overriding are exchanged.
pub change_flow_info-execution_option_data :
    (choices : Choices) (i : FlowInfo) (action : Option String) (failures successes : String)
    (pipeline checked : Option String) (flow : String) (disabled : Entries)
    (failed succeeded : List String) (a c level : String)
    → IsObject (params_of i)
    → i.failure_emails ≡ some failed
    → i.success_emails ≡ some succeeded
    → i.failure_action ≡ some a
    → i.concurrent_option ≡ some c
    → i.pipeline_level ≡ some level
    → has_choice a choices.failure_actions ≡ true
    → has_choice c choices.radios ≡ true
    → has_choice level choices.pipeline_levels ≡ true
    → let e =
        resent choices i (new_form action failures successes checked pipeline) flow disabled in
      (e.failure_emails ≡ join failed)
      × (e.success_emails ≡ join succeeded)
      × (e.failure_action ≡ some a)
      × (e.notify_failure_first ≡ (i.notify_first && not i.notify_last))
      × (e.notify_failure_last ≡ i.notify_last)
      × ((k : String)
          → lookup k e.flow_override ≡ (if str_eq k "" then none else lookup k (params_of i)))
      × (e.concurrent_option ≡ some c)
      × (e.pipeline_level ≡ (if str_eq c "pipeline" then some level else none))
      × (e.failure_emails_override ≡ i.success_emails_override)
      × (e.success_emails_override ≡ i.failure_emails_override)
unfolding execution_option_data change_flow_info
change_flow_info-execution_option_data choices i action failures successes pipeline checked flow
      disabled failed succeeded a c level once fe se fa co pl has_a has_c has_level =
    let checked_c : check_radio choices.radios i.concurrent_option checked ≡ some c =
      rw (co, has_c) refl in
    let selected : select_option choices.pipeline_levels i.pipeline_level pipeline ≡ some level =
      rw (pl, has_level) refl in
    (
      rw fe refl,
      rw se refl,
      rw (fa, has_a) refl,
      notify_first i.notify_first i.notify_last,
      notify_last i.notify_first i.notify_last,
      λ k. sent i.flow_params once k,
      checked_c,
      rw (checked_c, selected) refl,
      or_false i.success_emails_override,
      or_false i.failure_emails_override,
    )
  where
    notify_first : (f l : Bool) → is_first (check_notify f l neither) ≡ (f && not l)
    notify_first f true = ground arith
    notify_first true false = refl
    notify_first false false = refl

    notify_last : (f l : Bool) → is_last (check_notify f l neither) ≡ l
    notify_last f true = refl
    notify_last true false = refl
    notify_last false false = refl

    or_false : (b : Bool) → (b || false) ≡ b
    or_false true = refl
    or_false false = refl

    sent :
        (o : Option Params)
        → IsObject (elim o [ none ↦ [] | some ps ↦ ps ])
        → (k : String)
        → lookup k (flow_override (elim o [ none ↦ [] | some ps ↦ add_params ps [] ]) [])
          ≡ (if str_eq k "" then none else lookup k (elim o [ none ↦ [] | some ps ↦ ps ]))
    sent none once k = lookup-add_params k [] tt
    sent (some ps) once k = lookup-add_params k ps once
