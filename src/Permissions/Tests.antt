-- ===== src/Permissions/Tests.antt =====
-- Sessions with the dialog, and the theorems about it there.
use azkaban_private.Prelude.{◌≡◌, refl, false, true, none, List, [], ◌∷◌, String}
use azkaban_private.Prelude.Text.{substring_from}
use azkaban_private.Permissions.{
  admin, write, Permission, View, change_checkbox, display, Target, box_of, handle_checkbox_click,
  click, click_all, default_permission, handle_change_permissions,
}
use azkaban_private.Permissions.Session.{Shows, turn_all, first_permission, session-Shows}

abbrev no_permission : String → Permission
no_permission s n = false

-- The dialog's elements before it is first shown.
abbrev hidden : View
hidden = record {
  userid = "";
  new_perm = false;
  group = false;
  permission = default_permission;
  do_proxy = none;
  box = λ n. record { checked = false; disabled = false; dirty = false };
  proxy_checked = false;
  user_box = "";
  user_box_disabled = false;
  button_text = "";
  button_class_disabled = false;
  button_disabled = false;
}

group_name : substring_from 6 "group-etl" ≡ "etl"
group_name = refl

-- The administrator's box, then the box to write, which is disabled by then.
abbrev clicks : List Target
clicks = box_of admin ∷ box_of write ∷ []

abbrev after_clicks : View
after_clicks = click_all clicks (display no_permission "joe" true false false hidden)

write_shown : (after_clicks.box write).checked ≡ false
unfolding display change_checkbox click handle_checkbox_click
write_shown = refl

write_not_sent : (handle_change_permissions (λ s. s) after_clicks).permissions write ≡ false
unfolding display change_checkbox click handle_checkbox_click handle_change_permissions
write_not_sent = refl

session-Shows_example :
    let p = turn_all clicks (first_permission no_permission "joe" true) in
    let w = after_clicks in Shows p w × ((handle_change_permissions (λ s. s) w).permissions ≡ p)
session-Shows_example =
    session-Shows no_permission "joe" true false false hidden clicks (λ s. s) refl (λ n. refl)

abbrev opened : View
opened = display no_permission "joe" true false false hidden

opened-Shows : Shows default_permission opened
opened-Shows =
    (session-Shows no_permission "joe" true false false hidden [] (λ s. s) refl (λ n. refl)).0
