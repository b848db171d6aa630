-- ===== src/Permissions.antt =====
-- view/project-permissions.js: the dialog that changes the permissions of a user or a group.
pub mod Session
mod Tests
use Prim.Native.String.{◌++◌ as join_texts}
use azkaban_private.Prelude.Text.{substring_from}
use azkaban_private.Prelude.{
  ℕ, zero, suc, ◌==◌, ◌≡◌, if◌then◌else◌, Bool, false, true, ◌&&◌, ◌||◌, not, Option, none, some,
  List, [], ◌∷◌, String,
}

-- The names of the boxes of a permission.
pub data Name : Type 0 where
  admin read write execute schedule : Name

abbrev pub number : Name → ℕ
number admin = 0
number read = 1
number write = 2
number execute = 3
number schedule = 4

abbrev pub same : Name → Name → Bool
same a b = number a == number b

-- The object `permission`.
abbrev pub Permission : Type 0
Permission = Name → Bool

-- `permission[name] = checked`
abbrev pub assign : Name → Bool → Permission → Permission
assign name checked p n = if same name n then checked else p n

-- A box of the page: once it is `dirty`, by a click or by a script that sets its property, it no
-- longer follows its attribute.
pub record Box : Type 0 where
  pub checked : Bool
  pub disabled : Bool
  pub dirty : Bool

-- `.attr("checked", b)`, as the page's jQuery 1.9.1 does it: true sets the attribute alone, false the
-- property too.
abbrev pub set_checked : Bool → Box → Box
set_checked true b = record b { checked = if b.dirty then b.checked else true }
set_checked false b = record b { checked = false; dirty = true }

-- The view and the elements that it sets. The button's `disabled` is that of the element.
pub record View : Type 0 where
  pub userid : String
  pub new_perm : Bool
  pub group : Bool
  pub permission : Permission
  pub do_proxy : Option Bool
  pub box : Name → Box
  pub proxy_checked : Bool
  pub user_box : String
  pub user_box_disabled : Bool
  pub button_text : String
  pub button_class_disabled : Bool
  pub button_disabled : Bool

abbrev pub set_boxes : Permission → (Name → Box) → Name → Box
set_boxes p box admin = set_checked (p admin) (box admin)
set_boxes p box n =
    if p admin
    then record (set_checked true (box n)) { disabled = true }
    else record (set_checked (p n) (box n)) { disabled = false }

abbrev pub any_set : Permission → Bool
any_set p = p admin || p read || p write || p execute || p schedule

-- `changeCheckbox`. The assignment to `disabled` of the jQuery object has no effect on the button.
unfoldable pub change_checkbox : View → View
change_checkbox v = record v {
  box = set_boxes v.permission v.box;
  button_disabled = false;
  button_class_disabled = not (any_set v.permission) && v.new_perm;
  button_text =
      if any_set v.permission then "Commit" else if v.new_perm then v.button_text else "Remove";
}

-- What a new permission starts with.
abbrev pub default_permission : Permission
default_permission read = true
default_permission n = false

-- `display`, where `table` is what the boxes of the page's table say for a prefix of their ids.
unfoldable pub display : (String → Permission) → String → Bool → Bool → Bool → View → View
display table userid new_perm group proxy v =
    let id = if group || proxy then substring_from 6 userid else userid in
    change_checkbox (record v {
      userid = id;
      user_box = id;
      new_perm = new_perm;
      group = group;
      user_box_disabled = not new_perm;
      permission = if new_perm then default_permission else table userid;
    })

pub data Target : Type 0 where
  box_of : Name → Target
  proxy : Target

-- `handleCheckboxClick`, with the box as the click has left it.
unfoldable pub handle_checkbox_click : Target → Bool → View → View
handle_checkbox_click proxy checked v = change_checkbox (record v { do_proxy = some checked })
handle_checkbox_click (box_of name) checked v =
    change_checkbox (record v { permission = assign name checked v.permission })

-- A click on a box: the browser turns an enabled box over and calls the handler.
unfoldable pub click : Target → View → View
click proxy v =
    let checked = not v.proxy_checked in
    handle_checkbox_click proxy checked (record v { proxy_checked = checked })
click (box_of name) v =
    let checked = not (v.box name).checked in
    let turned = record v {
      box = λ n.
          if same name n then record (v.box n) { checked = checked; dirty = true } else v.box n;
    } in
    if (v.box name).disabled then v else handle_checkbox_click (box_of name) checked turned

abbrev pub click_all : List Target → View → View
click_all [] v = v
click_all (t ∷ ts) v = click_all ts (click t v)

-- The request of `handleChangePermissions`. The permission that it reads off the boxes is not sent.
pub record Request : Type 0 where
  pub name : String
  pub ajax : String
  pub permissions : Permission
  pub group : Bool

-- `trim` is the text's method.
unfoldable pub handle_change_permissions : (String → String) → View → Request
handle_change_permissions trim v = record {
  name = trim v.user_box;
  ajax = if v.new_perm then "addPermission" else "changePermission";
  permissions = v.permission;
  group = v.group;
}
