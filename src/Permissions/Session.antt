-- ===== src/Permissions/Session.antt =====
-- The dialog through every session of clicks, against a permission whose fields are turned over.
use azkaban_private.Prelude.{
  ◌≡◌, refl, sym, ◌∙◌, ap, subst, fun_ext, All, ◌≢◌, if◌then◌else◌, Bool, false, true, ◌&&◌, ◌||◌,
  not, some, List, [], ◌∷◌, arith, Bool-cases, inl, inr, String,
}
use azkaban_private.Permissions.{
  Name, admin, read, write, execute, schedule, same, Permission, assign, Box, View, set_boxes,
  set_checked, any_set, default_permission, change_checkbox, display, Target, box_of, proxy,
  handle_checkbox_click, click, click_all, handle_change_permissions,
}

-- A box turned over; while the permission is that of an administrator, only that box counts.
abbrev pub turn : Target → Permission → Permission
turn proxy p = p
turn (box_of admin) p = assign admin (not (p admin)) p
turn (box_of n) p = if p admin then p else assign n (not (p n)) p

abbrev pub turn_all : List Target → Permission → Permission
turn_all [] p = p
turn_all (t ∷ ts) p = turn_all ts (turn t p)

abbrev is_admin : Name → Bool
is_admin n = same admin n

-- A box shows its right. While the permission is an administrator's, it is checked instead if it is
-- not dirty.
abbrev pub shown_checked : Box → Permission → Name → Bool
shown_checked b p n = p n || (p admin && not b.dirty)

-- What the dialog shows for the permission `p`.
pub record Shows (p : Permission) (v : View) : Type 0 where
  pub holds : v.permission ≡ p
  pub checked : (n : Name) → (v.box n).checked ≡ shown_checked (v.box n) p n
  pub disabled : (n : Name) → (v.box n).disabled ≡ (p admin && not (same admin n))
  pub enabled_button : v.button_disabled ≡ false
  pub dimmed : v.button_class_disabled ≡ (not (any_set p) && v.new_perm)
  pub commits : any_set p ≡ true → v.button_text ≡ "Commit"
  pub removes : any_set p ≡ false → v.new_perm ≡ false → v.button_text ≡ "Remove"

-- Each dirty box shows its right.
abbrev ShowsRights : Permission → (Name → Box) → Type 0
ShowsRights p box = (n : Name) → (box n).dirty ≡ true → (box n).checked ≡ p n

-- One box after `changeCheckbox`, where `a` says whether the permission is an administrator's.
box_shows :
    (a b : Bool) (box : Box)
    → (box.dirty ≡ true → box.checked ≡ b)
    → let box' : Box =
        if a
        then record (set_checked true box) { disabled = true }
        else record (set_checked b box) { disabled = false } in
      box'.checked ≡ (b || (a && not box'.dirty))
box_shows true true box right = ground (arith, right)
box_shows true false box right = ground (arith, right)
box_shows false true box right = ground (arith, right)
box_shows false false box right = refl

admin_box_shows :
    (a : Bool) (box : Box)
    → (box.dirty ≡ true → box.checked ≡ a)
    → (set_checked a box).checked ≡ (a || (a && not (set_checked a box).dirty))
admin_box_shows true box right = ground (arith, right)
admin_box_shows false box right = refl

set_boxes-checked :
    (p : Permission) (box : Name → Box) (n : Name)
    → ShowsRights p box
    → (set_boxes p box n).checked ≡ shown_checked (set_boxes p box n) p n
set_boxes-checked p box admin rights = admin_box_shows (p admin) (box admin) (rights admin)
set_boxes-checked p box read rights = box_shows (p admin) (p read) (box read) (rights read)
set_boxes-checked p box write rights = box_shows (p admin) (p write) (box write) (rights write)
set_boxes-checked p box execute rights =
    box_shows (p admin) (p execute) (box execute) (rights execute)
set_boxes-checked p box schedule rights =
    box_shows (p admin) (p schedule) (box schedule) (rights schedule)

set_boxes-disabled :
    (p : Permission) (box : Name → Box) (n : Name)
    → (box admin).disabled ≡ false
    → (set_boxes p box n).disabled ≡ (p admin && not (same admin n))
set_boxes-disabled p box admin enabled = ground (arith, enabled)
set_boxes-disabled p box read enabled = ground arith
set_boxes-disabled p box write enabled = ground arith
set_boxes-disabled p box execute enabled = ground arith
set_boxes-disabled p box schedule enabled = ground arith

change_checkbox-Shows :
    (v : View)
    → (v.box admin).disabled ≡ false
    → ShowsRights v.permission v.box
    → Shows v.permission (change_checkbox v)
unfolding change_checkbox
change_checkbox-Shows v enabled rights = record {
  holds = refl;
  checked = λ n. set_boxes-checked v.permission v.box n rights;
  disabled = λ n. set_boxes-disabled v.permission v.box n enabled;
  enabled_button = refl;
  dimmed = refl;
  commits = λ e. rw e refl;
  removes = λ e f. rw (e, f) refl;
}

module _ {A : Type 0} (P : A → Type 0) (x y : A) where
  then_branch : (b : Bool) → b ≡ true → P x → P (if b then x else y)
  then_branch b e = subst (λ c. P (if c then x else y)) (sym e)

  else_branch : (b : Bool) → b ≡ false → P y → P (if b then x else y)
  else_branch b e = subst (λ c. P (if c then x else y)) (sym e)

admin_enabled : (p : Permission) (v : View) → Shows p v → (v.box admin).disabled ≡ false
admin_enabled p v s = let e = s.disabled admin in ground (arith, e)

still_right : (p : Permission) (v : View) → Shows p v → ShowsRights p v.box
still_right p v s n dirty = let e = s.checked n in ground (arith, e, dirty)

-- A click on an enabled box.
click-enabled :
    (n : Name) (p : Permission) (v : View)
    → Shows p v
    → (v.box n).disabled ≡ false
    → Shows (assign n (not (v.box n).checked) p) (click (box_of n) v)
unfolding click handle_checkbox_click
click-enabled n p v s enabled =
    let checked = not (v.box n).checked in
    let turned : View = record v {
      permission = assign n checked v.permission;
      box = λ m. if same n m then record (v.box m) { checked = checked; dirty = true } else v.box m;
    } in
    let on = admin_enabled p v s in
    let rights : ShowsRights turned.permission turned.box = λ m dirty.
      elim (Bool-cases (same n m)) [
        | inl here ↦ rw here refl
        | inr other ↦
            rw other (still_right p v s m (rw other at dirty) ∙ ap (λ q. q m) (sym s.holds))
      ] in
    else_branch (Shows (assign n checked p)) v (change_checkbox turned) (v.box n).disabled enabled (
      subst (λ q. Shows q (change_checkbox turned)) (ap (assign n checked) s.holds)
        (change_checkbox-Shows turned (ground (arith, on)) rights))

click-disabled :
    (n : Name) (p : Permission) (v : View)
    → Shows p v
    → (v.box n).disabled ≡ true
    → Shows p (click (box_of n) v)
unfolding click
click-disabled n p v s off = then_branch (Shows p) v _ (v.box n).disabled off s

click-other :
    (n : Name) (p : Permission) (v : View)
    → same admin n ≡ false
    → Shows p v
    → Shows (if p admin then p else assign n (not (p n)) p) (click (box_of n) v)
click-other n p v other s =
    let off = s.disabled n in
    elim (Bool-cases (p admin)) [
      | inl e ↦ rw e (click-disabled n p v s (ground (arith, off)))
      | inr e ↦ rw e (
          let shown = s.checked n in
          subst (λ b. Shows (assign n (not b) p) (click (box_of n) v)) (ground (arith, shown, e))
            (click-enabled n p v s (ground (arith, off))))
    ]

-- The dialog follows each click.
click-Shows : (t : Target) (p : Permission) (v : View) → Shows p v → Shows (turn t p) (click t v)
unfolding click handle_checkbox_click
click-Shows proxy p v s =
    let w : View = record v {
      proxy_checked = not v.proxy_checked;
      do_proxy = some (not v.proxy_checked);
    } in
    subst (λ q. Shows q (change_checkbox w)) s.holds
      (change_checkbox-Shows w (admin_enabled p v s)
        (λ n dirty. still_right p v s n dirty ∙ ap (λ q. q n) (sym s.holds)))
click-Shows (box_of admin) p v s =
    let shown = s.checked admin in
    subst (λ b. Shows (assign admin (not b) p) (click (box_of admin) v)) (ground (arith, shown))
      (click-enabled admin p v s (admin_enabled p v s))
click-Shows (box_of read) p v s = click-other read p v refl s
click-Shows (box_of write) p v s = click-other write p v refl s
click-Shows (box_of execute) p v s = click-other execute p v refl s
click-Shows (box_of schedule) p v s = click-other schedule p v refl s

click_all-Shows :
    (ts : List Target) (p : Permission) (v : View)
    → Shows p v
    → Shows (turn_all ts p) (click_all ts v)
click_all-Shows [] p v s = s
click_all-Shows (t ∷ ts) p v s = click_all-Shows ts (turn t p) (click t v) (click-Shows t p v s)

-- What `display` starts from.
abbrev pub first_permission : (String → Permission) → String → Bool → Permission
first_permission table userid new_perm = if new_perm then default_permission else table userid

-- After `display`, where no box of the page is dirty yet, and any clicks, the dialog has the
-- permission that the clicks make of the one it was opened with, where while it is an administrator's
-- no other box counts: each box is checked exactly if the permission has it or, while it is an
-- administrator's, the box is not dirty; the other boxes are disabled exactly then; and the request
-- has this permission and not the boxes.
pub session-Shows :
    (table : String → Permission) (userid : String) (new_perm group proxy_user : Bool) (v : View)
    (ts : List Target) (trim : String → String)
    → (v.box admin).disabled ≡ false
    → ((n : Name) → (v.box n).dirty ≡ false)
    → let p = turn_all ts (first_permission table userid new_perm) in
      let w = click_all ts (display table userid new_perm group proxy_user v) in
      Shows p w × ((handle_change_permissions trim w).permissions ≡ p)
unfolding display handle_change_permissions
session-Shows table userid new_perm group proxy_user v ts trim enabled clean =
    let p = first_permission table userid new_perm in
    let shown =
      click_all-Shows ts p (display table userid new_perm group proxy_user v)
        (change_checkbox-Shows _ enabled (λ n dirty. let e = clean n in cc)) in
    (shown, shown.holds)

turn-fixed : (t : Target) (q : Permission) → q admin ≡ true → t ≢ box_of admin → turn t q ≡ q
turn-fixed proxy q on other = refl
turn-fixed (box_of admin) q on other = absurd (other refl)
turn-fixed (box_of read) q on other = rw on refl
turn-fixed (box_of write) q on other = rw on refl
turn-fixed (box_of execute) q on other = rw on refl
turn-fixed (box_of schedule) q on other = rw on refl

turn_all-fixed :
    (ts : List Target) (q : Permission)
    → q admin ≡ true
    → All (λ t. t ≢ box_of admin) ts
    → turn_all ts q ≡ q
turn_all-fixed [] q on others = refl
turn_all-fixed (t ∷ ts) q on (other, others) =
    ap (turn_all ts) (turn-fixed t q on other) ∙ turn_all-fixed ts q on others

-- On screen, turning the administrator's box on and later off again gives back what every box
-- showed, whatever other boxes are clicked in between.
pub click_all-restores :
    (p : Permission) (v : View) (ts : List Target)
    → Shows p v
    → p admin ≡ false
    → All (λ t. t ≢ box_of admin) ts
    → let w = click (box_of admin) (click_all ts (click (box_of admin) v)) in
      (n : Name)
      → ((w.box n).checked ≡ (v.box n).checked)
        × ((w.box n).disabled ≡ (v.box n).disabled)
        × (w.permission n ≡ v.permission n)
click_all-restores p v ts s off others n =
    let q = assign admin (not (p admin)) p in
    let fixed = turn_all-fixed ts q (ground (arith, off)) others in
    let back : assign admin (not (q admin)) q ≡ p = fun_ext (restored p off) in
    let last =
      click-Shows (box_of admin) (turn_all ts q) (click_all ts (click (box_of admin) v))
        (click_all-Shows ts q (click (box_of admin) v) (click-Shows (box_of admin) p v s)) in
    let shown =
      subst (λ r. Shows r (click (box_of admin) (click_all ts (click (box_of admin) v))))
        (ap (turn (box_of admin)) fixed ∙ back) last in
    (
      let e = shown.checked n in let e' = s.checked n in ground (arith, e, e', off),
      shown.disabled n ∙ sym (s.disabled n),
      ap (λ r. r n) (shown.holds ∙ sym s.holds),
    )
  where
    restored :
        (p : Permission)
        → p admin ≡ false
        → (m : Name)
        → assign admin
            (not (assign admin (not (p admin)) p admin))
            (assign admin (not (p admin)) p)
            m
          ≡ p m
    restored p e admin = ground (arith, e)
    restored p e read = refl
    restored p e write = refl
    restored p e execute = refl
    restored p e schedule = refl
