-- ===== src/StatusClasses/Kept.antt =====
-- What removing the classes of `statusList` leaves.
use azkaban_private.Prelude.{
  ◌≡◌, refl, ◌∙◌, if◌then◌else◌, Bool, true, false, Option, none, some, List, [], ◌∷◌, ◌||◌,
  Bool-cases, inl, inr,
}
use azkaban_private.Status.{Status, is, status_list}
use azkaban_private.StatusClasses.{
  Classes, remove_class, add_class, has_class, remove_all_status, show_status, change_status,
  change_all,
}

abbrev pub is_listed : Status → List Status → Bool
is_listed t [] = false
is_listed t (s ∷ statuses) = let rest = is_listed t statuses in is s t || rest

pub remove_all_status_lem :
    (statuses : List Status) (c : Classes) (t : Status)
    → remove_all_status statuses c t ≡ (if is_listed t statuses then false else c t)
remove_all_status_lem [] c t = refl
remove_all_status_lem (s ∷ statuses) c t =
    remove_all_status_lem statuses (remove_class s c) t ∙ both (is s t) (is_listed t statuses) (c t)
  where
    both :
        (a b d : Bool)
        → (if b then false else if a then false else d) ≡ (if a || b then false else d)
    both true true d = refl
    both true false d = refl
    both false true d = refl
    both false false d = refl

add_class-true :
    (status : Option Status) (c : Classes) (t : Status) → c t ≡ true → add_class status c t ≡ true
add_class-true none c t e = e
add_class-true (some s) c t e = elim (Bool-cases (is s t)) [ inl f ↦ rw f refl | inr f ↦ rw f e ]

change_status-kept :
    (status : Option Status) (c : Classes) (t : Status)
    → is_listed t status_list ≡ false
    → c t ≡ true
    → change_status status c t ≡ true
unfolding change_status show_status
change_status-kept status c t unlisted e = elim (Bool-cases (has_class status c)) [
  | inl f ↦ rw f e
  | inr f ↦ rw f (
      add_class-true status (remove_all_status status_list c) t
        (remove_all_status_lem status_list c t ∙ rw unlisted e))
]

-- An element that has the class of a status that `statusList` does not have, as it does not have
-- PREPARING, keeps this class through every sequence of changes of its status.
pub change_all-kept :
    (statuses : List (Option Status)) (c : Classes) (t : Status)
    → is_listed t status_list ≡ false
    → c t ≡ true
    → change_all statuses c t ≡ true
change_all-kept [] c t unlisted e = e
change_all-kept (status ∷ statuses) c t unlisted e =
    change_all-kept statuses (change_status status c) t unlisted
      (change_status-kept status c t unlisted e)
