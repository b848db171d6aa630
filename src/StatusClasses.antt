-- ===== src/StatusClasses.antt =====
-- The class of an element that says the status of its node: handleRemoveAllStatus of
-- view/svg-graph.js, StatusView of view/exflow.js, and changeStatuses of view/job-list.js.
pub mod Shown
pub mod Tree
pub mod Kept
mod Tests
use azkaban_private.Prelude.{
  ℕ, zero, suc, ◌==◌, if◌then◌else◌, Bool, false, true, Option, none, some, List, [], ◌∷◌, ◌>>=◌,
}
use azkaban_private.Flow.{Ref, Heap}
use azkaban_private.Status.{Status, is, status_list}

-- The classes of an element, of those that are names of statuses.
abbrev pub Classes : Type 0
Classes = Status → Bool

abbrev pub remove_class : Status → Classes → Classes
remove_class s c t = if is s t then false else c t

-- An absent status adds no class, and no element has it.
abbrev pub add_class : Option Status → Classes → Classes
add_class none c = c
add_class (some s) c = λ t. if is s t then true else c t

abbrev pub has_class : Option Status → Classes → Bool
has_class none c = false
has_class (some s) c = c s

-- The loop over `statusList`.
abbrev pub remove_all_status : List Status → Classes → Classes
remove_all_status [] c = c
remove_all_status (s ∷ statuses) c = remove_all_status statuses (remove_class s c)

-- What the graph and the head of the page do with their elements.
unfoldable pub show_status : Option Status → Classes → Classes
show_status status c = add_class status (remove_all_status status_list c)

-- What the list does with an element.
unfoldable pub change_status : Option Status → Classes → Classes
change_status status c = if has_class status c then c else show_status status c

abbrev pub change_all : List (Option Status) → Classes → Classes
change_all [] c = c
change_all (status ∷ statuses) c = change_all statuses (change_status status c)

abbrev pub change_at : Heap → Ref → (Ref → Classes) → Ref → Classes
change_at h r elements x = if r == x then change_status (h x).status (elements x) else elements x

-- `changeStatuses`: the elements after it. The fuel bounds how deep the flows are nested.
module _ (h : Heap) where
  unfoldable pub change_list :
      (Ref → (Ref → Classes) → Option (Ref → Classes))
      → List Ref
      → (Ref → Classes)
      → Option (Ref → Classes)
  change_list change [] elements = some elements
  change_list change (r ∷ rs) elements = change r (change_at h r elements) >>= change_list change rs

  unfoldable pub change_statuses : ℕ → Ref → (Ref → Classes) → Option (Ref → Classes)
  change_statuses zero d elements = none
  change_statuses (suc fuel) d elements = change_list (change_statuses fuel) (h d).nodes elements
