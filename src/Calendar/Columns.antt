-- ===== src/Calendar/Columns.antt =====
-- How view/schedule-svg.js draws the items of a day: its filters, the columns, and the boxes.
pub mod Apart
pub mod Fewest
use azkaban_private.Prelude.{
  ℕ, ◌+◌, ◌-◌, ◌*◌, ◌/◌, ltb, if◌then◌else◌, Bool, true, false, ◌&&◌, ◌||◌, List, [], ◌∷◌, ◌++◌,
  String, str_eq,
}

pub record Item : Type 0 where
  pub schedule : ℕ
  pub project : String
  pub flow : String
  pub time : ℕ
  pub stop : ℕ

-- The test of `intersectArray`.
abbrev pub intersects : Item → Item → Bool
intersects a b = ltb a.time b.stop && ltb b.time a.stop

-- `intersectArray`
unfoldable pub intersect_array : Item → List Item → Bool
intersect_array a [] = false
intersect_array a (b ∷ array) = intersects a b || intersect_array a array

-- `filterProject` and `filterFlow`, by the names that are compared.
pub record Filters : Type 0 where
  pub projects : List String
  pub flows : List (String × String)

abbrev pub any_project : Item → List String → Bool
any_project item [] = false
any_project item (p ∷ projects) = str_eq item.project p || any_project item projects

abbrev pub any_flow : Item → List (String × String) → Bool
any_flow item [] = false
any_flow item ((p, f) ∷ flows) =
    (str_eq item.project p && str_eq item.flow f) || any_flow item flows

-- `filterApplies`
unfoldable pub filter_applies : Filters → Item → Bool
filter_applies filters item =
    if any_project item filters.projects then true else any_flow item filters.flows

-- The menu's "Hide Job" and "Hide All Jobs From the Same Project".
unfoldable pub hide_job : Item → Filters → Filters
hide_job item filters = record filters { flows = filters.flows ++ (item.project, item.flow) ∷ [] }

unfoldable pub hide_project : Item → Filters → Filters
hide_project item filters = record filters { projects = filters.projects ++ item.project ∷ [] }

-- The loop that looks for a column.
unfoldable pub place : Item → List (List Item) → List (List Item)
place item [] = (item ∷ []) ∷ []
place item (column ∷ columns) =
    if intersect_array item column
    then column ∷ place item columns
    else (column ++ item ∷ []) ∷ columns

-- The loop over the sorted items of a day.
unfoldable pub fill_columns : Filters → List Item → List (List Item) → List (List Item)
fill_columns filters [] columns = columns
fill_columns filters (item ∷ items) columns =
    fill_columns filters items (if filter_applies filters item then columns else place item columns)

unfoldable pub columns_of : Filters → List Item → List (List Item)
columns_of filters items = fill_columns filters items ([] ∷ [])

-- The upper end of an item's box, from the hours and minutes of its start, and the box's height.
unfoldable pub start_y : ℕ → ℕ → ℕ
start_y hours minutes = hours * 40 + minutes * 40 / 60

unfoldable pub delta_y : ℕ → ℕ
delta_y length =
    let height = (length * 40 + 3600000 - 1) / 3600000 in if ltb height 5 then 5 else height
