-- ===== src/Calendar/Columns/Apart.antt =====
-- What the columns of view/schedule-svg.js hold.
use azkaban_private.Prelude.{
  ◌≡◌, if◌then◌else◌, Bool-cases, false, inl, inr, List, [], ◌∷◌, ◌++◌, All, arith,
}
use mathlib.Core.List.{append-nil, append_assoc, Perm, perm_middle}
use mathlib.Core.List.Perm
use azkaban_private.Calendar.Columns.{
  Item, intersects, intersect_array, Filters, filter_applies, place, fill_columns,
}

-- No two of a column's items are shown at one time.
abbrev pub AreApart : List Item → Type 0
AreApart [] = Unit
AreApart (a ∷ column) = All (λ b. intersects a b ≡ false) column × AreApart column

-- The items that no filter hides.
abbrev pub unfiltered : Filters → List Item → List Item
unfiltered filters [] = []
unfiltered filters (item ∷ items) =
    if filter_applies filters item
    then unfiltered filters items
    else item ∷ unfiltered filters items

intersect_array-false :
    (a : Item) (column : List Item)
    → intersect_array a column ≡ false
    → All (λ b. intersects a b ≡ false) column
unfolding intersect_array
intersect_array-false a [] e = tt
intersect_array-false a (b ∷ column) e =
    (ground arith, intersect_array-false a column (ground arith))

pub append-All :
    (P : Item → Type 0) (a : Item) (column : List Item)
    → All P column
    → P a
    → All P (column ++ a ∷ [])
append-All P a [] all p = (p, tt)
append-All P a (b ∷ column) (first, all) p = (first, append-All P a column all p)

append-AreApart :
    (a : Item) (column : List Item)
    → AreApart column
    → All (λ b. intersects a b ≡ false) column
    → AreApart (column ++ a ∷ [])
append-AreApart a [] apart free = (tt, tt)
append-AreApart a (b ∷ column) (first, apart) (e, free) = (
  append-All (λ c. intersects b c ≡ false) a column first (ground arith),
  append-AreApart a column apart free,
)

place-AreApart :
    (a : Item) (columns : List (List Item)) → All AreApart columns → All AreApart (place a columns)
unfolding place
place-AreApart a [] apart = ((tt, tt), tt)
place-AreApart a (column ∷ columns) (first, apart) = elim (Bool-cases (intersect_array a column)) [
  | inl meets ↦ rw meets (first, place-AreApart a columns apart)
  | inr free ↦ rw free (append-AreApart a column first (intersect_array-false a column free), apart)
]

pub fill_columns-AreApart :
    (filters : Filters) (items : List Item) (columns : List (List Item))
    → All AreApart columns
    → All AreApart (fill_columns filters items columns)
unfolding fill_columns
fill_columns-AreApart filters [] columns apart = apart
fill_columns-AreApart filters (item ∷ items) columns apart =
    elim (Bool-cases (filter_applies filters item)) [
      | inl hidden ↦ rw hidden (fill_columns-AreApart filters items columns apart)
      | inr shown ↦ rw shown (
          fill_columns-AreApart filters items (place item columns)
            (place-AreApart item columns apart))
    ]

-- The items of all columns.
abbrev pub all_items : List (List Item) → List Item
all_items [] = []
all_items (column ∷ columns) = column ++ all_items columns

all_items-place :
    (a : Item) (columns : List (List Item))
    → Perm (all_items (place a columns)) (a ∷ all_items columns)
unfolding place
all_items-place a [] = Perm.rfl
all_items-place a (column ∷ columns) = elim (Bool-cases (intersect_array a column)) [
  | inl meets ↦ rw meets (
      Perm.trans (Perm.append_left column (all_items-place a columns))
        (perm_middle column (all_items columns)))
  | inr free ↦
      rw (free, append_assoc column (a ∷ []) (all_items columns))
        (perm_middle column (all_items columns))
]

pub all_items-fill_columns :
    (filters : Filters) (items : List Item) (columns : List (List Item))
    → Perm
        (all_items (fill_columns filters items columns))
        (all_items columns ++ unfiltered filters items)
unfolding fill_columns
all_items-fill_columns filters [] columns = rw (append-nil (all_items columns)) Perm.rfl
all_items-fill_columns filters (item ∷ items) columns =
    elim (Bool-cases (filter_applies filters item)) [
      | inl hidden ↦ rw hidden (all_items-fill_columns filters items columns)
      | inr shown ↦ rw shown (
          Perm.trans (all_items-fill_columns filters items (place item columns)) (
            Perm.trans (Perm.append_right (unfiltered filters items) (all_items-place item columns))
              (Perm.symm (perm_middle (all_items columns) (unfiltered filters items)))))
    ]
