-- ===== src/Calendar/Columns/Fewest.antt =====
-- How many columns view/schedule-svg.js draws the items of a day in.
use azkaban_private.Prelude.{
  ℕ, suc, ◌+◌, ◌≤◌, ◌<◌, ◌≡◌, refl, leb, ltb, if◌then◌else◌, Bool, Bool-cases, true, false, ◌&&◌,
  ◌⊎◌, inl, inr, List, [], ◌∷◌, ◌++◌, All, All-weaker, length, arith,
}
use azkaban_private.Calendar.Columns.{
  Item, intersects, intersect_array, Filters, filter_applies, place, fill_columns, columns_of,
}
use mathlib.Core.List.{Perm}
use azkaban_private.Calendar.Columns.Apart.{
  AreApart, unfiltered, all_items, append-All, fill_columns-AreApart, all_items-fill_columns,
}

-- How many items last at a time.
abbrev pub covers : ℕ → Item → Bool
covers t item = leb item.time t && ltb t item.stop

abbrev pub count : ℕ → List Item → ℕ
count t [] = 0
count t (item ∷ items) = (if covers t item then 1 else 0) + count t items

abbrev count_all : ℕ → List (List Item) → ℕ
count_all t [] = 0
count_all t (column ∷ columns) = count t column + count_all t columns

-- Each lasts, and starts no earlier than the one before.
abbrev pub InOrder : ℕ → List Item → Type 0
InOrder low [] = Unit
InOrder low (item ∷ items) = (low ≤ item.time) × (item.time < item.stop) × InOrder item.time items

-- An item that is all_items counts once.
count-append : (t : ℕ) (xs ys : List Item) → count t (xs ++ ys) ≡ count t xs + count t ys
count-append t [] ys = omega arith
count-append t (x ∷ xs) ys = omega (arith, count-append t xs ys)

count_all-place :
    (t : ℕ) (a : Item) (columns : List (List Item))
    → count_all t (place a columns) ≡ count t (a ∷ []) + count_all t columns
unfolding place
count_all-place t a [] = omega arith
count_all-place t a (column ∷ columns) = elim (Bool-cases (intersect_array a column)) [
  | inl meets ↦ rw meets (omega (arith, count_all-place t a columns))
  | inr free ↦ rw free (omega (arith, count-append t column (a ∷ [])))
]

count-zero :
    (t : ℕ) (a : Item) (column : List Item)
    → covers t a ≡ true
    → All (λ b. intersects a b ≡ false) column
    → count t column ≡ 0
count-zero t a [] covered free = refl
count-zero t a (b ∷ column) covered (e, free) =
    let z : covers t b ≡ false = ground arith in
    rw z (omega (arith, count-zero t a column covered free))

count-AreApart : (t : ℕ) (column : List Item) → AreApart column → count t column ≤ 1
count-AreApart t [] apart = omega arith
count-AreApart t (a ∷ column) (first, apart) = elim (Bool-cases (covers t a)) [
  | inl covered ↦ rw covered (omega (arith, count-zero t a column covered first))
  | inr other ↦ rw other (omega (arith, count-AreApart t column apart))
]

count_all-AreApart :
    (t : ℕ) (columns : List (List Item))
    → All AreApart columns
    → count_all t columns ≤ length columns
count_all-AreApart t [] apart = omega arith
count_all-AreApart t (column ∷ columns) (first, apart) =
    omega (arith, count-AreApart t column first, count_all-AreApart t columns apart)

count_all-fill_columns :
    (t : ℕ) (filters : Filters) (items : List Item) (columns : List (List Item))
    → count_all t (fill_columns filters items columns)
      ≡ count t (unfiltered filters items) + count_all t columns
unfolding fill_columns
count_all-fill_columns t filters [] columns = omega arith
count_all-fill_columns t filters (item ∷ items) columns =
    elim (Bool-cases (filter_applies filters item)) [
      | inl hidden ↦ rw hidden (count_all-fill_columns t filters items columns)
      | inr shown ↦ rw shown (
          omega (
            arith,
            count_all-fill_columns t filters items (place item columns),
            count_all-place t item columns,
          ))
    ]

-- All that stands in the columns has started by then.
abbrev StartedBy : ℕ → List (List Item) → Type 0
StartedBy t columns = All (λ column. All (λ b. b.time ≤ t) column) columns

count-meets :
    (a : Item) (column : List Item)
    → a.time < a.stop
    → intersect_array a column ≡ true
    → All (λ b. b.time ≤ a.time) column
    → 1 ≤ count a.time column
unfolding intersect_array
count-meets a [] lasts meets started = cc
count-meets a (b ∷ column) lasts meets (first, started) = elim (Bool-cases (intersects a b)) [
  | inl here ↦ let z : covers a.time b ≡ true = ground arith in rw z (omega arith)
  | inr other ↦
      ground (arith, count-meets a column lasts (rw (intersect_array, other) at meets) started)
]

length-place :
    (a : Item) (columns : List (List Item))
    → a.time < a.stop
    → StartedBy a.time columns
    → (length (place a columns) ≡ length columns)
      ⊎ ((length (place a columns) ≡ suc (length columns))
          × (length columns ≤ count_all a.time columns))
unfolding place
length-place a [] lasts started = inr (refl, omega arith)
length-place a (column ∷ columns) lasts (first, started) =
    elim (Bool-cases (intersect_array a column)) [
      | inl meets ↦ rw meets (elim (length-place a columns lasts started) [
        | inl same ↦ inl (omega arith)
        | inr (new, all) ↦ inr (omega arith, omega (arith, count-meets a column lasts meets first))
      ])
      | inr free ↦ rw free (inl refl)
    ]

StartedBy-weaker :
    (low t : ℕ) (columns : List (List Item)) → low ≤ t → StartedBy low columns → StartedBy t columns
StartedBy-weaker low t columns later started =
    All-weaker (λ column. All (λ b. b.time ≤ low) column) _
      (λ column early.
        All-weaker (λ b. b.time ≤ low) (λ b. b.time ≤ t) (λ b early'. omega arith) column early)
      columns started

place-StartedBy :
    (low : ℕ) (a : Item) (columns : List (List Item))
    → low ≤ a.time
    → StartedBy low columns
    → StartedBy a.time (place a columns)
unfolding place
place-StartedBy low a [] later started = ((omega arith, tt), tt)
place-StartedBy low a (column ∷ columns) later (first, started) =
    let first' =
      All-weaker (λ b. b.time ≤ low) (λ b. b.time ≤ a.time) (λ b early. omega arith) column first in
    let started' = StartedBy-weaker low a.time columns later started in
    elim (Bool-cases (intersect_array a column)) [
      | inl meets ↦ rw meets (first', place-StartedBy low a columns later started)
      | inr free ↦
          rw free (append-All (λ b. b.time ≤ a.time) a column first' (omega arith), started')
    ]

-- Some items as many as the columns last at one time, if there is more than one column.
abbrev IsTight : List (List Item) → Type 0
IsTight columns = (length columns ≤ 1) ⊎ ((t : ℕ) × (length columns ≤ count_all t columns))

place-IsTight :
    (a : Item) (columns : List (List Item))
    → a.time < a.stop
    → StartedBy a.time columns
    → IsTight columns
    → IsTight (place a columns)
place-IsTight a columns lasts started tight = elim (length-place a columns lasts started) [
  | inl same ↦ elim tight [
    | inl few ↦ inl (omega arith)
    | inr (t, all) ↦ inr (t, omega (arith, count_all-place t a columns))
  ]
  | inr (new, all) ↦
      let z : covers a.time a ≡ true = ground arith in
      let more : count a.time (a ∷ []) ≡ 1 = rw z (omega arith) in
      inr (a.time, omega (arith, count_all-place a.time a columns))
]

fill_columns-IsTight :
    (filters : Filters) (low : ℕ) (items : List Item) (columns : List (List Item))
    → InOrder low items
    → StartedBy low columns
    → IsTight columns
    → IsTight (fill_columns filters items columns)
unfolding fill_columns
fill_columns-IsTight filters low [] columns order started tight = tight
fill_columns-IsTight filters low (item ∷ items) columns (later, lasts, order) started tight =
    let started' = StartedBy-weaker low item.time columns later started in
    elim (Bool-cases (filter_applies filters item)) [
      | inl hidden ↦
          rw hidden (fill_columns-IsTight filters item.time items columns order started' tight)
      | inr shown ↦ rw shown (
          fill_columns-IsTight filters item.time items (place item columns) order
            (place-StartedBy low item columns later started)
            (place-IsTight item columns lasts started' tight))
    ]

-- For items that each last some time, in the order of their starts, no two items of a column are
-- shown at one time, and the columns hold exactly the items that no filter hides. There are no fewer
-- columns than such items that last at one time, and if there is more than one column, then at some
-- time as many of them last as there are columns: so there are as few columns as there can be.
pub columns_of_lem :
    (filters : Filters) (items : List Item)
    → InOrder 0 items
    → All AreApart (columns_of filters items)
      × Perm (all_items (columns_of filters items)) (unfiltered filters items)
      × ((t : ℕ) → count t (unfiltered filters items) ≤ length (columns_of filters items))
      × ((length (columns_of filters items) ≤ 1)
          ⊎ ((t : ℕ) × (length (columns_of filters items) ≡ count t (unfiltered filters items))))
unfolding columns_of
columns_of_lem filters items order =
    let columns = fill_columns filters items ([] ∷ []) in
    let apart = fill_columns-AreApart filters items ([] ∷ []) (tt, tt) in
    let most = λ (t : ℕ). count_all-fill_columns t filters items ([] ∷ []) in
    let few = λ (t : ℕ). count_all-AreApart t columns apart in
    (
      apart,
      all_items-fill_columns filters items ([] ∷ []),
      λ t. omega (arith, most t, few t),
      elim (fill_columns-IsTight filters 0 items ([] ∷ []) order (tt, tt) (inl (omega arith))) [
        | inl one ↦ inl one
        | inr (t, all) ↦ inr (t, omega (arith, most t, few t, all))
      ],
    )
