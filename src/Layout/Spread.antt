-- ===== src/Layout/Spread.antt =====
-- spreadLayerSmart of util/layout.js: the nodes of a layer are moved until none overlaps.
pub mod Apart
pub mod Positions
mod Tests
use azkaban_private.Prelude.{
  ℕ, zero, suc, ◌+◌, ◌-◌, ◌/◌, ◌%◌, ◌==◌, ◌*◌, if◌then◌else◌, Option, none, some, List, [], ◌∷◌,
  ◌++◌, length,
}
use azkaban_private.Prelude.Signed.{Signed, whole, ◌⊕◌, ◌⊖◌, below, equals}

-- A node of the layer: the middle and the width that it has before.
pub record Box : Type 0 where
  pub x : Signed
  pub width : ℕ

-- An entry of `ranges`, with the widths of its nodes for its first and its last index.
pub record Range : Type 0 where
  pub x : Signed
  pub width : ℕ
  pub first : ℕ
  pub others : List ℕ

-- What is placed: `x` is in halves of the unit from here on, `width` is not.
pub record Placed : Type 0 where
  pub x : Signed
  pub width : ℕ
  pub first : ℕ
  pub others : List ℕ

pub record Position : Type 0 where
  pub x : Signed
  pub width : ℕ

abbrev pub range_of : Box → Range
range_of b = record { x = b.x; width = b.width; first = b.width; others = [] }

-- The loop over the nodes, with the last range so far. `totalX`, `totalWidth` and `count`, which
-- nothing reads, are left out.
abbrev pub ranges_from : Range → List Box → List Range
ranges_from range [] = range ∷ []
ranges_from range (b ∷ boxes) =
    let same = equals b.x range.x in
    let extended = record range {
      width = range.width + b.width;
      others = range.others ++ b.width ∷ [];
    } in
    let rest = ranges_from (if same then extended else range_of b) boxes in
    if same then rest else range ∷ rest

abbrev pub twice : Signed → Signed
twice x = x ⊕ x

abbrev pub placed_at : Range → Signed → Placed
placed_at r x = record { x = x; width = r.width; first = r.first; others = r.others }

-- One round of the loop to the left of `next`.
unfoldable pub left_of : Placed → Range → Placed
left_of next r =
    let x = twice r.x in
    let cross_point_s = x ⊕ whole r.width in
    let cross_point_e = next.x ⊖ whole next.width in
    placed_at r
      (if below cross_point_e cross_point_s then x ⊖ (cross_point_s ⊖ cross_point_e) else x)

-- One round of the loop to the right of `prev`.
unfoldable pub right_of : Placed → Range → Placed
right_of prev r =
    let x = twice r.x in
    let cross_point_e = x ⊖ whole r.width in
    let cross_point_s = prev.x ⊕ whole prev.width in
    placed_at r
      (if below cross_point_e cross_point_s then x ⊕ (cross_point_s ⊖ cross_point_e) else x)

-- The first loop, over the ranges before the one at hand, the nearest first.
abbrev pub place_left : List Range → Placed → List Placed → List Placed
place_left [] next placed = next ∷ placed
place_left (r ∷ before) next placed = place_left before (left_of next r) (next ∷ placed)

abbrev pub place_right : Placed → List Range → List Placed
place_right prev [] = []
place_right prev (r ∷ after) = right_of prev r ∷ place_right (right_of prev r) after

-- The first `n` ranges, the last of them first, and the others.
abbrev pub split_at : ℕ → List Range → List Range → List Range × List Range
split_at zero before ranges = (before, ranges)
split_at (suc n) before [] = (before, [])
split_at (suc n) before (r ∷ ranges) = split_at n (r ∷ before) ranges

-- An odd number of ranges: one of them stays.
unfoldable pub place_odd : List Range → List Range → List Placed
place_odd before [] = []
place_odd before (r ∷ after) =
    let middle = placed_at r (twice r.x) in place_left before middle (place_right middle after)

-- The two ranges in the middle of an even number.
unfoldable pub place_pair : Range → Range → Placed × Placed
place_pair s e =
    let cross_point_s = twice s.x ⊕ whole s.width in
    let cross_point_e = twice e.x ⊖ whole e.width in
    let mid_point = s.x ⊕ e.x in
    if below cross_point_e cross_point_s
    then (placed_at s (mid_point ⊖ whole s.width), placed_at e (mid_point ⊕ whole e.width))
    else (placed_at s (twice s.x), placed_at e (twice e.x))

unfoldable pub place_even : List Range → List Range → List Placed
place_even before [] = []
place_even before (s ∷ []) = []
place_even before (s ∷ e ∷ after) =
    let pair = place_pair s e in place_left before pair.0 (pair.1 ∷ place_right pair.1 after)

-- The choice of what stays, and the two loops around it.
unfoldable pub place_ranges : List Range → List Placed
place_ranges ranges =
    let n = length ranges in
    let odd = split_at ((n + 1) / 2) [] ranges in
    let even = split_at (n / 2 - 1) [] ranges in
    if n == 1
    then place_odd [] ranges
    else if n % 2 == 1
    then place_odd odd.0 odd.1
    else place_even even.0 even.1

-- The nodes of a range, from its left end on.
abbrev pub positions_from : Signed → List ℕ → List Position
positions_from start [] = []
positions_from start (w ∷ widths) =
    record { x = start ⊕ whole w; width = w } ∷ positions_from (start ⊕ whole (2 * w)) widths

unfoldable pub positions : Placed → List Position
positions p = elim p.others [
  | [] ↦ record { x = p.x; width = p.first } ∷ []
  | w ∷ widths ↦ positions_from (p.x ⊖ whole p.width) (p.first ∷ w ∷ widths)
]

abbrev pub all_positions : List Placed → List Position
all_positions [] = []
all_positions (p ∷ placed) = positions p ++ all_positions placed

-- `spreadLayerSmart`, with the new middles in halves; `none` is the TypeError for an empty layer.
unfoldable pub spread_layer_smart : List Box → Option (List Position)
spread_layer_smart [] = none
spread_layer_smart (b ∷ boxes) =
    some (all_positions (place_ranges (ranges_from (range_of b) boxes)))
