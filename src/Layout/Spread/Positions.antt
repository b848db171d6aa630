-- ===== src/Layout/Spread/Positions.antt =====
-- The positions of the nodes in their ranges, after spreadLayerSmart.
use mathlib.Core.List.{append_assoc, map-append}
use azkaban_private.Prelude.{
  ℕ, ◌+◌, ◌*◌, ◌≤◌, ◌≡◌, refl, sym, ap, subst, ◌∙◌, some, List, [], ◌∷◌, ◌++◌, length, map, All,
  arith, Bool-cases, inl, inr,
}
use azkaban_private.Prelude.Signed.{Signed, whole, ◌⊕◌, ◌⊖◌, ◌⊑◌, equals}
use azkaban_private.Layout.Spread.{
  Box, Range, Placed, Position, range_of, ranges_from, place_ranges, positions_from, positions,
  all_positions, spread_layer_smart,
}
use azkaban_private.Layout.Spread.Apart.{
  right_end, left_end, Follows, Chain, Shape, range_shape, shape, place_ranges-Chain,
  place_ranges-shapes,
}

-- From `b` on, each position is to the right of the one before.
abbrev pub From : Signed → List Position → Type 0
From b [] = Unit
From b (p ∷ ps) = (b ⊑ p.x ⊖ whole p.width) × From (p.x ⊕ whole p.width) ps

-- The positions are in order and none overlaps the next.
abbrev pub AreApart : List Position → Type 0
AreApart [] = Unit
AreApart (p ∷ ps) = From (p.x ⊕ whole p.width) ps

abbrev total : List ℕ → ℕ
total [] = 0
total (w ∷ widths) = w + total widths

abbrev IsWhole : Shape → Type 0
IsWhole (width, (first, others)) = width ≡ first + total others

From-lower : (b c : Signed) (ps : List Position) → b ⊑ c → From c ps → From b ps
From-lower b c [] low from = tt
From-lower b c (p ∷ ps) low (first, rest) = (ground arith, rest)

positions_from-From :
    (start : Signed) (widths : List ℕ) (ps : List Position)
    → From (start ⊕ whole (2 * total widths)) ps
    → From start (positions_from start widths ++ ps)
positions_from-From start [] ps from = From-lower start _ ps (ground arith) from
positions_from-From start (w ∷ widths) ps from =
    let next = start ⊕ whole (2 * w) in
    (
      ground arith,
      From-lower (start ⊕ whole w ⊕ whole w) next _ (ground arith)
          (positions_from-From next widths ps (From-lower _ _ ps (ground arith) from)),
    )

positions-From :
    (p : Placed) (ps : List Position)
    → IsWhole (shape p)
    → From (right_end p) ps
    → From (left_end p) (positions p ++ ps)
unfolding positions
positions-From p ps is_whole from = of_others p.others refl
  where
    of_others :
        (others : List ℕ)
        → p.others ≡ others
        → From (left_end p) (positions (record p { others = others }) ++ ps)
    of_others [] e =
        let sum : p.width ≡ p.first + 0 = is_whole ∙ ap (λ l. p.first + total l) e in
        (omega arith, From-lower (p.x ⊕ whole p.first) (right_end p) ps (omega arith) from)
    of_others (w ∷ widths) e =
        let sum : p.width ≡ p.first + (w + total widths) =
          is_whole ∙ ap (λ l. p.first + total l) e in
        positions_from-From (left_end p) (p.first ∷ w ∷ widths) ps
          (From-lower _ (right_end p) ps (ground arith) from)

all_positions-From :
    (b : Signed) (placed : List Placed)
    → All IsWhole (map shape placed)
    → Follows b placed
    → From b (all_positions placed)
all_positions-From b [] are_whole follows = tt
all_positions-From b (p ∷ placed) (is_whole, are_whole) (first, follows) =
    From-lower b (left_end p) _ first (
      positions-From p (all_positions placed) is_whole
        (all_positions-From (right_end p) placed are_whole follows))

From-AreApart : (b : Signed) (ps : List Position) → From b ps → AreApart ps
From-AreApart b [] from = tt
From-AreApart b (p ∷ ps) from = from.1

below_left : (p : Placed) → left_end p ⊑ left_end p
below_left p = ground arith

all_positions-AreApart :
    (placed : List Placed)
    → All IsWhole (map shape placed)
    → Chain placed
    → AreApart (all_positions placed)
all_positions-AreApart [] are_whole chain = tt
all_positions-AreApart (p ∷ placed) are_whole chain =
    From-AreApart (left_end p) (all_positions (p ∷ placed))
      (all_positions-From (left_end p) (p ∷ placed) are_whole (below_left p, chain))

-- The widths of the nodes of ranges.
abbrev widths_of : List Shape → List ℕ
widths_of [] = []
widths_of ((width, (first, others)) ∷ shapes) = first ∷ others ++ widths_of shapes

positions_from-widths :
    (start : Signed) (widths : List ℕ) → map Position.width (positions_from start widths) ≡ widths
positions_from-widths start [] = refl
positions_from-widths start (w ∷ widths) =
    ap (λ l. w ∷ l) (positions_from-widths (start ⊕ whole (2 * w)) widths)

positions-widths : (p : Placed) → map Position.width (positions p) ≡ p.first ∷ p.others
unfolding positions
positions-widths p = of_others p.others
  where
    of_others :
        (others : List ℕ)
        → map Position.width (positions (record p { others = others })) ≡ p.first ∷ others
    of_others [] = refl
    of_others (w ∷ widths) = positions_from-widths _ (p.first ∷ w ∷ widths)

all_positions-widths :
    (placed : List Placed)
    → map Position.width (all_positions placed) ≡ widths_of (map shape placed)
all_positions-widths [] = refl
all_positions-widths (p ∷ placed) =
    map-append Position.width (positions p) (all_positions placed)
    ∙ rw (positions-widths p, all_positions-widths placed) refl

total-snoc : (widths : List ℕ) (w : ℕ) → total (widths ++ w ∷ []) ≡ total widths + w
total-snoc [] w = ground arith
total-snoc (v ∷ widths) w = let e = total-snoc widths w in omega arith

-- The ranges of a layer: at least one, whole, and with the nodes of the layer in their order.
ranges_from-shapes :
    (range : Range) (boxes : List Box)
    → IsWhole (range_shape range)
    → let ranges = ranges_from range boxes in
      (1 ≤ length ranges)
      × All IsWhole (map range_shape ranges)
      × (widths_of (map range_shape ranges) ≡ range.first ∷ range.others ++ map Box.width boxes)
ranges_from-shapes range [] is_whole = (ground arith, (is_whole, tt), refl)
ranges_from-shapes range (b ∷ boxes) is_whole =
    let extended = record range {
      width = range.width + b.width;
      others = range.others ++ b.width ∷ [];
    } in
    elim (Bool-cases (equals b.x range.x)) [
      | inl e ↦
          let sum = total-snoc range.others b.width in
          let (some_range, are_whole, kept) = ranges_from-shapes extended boxes (omega arith) in
          rw e (
            some_range,
            are_whole,
            kept
                ∙ ap (λ l. range.first ∷ l)
                    (append_assoc range.others (b.width ∷ []) (map Box.width boxes)),
          )
      | inr e ↦
          let (some_range, are_whole, kept) =
            ranges_from-shapes (range_of b) boxes (ground arith) in
          rw e (omega arith, (is_whole, are_whole), ap (λ l. range.first ∷ range.others ++ l) kept)
    ]

-- For every layer with a node, spreadLayerSmart returns; the nodes keep their order and their
-- widths, and none overlaps the next: the right end of each is at most the left end of the next.
pub spread_layer_smart-AreApart :
    (b : Box) (boxes : List Box)
    → (ps : List Position) × (spread_layer_smart (b ∷ boxes) ≡ some ps)
      × (map Position.width ps ≡ map Box.width (b ∷ boxes))
      × AreApart ps
unfolding spread_layer_smart
spread_layer_smart-AreApart b boxes =
    let ranges = ranges_from (range_of b) boxes in
    let (some_range, are_whole, kept) = ranges_from-shapes (range_of b) boxes (ground arith) in
    let same = place_ranges-shapes ranges some_range in
    let placed = place_ranges ranges in
    (
      all_positions placed,
      refl,
      all_positions-widths placed ∙ ap widths_of same ∙ kept,
      all_positions-AreApart placed (subst (All IsWhole) (sym same) are_whole)
          (place_ranges-Chain ranges),
    )
