-- ===== src/Layout/Spread/Tests.antt =====
-- Runs of spreadLayerSmart.
use azkaban_private.Prelude.{ℕ, ◌≡◌, refl, some, List, [], ◌∷◌, map}
use azkaban_private.Prelude.Signed.{whole}
use azkaban_private.Layout.Spread.{
  Box, Position, spread_layer_smart, place_ranges, place_odd, place_even, place_pair, positions,
}
use azkaban_private.Layout.Spread.Positions.{AreApart, spread_layer_smart-AreApart}

abbrev box : ℕ → ℕ → Box
box x width = record { x = whole x; width = width }

abbrev at : ℕ → ℕ → ℕ → Position
at plus minus width = record { x = record { plus = plus; minus = minus }; width = width }

-- Two nodes at one place are put side by side.
side_by_side : spread_layer_smart (box 5 2 ∷ box 5 4 ∷ []) ≡ some (at 12 6 2 ∷ at 18 6 4 ∷ [])
unfolding spread_layer_smart place_ranges place_odd positions
side_by_side = refl

-- Two nodes that overlap are moved apart around the middle: to -1 and 7 in halves of the unit.
two_overlap : spread_layer_smart (box 1 4 ∷ box 2 4 ∷ []) ≡ some (at 3 4 4 ∷ at 7 0 4 ∷ [])
unfolding spread_layer_smart place_ranges place_even place_pair positions
two_overlap = refl

spread_layer_smart-AreApart_example :
    (ps : List Position) × (spread_layer_smart (box 1 4 ∷ box 2 4 ∷ box 2 6 ∷ box 9 4 ∷ [])
      ≡ some ps)
    × (map Position.width ps ≡ 4 ∷ 4 ∷ 6 ∷ 4 ∷ [])
    × AreApart ps
spread_layer_smart-AreApart_example =
    spread_layer_smart-AreApart (box 1 4) (box 2 4 ∷ box 2 6 ∷ box 9 4 ∷ [])
