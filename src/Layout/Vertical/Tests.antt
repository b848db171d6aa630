-- ===== src/Layout/Vertical/Tests.antt =====
-- Runs of spaceVertically.
use azkaban_private.Prelude.{ℕ, ◌≡◌, refl, some, List, [], ◌∷◌}
use azkaban_private.Prelude.Signed.{whole}
use azkaban_private.Layout.Vertical.{Box, space_vertically, space_from}
use azkaban_private.Layout.Vertical.Spaced.{AllSpaced, space_vertically-AllSpaced}

abbrev top : List Box
top = record { x = whole 0; height = 20; uppers = [] } ∷ []

abbrev near : List Box
near = record { x = whole 8; height = 20; uppers = whole 0 ∷ [] } ∷ []

abbrev far : List Box
far = record { x = whole 1000; height = 20; uppers = whole 8 ∷ [] } ∷ []

-- In eighths of a pixel: 60 pixels, then 124.
three_layers : space_vertically 1 (top ∷ near ∷ far ∷ []) ≡ some (0 ∷ 480 ∷ 1472 ∷ [])
unfolding space_vertically space_from
three_layers = refl

space_vertically-AllSpaced_example :
    (ys : List ℕ) × (space_vertically 1 (top ∷ near ∷ far ∷ []) ≡ some ys)
    × AllSpaced 1 (top ∷ near ∷ far ∷ []) ys
space_vertically-AllSpaced_example = space_vertically-AllSpaced 1 top (near ∷ far ∷ [])
