-- ===== src/Layout/Vertical.antt =====
-- spaceVertically of util/layout.js: the heights at which the layers are drawn. Lengths are in units
-- of which `k` make one pixel, the heights of the layers in eighths of that.
mod Tests
pub mod Spaced
use azkaban_private.Prelude.{ℕ, ◌+◌, ◌*◌, max, Option, none, some, List, [], ◌∷◌}
use azkaban_private.Prelude.Signed.{Signed, distance}

-- A node of a layer, with the places of the nodes of its `in`.
pub record Box : Type 0 where
  pub x : Signed
  pub height : ℕ
  pub uppers : List Signed

-- The greatest height of a layer, `acc` at least.
abbrev pub max_height : ℕ → List Box → ℕ
max_height acc [] = acc
max_height acc (b ∷ layer) = max_height (max acc b.height) layer

abbrev pub max_distance : ℕ → Signed → List Signed → ℕ
max_distance acc x [] = acc
max_distance acc x (upper ∷ uppers) = max_distance (max acc (distance upper x)) x uppers

abbrev pub max_delta : ℕ → List Box → ℕ
max_delta acc [] = acc
max_delta acc (b ∷ layer) = max_delta (max_distance acc b.x b.uppers) layer

module _ (k : ℕ) where
  -- The loop over the layers below the first, with `startY` and `startMaxHeight`.
  unfoldable pub space_from : ℕ → ℕ → List (List Box) → List ℕ
  space_from start_y start_max_height [] = []
  space_from start_y start_max_height (layer ∷ layers) =
      let layer_max_height = max_height k layer in
      let new_min_height = 8 * (40 * k) + 4 * start_max_height + 4 * layer_max_height in
      let y = start_y + max (max_delta 0 layer) new_min_height in
      y ∷ space_from y layer_max_height layers

  -- `spaceVertically`: the `y` of the nodes of each layer; `none` is the TypeError without layers.
  unfoldable pub space_vertically : List (List Box) → Option (List ℕ)
  space_vertically [] = none
  space_vertically (layer ∷ layers) = some (0 ∷ space_from 0 (max_height k layer) layers)
