-- ===== src/GraphBounds.antt =====
-- calculateBounds and layoutExpandedFlowNode of view/svg-graph.js, the layout's sizes in halves of a
-- unit of which `k` make one pixel.
pub mod Inside
mod Tests
use azkaban_private.Prelude.{ℕ, ◌+◌, ◌*◌, if◌then◌else◌, Option, none, some, List, [], ◌∷◌, ◌>>=◌}
use azkaban_private.Prelude.Signed.{Signed, whole, ◌⊕◌, ◌⊖◌, below}

-- A node: its middle and its size, in units.
pub record Shape : Type 0 where
  pub x : Signed
  pub y : Signed
  pub width : ℕ
  pub height : ℕ

-- In halves of a unit.
pub record Bounds : Type 0 where
  pub min_x : Signed
  pub min_y : Signed
  pub max_x : Signed
  pub max_y : Signed

-- `Math.min` and `Math.max`
abbrev pub minimum : Signed → Signed → Signed
minimum a b = if below b a then b else a

abbrev pub maximum : Signed → Signed → Signed
maximum a b = if below a b then b else a

abbrev pub halves : Signed → Signed
halves a = a ⊕ a

-- One round of the loop.
abbrev pub extend : Shape → Bounds → Bounds
extend n b = record {
  min_x = minimum b.min_x (halves n.x ⊖ whole n.width);
  min_y = minimum b.min_y (halves n.y ⊖ whole n.height);
  max_x = maximum b.max_x (halves n.x ⊕ whole n.width);
  max_y = maximum b.max_y (halves n.y ⊕ whole n.height);
}

abbrev pub extend_all : List Shape → Bounds → Bounds
extend_all [] b = b
extend_all (n ∷ nodes) b = extend_all nodes (extend n b)

-- The margin that `renderGraph`, `expandFlow` and `collapseFlow` put around the bounds; where a
-- bound is 0, the code's other branch gives the same.
abbrev pub with_margin : ℕ → Bounds → Bounds
with_margin margin b = record {
  min_x = b.min_x ⊖ whole (2 * margin);
  min_y = b.min_y ⊖ whole (2 * margin);
  max_x = b.max_x ⊕ whole (2 * margin);
  max_y = b.max_y ⊕ whole (2 * margin);
}

-- What an expanded flow gets: its size, and by how much its nodes are moved, in halves of a unit.
pub record Expanded : Type 0 where
  pub width : Signed
  pub height : Signed
  pub move_x : Signed
  pub move_y : Signed

module _ (k : ℕ) where
  -- `calculateBounds`, whose `width` and `height` are the differences; `none` is the TypeError for a
  -- flow without nodes.
  unfoldable pub calculate_bounds : List Shape → Option Bounds
  calculate_bounds [] = none
  calculate_bounds (n ∷ nodes) = some (
      extend_all (n ∷ nodes) (record {
        min_x = halves n.x ⊖ whole (20 * k);
        min_y = halves n.y ⊖ whole (20 * k);
        max_x = halves n.x ⊕ whole (20 * k);
        max_y = halves n.y ⊕ whole (20 * k);
      }))

  -- `layoutExpandedFlowNode`
  unfoldable pub layout_expanded_flow_node : List Shape → Option Expanded
  layout_expanded_flow_node nodes = calculate_bounds nodes >>= λ b. some (record {
    width = b.max_x ⊖ b.min_x ⊕ whole (2 * (20 * k));
    height = b.max_y ⊖ b.min_y ⊕ whole (2 * (30 * k) + 2 * (5 * k));
    move_x = whole (2 * (10 * k)) ⊖ b.min_x;
    move_y = whole (2 * (30 * k)) ⊖ b.min_y;
  })
