-- ===== src/GraphBounds/Tests.antt =====
-- The border of an expanded flow with two nodes.
use azkaban_private.Prelude.{ℕ, ◌≡◌, refl, Option, none, some, [], ◌∷◌, All}
use azkaban_private.Prelude.Signed.{whole, equals}
use azkaban_private.Prelude.{Bool, true, false, ◌&&◌}
use azkaban_private.GraphBounds.{Shape, Expanded, layout_expanded_flow_node, calculate_bounds}
use azkaban_private.GraphBounds.Inside.{IsInside, layout_expanded_flow_node-IsInside}

abbrev upper : Shape
upper = record { x = whole 0; y = whole 0; width = 40; height = 20 }

abbrev lower : Shape
lower = record { x = whole 30; y = whole 60; width = 60; height = 20 }

abbrev has_size : ℕ → ℕ → Option (Expanded) → Bool
has_size width height none = false
has_size width height (some e) = equals e.width (whole width) && equals e.height (whole height)

-- From -20 to 60 and from -10 to 70, and the margins, in halves of a pixel.
two_nodes : has_size 200 230 (layout_expanded_flow_node 1 (upper ∷ lower ∷ [])) ≡ true
unfolding layout_expanded_flow_node calculate_bounds
two_nodes = refl

layout_expanded_flow_node-IsInside_example :
    (e : Expanded) × (layout_expanded_flow_node 1 (upper ∷ lower ∷ []) ≡ some e)
    × All (IsInside 1 e) (upper ∷ lower ∷ [])
layout_expanded_flow_node-IsInside_example = layout_expanded_flow_node-IsInside 1 upper (lower ∷ [])
