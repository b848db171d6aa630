-- ===== src/GraphBounds/Inside.antt =====
-- The bounds of the nodes of an expanded flow, and its border.
use azkaban_private.Prelude.{ℕ, ◌+◌, ◌*◌, ◌≡◌, refl, some, List, [], ◌∷◌, All, arith}
use azkaban_private.Prelude.Signed.{Signed, whole, ◌⊕◌, ◌⊖◌, ◌⊑◌}
use azkaban_private.GraphBounds.{
  Shape, Bounds, minimum, maximum, halves, extend, extend_all, calculate_bounds, Expanded,
  layout_expanded_flow_node,
}

-- The box of a node lies within the bounds.
pub record IsWithin (b : Bounds) (n : Shape) : Type 0 where
  pub left : b.min_x ⊑ halves n.x ⊖ whole n.width
  pub top : b.min_y ⊑ halves n.y ⊖ whole n.height
  pub right : halves n.x ⊕ whole n.width ⊑ b.max_x
  pub bottom : halves n.y ⊕ whole n.height ⊑ b.max_y

-- The second bounds are around the first.
record IsAround (b c : Bounds) : Type 0 where
  left : c.min_x ⊑ b.min_x
  top : c.min_y ⊑ b.min_y
  right : b.max_x ⊑ c.max_x
  bottom : b.max_y ⊑ c.max_y

minimum_lem : (a b : Signed) → (minimum a b ⊑ a) × (minimum a b ⊑ b)
minimum_lem a b = (ground arith, ground arith)

maximum_lem : (a b : Signed) → (a ⊑ maximum a b) × (b ⊑ maximum a b)
maximum_lem a b = (ground arith, ground arith)

below_trans : (a b c : Signed) → a ⊑ b → b ⊑ c → a ⊑ c
below_trans a b c e f = omega arith

below_self : (a : Signed) → a ⊑ a
below_self a = omega arith

IsWithin-around : (b c : Bounds) (n : Shape) → IsAround b c → IsWithin b n → IsWithin c n
IsWithin-around b c n around inside = record {
  left = below_trans c.min_x b.min_x _ around.left inside.left;
  top = below_trans c.min_y b.min_y _ around.top inside.top;
  right = below_trans _ b.max_x c.max_x inside.right around.right;
  bottom = below_trans _ b.max_y c.max_y inside.bottom around.bottom;
}

extend-IsAround : (n : Shape) (b : Bounds) → IsAround b (extend n b)
extend-IsAround n b = record {
  left = (minimum_lem b.min_x _).0;
  top = (minimum_lem b.min_y _).0;
  right = (maximum_lem b.max_x _).0;
  bottom = (maximum_lem b.max_y _).0;
}

extend-IsWithin : (n : Shape) (b : Bounds) → IsWithin (extend n b) n
extend-IsWithin n b = record {
  left = (minimum_lem b.min_x _).1;
  top = (minimum_lem b.min_y _).1;
  right = (maximum_lem b.max_x _).1;
  bottom = (maximum_lem b.max_y _).1;
}

IsAround-trans : (b c d : Bounds) → IsAround b c → IsAround c d → IsAround b d
IsAround-trans b c d e f = record {
  left = below_trans d.min_x c.min_x b.min_x f.left e.left;
  top = below_trans d.min_y c.min_y b.min_y f.top e.top;
  right = below_trans b.max_x c.max_x d.max_x e.right f.right;
  bottom = below_trans b.max_y c.max_y d.max_y e.bottom f.bottom;
}

extend_all-IsWithin :
    (nodes : List Shape) (b : Bounds)
    → IsAround b (extend_all nodes b) × All (IsWithin (extend_all nodes b)) nodes
extend_all-IsWithin [] b = (
  record {
    left = below_self b.min_x;
    top = below_self b.min_y;
    right = below_self b.max_x;
    bottom = below_self b.max_y;
  },
  tt,
)
extend_all-IsWithin (n ∷ nodes) b =
    let next = extend n b in
    let (around, all) = extend_all-IsWithin nodes next in
    (
      IsAround-trans b next _ (extend-IsAround n b) around,
      (IsWithin-around next _ n around (extend-IsWithin n b), all),
    )

module _ (k : ℕ) where
  -- A node, once it is moved, lies within the border, 10 pixels from its sides, 30 from its top and 5
  -- from its bottom at least.
  pub record IsInside (e : Expanded) (n : Shape) : Type 0 where
    pub left : whole (2 * (10 * k)) ⊑ halves n.x ⊖ whole n.width ⊕ e.move_x
    pub top : whole (2 * (30 * k)) ⊑ halves n.y ⊖ whole n.height ⊕ e.move_y
    pub right : halves n.x ⊕ whole n.width ⊕ e.move_x ⊑ e.width ⊖ whole (2 * (10 * k))
    pub bottom : halves n.y ⊕ whole n.height ⊕ e.move_y ⊑ e.height ⊖ whole (2 * (5 * k))

  expanded_by : Bounds → Expanded
  expanded_by b = record {
    width = b.max_x ⊖ b.min_x ⊕ whole (2 * (20 * k));
    height = b.max_y ⊖ b.min_y ⊕ whole (2 * (30 * k) + 2 * (5 * k));
    move_x = whole (2 * (10 * k)) ⊖ b.min_x;
    move_y = whole (2 * (30 * k)) ⊖ b.min_y;
  }

  IsWithin-IsInside : (b : Bounds) (n : Shape) → IsWithin b n → IsInside (expanded_by b) n
  unfolding expanded_by
  IsWithin-IsInside b n w = record {
    left = let l = w.left in omega arith;
    top = let t = w.top in omega arith;
    right = let r = w.right in omega arith;
    bottom = let l = w.bottom in omega arith;
  }

  All-IsInside :
      (b : Bounds) (nodes : List Shape)
      → All (IsWithin b) nodes
      → All (IsInside (expanded_by b)) nodes
  All-IsInside b [] all = tt
  All-IsInside b (n ∷ nodes) (w, all) = (IsWithin-IsInside b n w, All-IsInside b nodes all)

  -- For a flow with a node, layoutExpandedFlowNode returns, and each of its nodes, once it is moved,
  -- lies within the border, 10 pixels from its sides, 30 from its top and 5 from its bottom at least.
  pub layout_expanded_flow_node-IsInside :
      (n : Shape) (nodes : List Shape)
      → (e : Expanded) × (layout_expanded_flow_node k (n ∷ nodes) ≡ some e)
        × All (IsInside e) (n ∷ nodes)
  unfolding layout_expanded_flow_node calculate_bounds expanded_by
  layout_expanded_flow_node-IsInside n nodes =
      let first : Bounds = record {
        min_x = halves n.x ⊖ whole (20 * k);
        min_y = halves n.y ⊖ whole (20 * k);
        max_x = halves n.x ⊕ whole (20 * k);
        max_y = halves n.y ⊕ whole (20 * k);
      } in
      let b = extend_all (n ∷ nodes) first in
      (expanded_by b, refl, All-IsInside b (n ∷ nodes) (extend_all-IsWithin (n ∷ nodes) first).1)
