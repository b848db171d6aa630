-- ===== src/Layout/Tests.antt =====
-- The levels of a concrete flow, and the theorem about them there.
use azkaban_private.Prelude.{
  ℕ, zero, suc, ◌==◌, ◌≡◌, ◌≢◌, ◌≤◌, ◌<◌, refl, if◌then◌else◌, true, Option, none, some, List, [],
  ◌∷◌, arith, All,
}
use azkaban_private.Flow.{Ref, Heap, Links, Node, Level, undefined, nan, num, fresh, links_of}
use azkaban_private.GraphModel.Linking.{contains_ref}
use azkaban_private.Layout.{level_loop, level_from, assign_layers, prepare_layout, targets}
use azkaban_private.Layout.Loop.{levels}
use azkaban_private.Layout.Correct.{IsFlowGraph}
use azkaban_private.Layout.Longest.{Walk}
use azkaban_private.Layout.Layers.{of_level, prepare_layout_lem}

abbrev linked_node : Option Links → Option Links → Node
linked_node i o = record (fresh "n" "command" [] []) { in_nodes = i; out_nodes = o }

-- `a` before `b`, and both before `c`.
abbrev triangle : Heap
triangle zero = linked_node none (some (("b", 1) ∷ ("c", 2) ∷ []))
triangle (suc zero) = linked_node (some (("a", 0) ∷ [])) (some (("c", 2) ∷ []))
triangle (suc (suc zero)) = linked_node (some (("a", 0) ∷ ("b", 1) ∷ [])) none
triangle (suc (suc (suc r))) = linked_node none none

abbrev members : List Ref
members = 0 ∷ 1 ∷ 2 ∷ []

abbrev layers_of : Option (Heap × (Level → List Ref) × Level) → List (List Ref)
layers_of none = []
layers_of (some (h, layers, top)) =
    layers (num 0) ∷ layers (num 1) ∷ layers (num 2) ∷ layers nan ∷ []

three_layers :
    layers_of (prepare_layout 9 members members triangle) ≡ (0 ∷ []) ∷ (1 ∷ []) ∷ (2 ∷ []) ∷ [] ∷ []
unfolding prepare_layout level_loop assign_layers level_from
three_layers = refl

abbrev depth : Ref → ℕ
depth r = if r == 1 then 1 else if r == 2 then 2 else 0

abbrev height : Ref → ℕ
height r = if r == 0 then 2 else if r == 1 then 1 else 0

triangle-unset : (r : Ref) → levels triangle r ≡ undefined
triangle-unset zero = refl
triangle-unset (suc zero) = refl
triangle-unset (suc (suc zero)) = refl
triangle-unset (suc (suc (suc r))) = refl

triangle-linked : (r : Ref) → (triangle r).in_nodes ≢ some []
triangle-linked zero e = cc
triangle-linked (suc zero) e = cc
triangle-linked (suc (suc zero)) e = cc
triangle-linked (suc (suc (suc r))) e = cc

triangle-closed :
    (r : Ref)
    → contains_ref r members ≡ true
    → All (λ x. contains_ref x members ≡ true) (targets (links_of (triangle r).in_nodes))
triangle-closed zero c = tt
triangle-closed (suc zero) c = (refl, tt)
triangle-closed (suc (suc zero)) c = (refl, (refl, tt))
triangle-closed (suc (suc (suc r))) c = tt

triangle-rises : (r : Ref) → All (λ x. depth x < depth r) (targets (links_of (triangle r).in_nodes))
triangle-rises zero = tt
triangle-rises (suc zero) = (omega arith, tt)
triangle-rises (suc (suc zero)) = (omega arith, (omega arith, tt))
triangle-rises (suc (suc (suc r))) = tt

triangle-falls :
    (r : Ref) → All (λ x. height x < height r) (targets (links_of (triangle r).out_nodes))
triangle-falls zero = (omega arith, (omega arith, tt))
triangle-falls (suc zero) = (omega arith, tt)
triangle-falls (suc (suc zero)) = tt
triangle-falls (suc (suc (suc r))) = tt

triangle-mirrored :
    (u x : Ref)
    → contains_ref u (targets (links_of (triangle x).in_nodes)) ≡ true
    → contains_ref x (targets (links_of (triangle u).out_nodes)) ≡ true
triangle-mirrored u zero c = cc
triangle-mirrored zero (suc zero) c = refl
triangle-mirrored u (suc zero) c = ground arith
triangle-mirrored zero (suc (suc zero)) c = refl
triangle-mirrored (suc zero) (suc (suc zero)) c = refl
triangle-mirrored u (suc (suc zero)) c = ground arith
triangle-mirrored u (suc (suc (suc r))) c = cc

triangle-IsFlowGraph : IsFlowGraph triangle members depth height
triangle-IsFlowGraph = record {
  unset = triangle-unset;
  linked = triangle-linked;
  closed = triangle-closed;
  rises = triangle-rises;
  falls = triangle-falls;
  mirrored = triangle-mirrored;
}

prepare_layout_lem_example :
    (fuel : ℕ) × (h' : Heap) × (layers : (Level → List Ref)) × (top : ℕ) × (prepare_layout fuel
        members members triangle
      ≡ some (h', layers, num top))
    × ((k : Level) → layers k ≡ of_level h' k members)
    × All
        (λ x.
          (n : ℕ) × (levels h' x ≡ num n)
          × (n ≤ top)
          × Walk triangle x n
          × ((m : ℕ) → Walk triangle x m → m ≤ n))
        members
prepare_layout_lem_example =
    prepare_layout_lem triangle members members depth height triangle-IsFlowGraph
      (refl, (refl, (refl, tt)))
