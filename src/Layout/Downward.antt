-- ===== src/Layout/Downward.antt =====
-- The levels of prepareLayout along the edges of the flow.
use azkaban_private.Prelude.{
  ℕ, suc, ◌<◌, ◌≤◌, ◌≡◌, sym, subst, true, some, List, [], ◌∷◌, All, Memᴰ, inl, inr,
}
use mathlib.Core.List.Memᴰ
use azkaban_private.Flow.{Ref, Heap, Level, num, links_of}
use azkaban_private.GraphModel.Linking.{contains_ref}
use azkaban_private.Layout.{targets, prepare_layout}
use azkaban_private.Layout.Loop.{levels}
use azkaban_private.Layout.Correct.{IsFlowGraph}
use azkaban_private.Layout.Longest.{step}
use azkaban_private.Layout.Layers.{prepare_layout_lem}

All-at : {A : Type 0} → (P : A → Type 0) (xs : List A) (x : A) → All P xs → Memᴰ x xs → P x
All-at P [] x all m = absurd (Memᴰ.not-nil m)
All-at P (y ∷ xs) x (p, all) m = elim (Memᴰ.cases_cons m) [
  | inl e ↦ subst P (sym e) p
  | inr later ↦ All-at P xs x all later
]

-- Over a graph that is linked both ways within the nodes of the flow, has no cycle and no levels
-- yet, prepareLayout returns for enough fuel, and every edge between nodes that are laid out goes
-- down: the level of its source is less than that of its target, which is at most maxLayer.
pub prepare_layout-down :
    (h : Heap) (rs ns : List Ref) (up down : Ref → ℕ)
    → IsFlowGraph h rs up down
    → All (λ x. contains_ref x rs ≡ true) ns
    → (fuel : ℕ) × (h' : Heap) × (layers : (Level → List Ref)) × (top : ℕ) × (prepare_layout fuel rs
          ns h
        ≡ some (h', layers, num top))
      × ((u x : Ref)
          → Memᴰ u ns
          → Memᴰ x ns
          → contains_ref u (targets (links_of (h x).in_nodes)) ≡ true
          → (a b : ℕ) × (levels h' u ≡ num a) × (levels h' x ≡ num b) × (a < b) × (b ≤ top))
prepare_layout-down h rs ns up down g inside =
    let (fuel, h', layers, top, ran, _, all) = prepare_layout_lem h rs ns up down g inside in
    (
      fuel,
      h',
      layers,
      top,
      ran,
      λ u x m n edge.
          let (a, level_u, _, walk, _) = All-at _ ns u all m in
          let (b, level_x, low, _, longest) = All-at _ ns x all n in
          (a, b, level_u, level_x, longest (suc a) (step u x a edge walk), low),
    )
