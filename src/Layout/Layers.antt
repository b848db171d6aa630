-- ===== src/Layout/Layers.antt =====
-- The layers of `prepareLayout`.
use azkaban_private.Prelude.{
  ℕ, ◌≤◌, ◌≡◌, refl, sym, ◌∙◌, ap, subst, if◌then◌else◌, true, none, some, List, [], ◌∷◌, ◌++◌, max,
  arith, All, Bool-cases, inl, inr,
}
use mathlib.Core.List.{append_assoc, append-nil}
use azkaban_private.Flow.{Ref, Heap, Level, num}
use azkaban_private.GraphModel.Linking.{contains_ref}
use azkaban_private.Layout.{max_level, same_level, push_layer, assign_layers, prepare_layout}
use azkaban_private.Layout.Loop.{levels}
use azkaban_private.Layout.Correct.{IsFlowGraph}
use azkaban_private.Layout.Longest.{Walk, level_loop_longest}

-- The nodes of one level, in their order.
abbrev pub of_level : Heap → Level → List Ref → List Ref
of_level h k [] = []
of_level h k (r ∷ rs) =
    let rest = of_level h k rs in if same_level (h r).level k then r ∷ rest else rest

assign_layers-of_level :
    (h : Heap) (rs : List Ref) (layers : Level → List Ref) (top k : Level)
    → (assign_layers h rs layers top).0 k ≡ layers k ++ of_level h k rs
unfolding assign_layers
assign_layers-of_level h [] layers top k = sym (append-nil (layers k))
assign_layers-of_level h (r ∷ rs) layers top k =
    let ih =
      assign_layers-of_level h rs (push_layer (h r).level r layers) (max_level (h r).level top) k in
    elim (Bool-cases (same_level (h r).level k)) [
      | inl hit ↦ ih ∙ rw hit (append_assoc (layers k) (r ∷ []) (of_level h k rs))
      | inr miss ↦ ih ∙ rw miss
    ]

-- If the levels are numbers, `maxLayer` is at least each of them.
assign_layers-top :
    (h : Heap) (rs : List Ref) (layers : Level → List Ref) (a : ℕ)
    → All (λ r. (i : ℕ) × ((h r).level ≡ num i)) rs
    → (m : ℕ) × ((assign_layers h rs layers (num a)).1 ≡ num m)
      × (a ≤ m)
      × All (λ r. (i : ℕ) × ((h r).level ≡ num i) × (i ≤ m)) rs
unfolding assign_layers
assign_layers-top h [] layers a known = (a, refl, omega arith, tt)
assign_layers-top h (r ∷ rs) layers a ((i, e), known) =
    let (m, top, low, rest) =
      assign_layers-top h rs (push_layer (h r).level r layers) (max i a) known in
    (
      m,
      ap (λ k. (assign_layers h rs (push_layer (h r).level r layers) (max_level k (num a))).1) e
          ∙ top,
      omega arith,
      ((i, e, omega arith), rest),
    )

All-known : (P Q : Ref → Type 0) (ns : List Ref) → ((x : Ref) → P x → Q x) → All P ns → All Q ns
All-known P Q [] f a = tt
All-known P Q (x ∷ ns) f a = (f x a.0, All-known P Q ns f a.1)

All-both :
    (P Q R : Ref → Type 0) (ns : List Ref)
    → ((x : Ref) → P x → Q x → R x)
    → All P ns
    → All Q ns
    → All R ns
All-both P Q R [] f a b = tt
All-both P Q R (x ∷ ns) f a b = (f x a.0 b.0, All-both P Q R ns f a.1 b.1)

bounded :
    (h h' : Heap) (top : ℕ) (x : Ref)
    → (n : ℕ) × (levels h' x ≡ num n) × Walk h x n × ((m : ℕ) → Walk h x m → m ≤ n)
    → (i : ℕ) × ((h' x).level ≡ num i) × (i ≤ top)
    → (n : ℕ) × (levels h' x ≡ num n) × (n ≤ top) × Walk h x n × ((m : ℕ) → Walk h x m → m ≤ n)
bounded h h' top x (n, own, w, all) (i, e, le) =
    let same : i ≡ n = cc in (n, own, subst (λ k. k ≤ top) same le, w, all)

-- `prepareLayout` over such a graph returns. The nodes of the flow, in the sorted order `ns`, are
-- each in the layer of their level and in no other, a layer keeps their order, and no level exceeds
-- `maxLayer`; the level of a node is the length of the longest path to it.
pub prepare_layout_lem :
    (h : Heap) (rs ns : List Ref) (up down : Ref → ℕ)
    → IsFlowGraph h rs up down
    → All (λ x. contains_ref x rs ≡ true) ns
    → (fuel : ℕ) × (h' : Heap) × (layers : (Level → List Ref)) × (top : ℕ) × (prepare_layout fuel rs
          ns h
        ≡ some (h', layers, num top))
      × ((k : Level) → layers k ≡ of_level h' k ns)
      × All
          (λ x.
            (n : ℕ) × (levels h' x ≡ num n)
            × (n ≤ top)
            × Walk h x n
            × ((m : ℕ) → Walk h x m → m ≤ n))
          ns
unfolding prepare_layout
prepare_layout_lem h rs ns up down g inside =
    let (fuel, h', ran, longest) = level_loop_longest h rs up down g in
    let (top, e, _, low) =
      assign_layers-top h' ns (λ k. []) 0
        (All-known _ _ ns (λ x c. ((longest x c).0, (longest x c).1)) inside) in
    (
      fuel,
      h',
      (assign_layers h' ns (λ k. []) (num 0)).0,
      top,
      ap
            (λ o. elim o [
              | none ↦ none
              | some g ↦ some (
                g,
                (assign_layers g ns (λ k. []) (num 0)).0,
                (assign_layers g ns (λ k. []) (num 0)).1,
              )
            ])
            ran
          ∙ ap (λ t. some (h', (assign_layers h' ns (λ k. []) (num 0)).0, t)) e,
      λ k. assign_layers-of_level h' ns (λ k. []) (num 0) k,
      All-both _ _ _ ns (λ x c l. bounded h h' top x (longest x c) l) inside low,
    )
