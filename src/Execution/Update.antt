-- ===== src/Execution/Update.antt =====
-- What `updateGraph` changes: the nodes that an update names, by their paths of ids.
use azkaban_private.Prelude.{
  ℕ, zero, suc, ◌==◌, ◌≡◌, refl, ◌∙◌, ap, none, some, List, [], ◌∷◌, ◌++◌, lookup, Bool-cases,
  Option-cases, inl, inr,
}
use azkaban_private.Flow.{Ref, Links, Heap}
use azkaban_private.GraphModel.{Outcome, done, type_error, out_of_fuel, and_then}
use azkaban_private.Execution.{assign_update, update_nodes, update_graph}

-- The objects of an update paired with the nodes they are for, in the order of the calls.
pub data Pairing : Type 0 where
  matched : List (Ref × Ref) → Pairing
  unmatched too_deep : Pairing

abbrev pub followed_by : Pairing → Pairing → Pairing
followed_by (matched ps) (matched qs) = matched (ps ++ qs)
followed_by (matched ps) k = k
followed_by unmatched k = unmatched
followed_by too_deep k = too_deep

abbrev pub pair_nodes : (Ref → Ref → Pairing) → Heap → Links → List Ref → Pairing
pair_nodes pair h m [] = matched []
pair_nodes pair h m (u ∷ us) =
    let rest = pair_nodes pair h m us in
    elim (lookup (h u).id m) [ none ↦ unmatched | some old ↦ followed_by (pair old u) rest ]

abbrev pub pair_up : ℕ → Heap → Ref → Ref → Pairing
pair_up zero h d u = too_deep
pair_up (suc fuel) h d u =
    followed_by (matched ((d, u) ∷ [])) (pair_nodes (pair_up fuel h) h (h d).node_map (h u).nodes)

abbrev pub assign_all : List (Ref × Ref) → Heap → Heap
assign_all [] h = h
assign_all ((d, u) ∷ ps) h = assign_all ps (assign_update d u h)

abbrev pub outcome : Pairing → Heap → Outcome
outcome (matched ps) h = done (assign_all ps h)
outcome unmatched h = type_error
outcome too_deep h = out_of_fuel

-- Two stores with the same objects, up to the fields that an update changes.
abbrev SameShape : Heap → Heap → Type 0
SameShape h g =
    (r : Ref)
    → ((g r).id ≡ (h r).id) × ((g r).node_map ≡ (h r).node_map) × ((g r).nodes ≡ (h r).nodes)

assign_update-SameShape :
    (h g : Heap) (d u : Ref) → SameShape h g → SameShape h (assign_update d u g)
unfolding assign_update
assign_update-SameShape h g d u same r = elim (Bool-cases (u == r)) [
  | inl a ↦ elim (Bool-cases (d == r)) [ inl b ↦ rw (a, b) (same r) | inr b ↦ rw (a, b) (same r) ]
  | inr a ↦ elim (Bool-cases (d == r)) [ inl b ↦ rw (a, b) (same r) | inr b ↦ rw (a, b) (same r) ]
]

assign_all-SameShape :
    (h g : Heap) (ps : List (Ref × Ref)) → SameShape h g → SameShape h (assign_all ps g)
assign_all-SameShape h g [] same = same
assign_all-SameShape h g ((d, u) ∷ ps) same =
    assign_all-SameShape h (assign_update d u g) ps (assign_update-SameShape h g d u same)

assign_all-append :
    (ps qs : List (Ref × Ref)) (h : Heap)
    → assign_all qs (assign_all ps h) ≡ assign_all (ps ++ qs) h
assign_all-append [] qs h = refl
assign_all-append ((d, u) ∷ ps) qs h = assign_all-append ps qs (assign_update d u h)

outcome-followed_by :
    (p q : Pairing) (g : Heap) (k : Heap → Outcome)
    → ((ps : List (Ref × Ref)) → k (assign_all ps g) ≡ outcome q (assign_all ps g))
    → and_then (outcome p g) k ≡ outcome (followed_by p q) g
outcome-followed_by (matched ps) (matched qs) g k e = e ps ∙ ap done (assign_all-append ps qs g)
outcome-followed_by (matched ps) unmatched g k e = e ps
outcome-followed_by (matched ps) too_deep g k e = e ps
outcome-followed_by unmatched q g k e = refl
outcome-followed_by too_deep q g k e = refl

update_nodes-outcome :
    (h : Heap) (update : Ref → Ref → Heap → Outcome) (pair : Ref → Ref → Pairing)
    → ((d u : Ref) (g : Heap) → SameShape h g → update d u g ≡ outcome (pair d u) g)
    → (m : Links) (us : List Ref) (g : Heap) → SameShape h g
    → update_nodes update m us g ≡ outcome (pair_nodes pair h m us) g
unfolding update_nodes
update_nodes-outcome h update pair agrees m [] g same = refl
update_nodes-outcome h update pair agrees m (u ∷ us) g same =
    let key : lookup (g u).id m ≡ lookup (h u).id m = ap (λ i. lookup i m) (same u).0 in
    elim (Option-cases (lookup (h u).id m)) [
      | inl missing ↦ rw (key, missing, update_nodes, pair_nodes) refl
      | inr (old, found) ↦
          let split =
            outcome-followed_by (pair old u) (pair_nodes pair h m us) g (update_nodes update m us)
              (λ ps.
                update_nodes-outcome h update pair agrees m us (assign_all ps g)
                  (assign_all-SameShape h g ps same)) in
          rw (key, found, update_nodes, pair_nodes)
            (ap (λ o. and_then o (update_nodes update m us)) (agrees old u g same) ∙ split)
    ]

pub update_graph-outcome :
    (fuel : ℕ) (h : Heap) (d u : Ref) (g : Heap)
    → SameShape h g
    → update_graph fuel d u g ≡ outcome (pair_up fuel h d u) g
unfolding update_graph
update_graph-outcome zero h d u g same = refl
update_graph-outcome (suc fuel) h d u g same =
    let g' = assign_update d u g in
    let same' = assign_update-SameShape h g d u same in
    let rest =
      update_nodes-outcome h (update_graph fuel) (pair_up fuel h) (update_graph-outcome fuel h)
        (h d).node_map (h u).nodes g' same' in
    ap (λ m. update_nodes (update_graph fuel) m (g' u).nodes g') (same d).1
    ∙ ap (λ us. update_nodes (update_graph fuel) (h d).node_map us g') (same' u).2
    ∙ rest
    ∙ outcome-followed_by (matched ((d, u) ∷ []))
        (pair_nodes (pair_up fuel h) h (h d).node_map (h u).nodes) g
        (λ t. outcome (pair_nodes (pair_up fuel h) h (h d).node_map (h u).nodes) t) (λ ps. refl)
