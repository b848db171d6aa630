-- ===== src/GraphModel/Correct.antt =====
-- The contract of `processFlowData` for a flow that embeds none.
use azkaban_private.Prelude.{
  ℕ, suc, ◌≡◌, ◌≢◌, refl, sym, ◌∙◌, ap, subst, if◌then◌else◌, Bool, false, true, ◌||◌, none, some,
  List, [], ◌∷◌, ◌++◌, arith, String, str_eq, lookup, insert, lookup-insert, ◌↔◌, ◌⊎◌, inl, inr,
  Option-cases, Bool-cases, All, Any, Any-map,
}
use mathlib.Core.Path.{transport}
use mathlib.Core.Logic.{⊎_elim}
use azkaban_private.Flow.{Ref, Links, Edge, Heap, modify, links_of}
use azkaban_private.GraphModel.{
  done, type_error, ready_by_default, index_nodes, link, link_deps, link_nodes, deps_of,
  process_flow_data,
}
use azkaban_private.GraphModel.Linking.{
  ins, outs, contains, contains_ref, IsIndexed, SameIds, edges_into, edges_into-SameIds,
  link_deps-SameIds, lookup-ins-link_nodes, edges-link_nodes, IsIndexed-SameIds,
}
use azkaban_private.GraphModel.Mirror.{Distinct, Mirrored, Distinct-SameIds, Mirrored-link_nodes}
use azkaban_private.GraphModel.Process.{
  SameLinks, IsFlat, All-index_nodes, indexed, index_nodes-SameLinks, index_nodes-IsIndexed,
  SameLinks-SameIds, SameLinks-ready, process-linked, process-threw, process-inv,
}

lookup-nil : (k : String) (f : Ref) → lookup {V = Ref} k [] ≢ some f
unfolding lookup
lookup-nil k f e = cc

indexed-IsIndexed : (h : Heap) (d : Ref) → IsIndexed (indexed h d).1 (indexed h d).0
indexed-IsIndexed h d =
    IsIndexed-SameIds (indexed h d).1 (SameLinks-SameIds (index_nodes-SameLinks (h d).nodes h []))
      (index_nodes-IsIndexed (h d).nodes h [] (λ k f e. absurd (lookup-nil k f e)))

-- After a run that does not throw, a node of the flow that had no `inNodes` has in them, under
-- exactly the ids of its `in`, the nodes that the flow's `nodeMap` has for these ids; and the
-- flow's `edges` are, in the nodes' order, one for each id of a node's `in`, from that id to the
-- node's. The flow embeds no flow.
pub process-in_nodes :
    (fuel : ℕ) (d : Ref) (h t : Heap)
    → IsFlat h d
    → process_flow_data (suc fuel) d h ≡ done t
    → ((b : Ref) (k : String)
        → contains_ref b (h d).nodes ≡ true
        → ins h b ≡ []
        → lookup k (ins t b)
          ≡ (if contains k (deps_of (h b).deps) then lookup k (t d).node_map else none))
      × ((t d).edges ≡ edges_into h (h d).nodes)
unfolding lookup
process-in_nodes fuel d h t flat e =
    let (h', es, linked, s, m, found) = process-inv fuel d h t flat e in
    let s0 = index_nodes-SameLinks (h d).nodes h [] in
    let i = indexed-IsIndexed h d in
    (
      λ b k member empty.
          let into : ins t b ≡ ins h' b = ap links_of (s.into b) in
          let before : ins (indexed h d).0 b ≡ [] = ap links_of (s0.into b) ∙ empty in
          let asked : deps_of ((indexed h d).0 b).deps ≡ deps_of (h b).deps =
            ap deps_of (s0.depends b) in
          let step =
            lookup-ins-link_nodes (indexed h d).1 (h d).nodes (indexed h d).0 [] i linked k b in
          rw (into, m) (rw (before, asked, member) at step),
      found
          ∙ edges-link_nodes (indexed h d).1 (h d).nodes (indexed h d).0 [] i linked
          ∙ edges_into-SameIds (h d).nodes (SameLinks-SameIds s0),
    )

-- A node with this id is among the nodes.
abbrev pub has_id : Heap → String → List Ref → Bool
has_id h k [] = false
has_id h k (r ∷ rs) = str_eq (h r).id k || has_id h k rs

-- Some id that one of the nodes depends on belongs to none of them.
abbrev pub IsMissing : Heap → Ref → Type 0
IsMissing h d =
    Any (λ n. Any (λ k. has_id h k (h d).nodes ≡ false) (deps_of (h n).deps)) (h d).nodes

has_id-SameLinks :
    (h h' : Heap) (k : String) (rs : List Ref) → SameLinks h h' → has_id h' k rs ≡ has_id h k rs
has_id-SameLinks h h' k [] s = refl
has_id-SameLinks h h' k (r ∷ rs) s = rw (s.ids r, has_id-SameLinks h h' k rs s)

lookup-index_nodes :
    (rs : List Ref) (h : Heap) (m : Links) (k : String)
    → (lookup k (index_nodes rs h m).1 ≡ none) ↔ ((lookup k m ≡ none) × (has_id h k rs ≡ false))
unfolding index_nodes
lookup-index_nodes [] h m k = (λ e. (e, refl), λ e. e.0)
lookup-index_nodes (r ∷ rs) h m k =
    let h' = modify h r ready_by_default in
    ground (
      arith,
      lookup-index_nodes rs h' (insert (h r).id r m) k,
      lookup-insert (h r).id k r m,
      has_id-SameLinks h h' k rs (SameLinks-ready h r),
    )

-- The inner loop either meets an id that the map does not have, or comes to its end.
link_deps_cases :
    (m : Links) (n : Ref) (ds : List String) (h : Heap) (es : List Edge)
    → (link_deps m n ds h es ≡ none) × Any (λ d. lookup d m ≡ none) ds
      ⊎ ((r : Heap × List Edge) × (link_deps m n ds h es ≡ some r))
        × ¬ Any (λ d. lookup d m ≡ none) ds
unfolding link_deps
link_deps_cases m n [] h es = inr (((h, es), refl), λ a. a)
link_deps_cases m n (d ∷ ds) h es = elim (Option-cases (lookup d m)) [
  | inl e ↦ inl (rw (e, link_deps), inl e)
  | inr (f, e) ↦
      elim (link_deps_cases m n ds (link n f h)
        (es ++ record { from = (h f).id; to = (h n).id } ∷ [])) [
          | inl (threw, a) ↦ inl (rw (e, link_deps) threw, inr a)
          | inr ((r, ok), na) ↦ inr ((r, rw (e, link_deps) ok), ⊎_elim (λ q. cc) na)
        ]
]

Missing : Links → Heap → List Ref → Type 0
Missing m h ns = Any (λ n. Any (λ d. lookup d m ≡ none) (deps_of (h n).deps)) ns

Missing-SameIds :
    (m : Links) (h h' : Heap) (ns : List Ref) → SameIds h h' → Missing m h' ns ≡ Missing m h ns
unfolding Missing
Missing-SameIds m h h' [] s = refl
Missing-SameIds m h h' (n ∷ ns) s = rw (s.depends n, Missing-SameIds m h h' ns s)

-- The second loop either meets an id that the map does not have, or comes to its end.
link_nodes_cases :
    (m : Links) (ns : List Ref) (h : Heap) (es : List Edge)
    → (link_nodes m ns h es ≡ none) × Missing m h ns
      ⊎ ((r : Heap × List Edge) × (link_nodes m ns h es ≡ some r)) × ¬ Missing m h ns
unfolding link_nodes Missing
link_nodes_cases m [] h es = inr (((h, es), refl), λ a. a)
link_nodes_cases m (n ∷ ns) h es = elim (link_deps_cases m n (deps_of (h n).deps) h es) [
  | inl (threw, a) ↦ inl (rw (threw, link_nodes), inl a)
  | inr (((h', es'), e), na) ↦
      let same = Missing-SameIds m h h' ns (link_deps-SameIds m n (deps_of (h n).deps) h es e) in
      elim (link_nodes_cases m ns h' es') [
        | inl (threw, a) ↦ inl (rw (e, link_nodes) threw, inr (transport same a))
        | inr ((r, ok), nb) ↦
            inr ((r, rw (e, link_nodes) ok), ⊎_elim na (λ b. nb (transport (sym same) b)))
      ]
]

Missing-iff :
    (h : Heap) (d : Ref) → Missing (indexed h d).1 (indexed h d).0 (h d).nodes ↔ IsMissing h d
unfolding Missing lookup
Missing-iff h d =
    let s = index_nodes-SameLinks (h d).nodes h [] in
    let asked = λ (n : Ref). ap deps_of (s.depends n) in
    let gone = λ (k : String). lookup-index_nodes (h d).nodes h [] k in
    (
      Any-map _ _ (h d).nodes
          λ n a. Any-map _ _ (deps_of (h n).deps) (λ k e. ((gone k).0 e).1) (rw (asked n) at a),
      Any-map _ _ (h d).nodes
          λ n a. rw (asked n) (Any-map _ _ (deps_of (h n).deps) (λ k e. (gone k).1 (refl, e)) a),
    )

-- Over a flow that embeds none, a run with fuel throws a TypeError if some node's `in` names an id
-- that no node of the flow has, and otherwise returns.
pub process_cases :
    (fuel : ℕ) (d : Ref) (h : Heap)
    → IsFlat h d
    → (process_flow_data (suc fuel) d h ≡ type_error) × IsMissing h d
      ⊎ ((t : Heap) × (process_flow_data (suc fuel) d h ≡ done t)) × ¬ IsMissing h d
process_cases fuel d h flat =
    let iff = Missing-iff h d in
    elim (link_nodes_cases (indexed h d).1 (h d).nodes (indexed h d).0 []) [
      | inl (threw, a) ↦ inl (process-threw fuel d h threw, iff.0 a)
      | inr (((h', es), e), na) ↦
          let (t, ok, _, _, _) = process-linked fuel d h h' es flat e in
          inr ((t, ok), λ a. na (iff.1 a))
    ]

lookup-All :
    (P : Ref → Type 0) (m : Links) (k : String) (f : Ref)
    → All (λ e. P e.1) m
    → lookup k m ≡ some f
    → P f
unfolding lookup
lookup-All P [] k f a e = cc
lookup-All P ((j, r) ∷ m) k f a e = elim (Bool-cases (str_eq j k)) [
  | inl hit ↦ let same : r ≡ f = ground arith in subst P same a.0
  | inr miss ↦ lookup-All P m k f a.1 (rw (miss, lookup) at e)
]

All-of :
    (P : Ref → Type 0) (ns : List Ref) → ((r : Ref) → contains_ref r ns ≡ true → P r) → All P ns
All-of P [] f = tt
All-of P (n ∷ ns) f = (f n (ground arith), All-of P ns (λ r c. f r (ground arith)))

-- If no two nodes of a flow have one id, and none has been linked before, then after a run that
-- does not throw a node is in the `inNodes` of another, under its own id, exactly when the other
-- is in its `outNodes`. The flow embeds no flow.
pub process-Mirrored :
    (fuel : ℕ) (d : Ref) (h t : Heap)
    → IsFlat h d
    → Distinct (λ r. contains_ref r (h d).nodes ≡ true) h
    → ((r : Ref) → contains_ref r (h d).nodes ≡ true → (ins h r ≡ []) × (outs h r ≡ []))
    → process_flow_data (suc fuel) d h ≡ done t
    → Mirrored (λ r. contains_ref r (h d).nodes ≡ true) t
process-Mirrored fuel d h t flat distinct empty e =
    let (h', es, linked, s, _, _) = process-inv fuel d h t flat e in
    let s0 = index_nodes-SameLinks (h d).nodes h [] in
    let U = λ (r : Ref). contains_ref r (h d).nodes ≡ true in
    let us : All U (h d).nodes = All-of U (h d).nodes (λ r c. c) in
    let start : Mirrored U (indexed h d).0 = λ a b ua ub.
      let i0 : ins (indexed h d).0 b ≡ [] = ap links_of (s0.into b) ∙ (empty b ub).0 in
      let o0 : outs (indexed h d).0 a ≡ [] = ap links_of (s0.out a) ∙ (empty a ua).1 in
      rw (i0, o0) (λ e. absurd (lookup-nil _ a e), λ e. absurd (lookup-nil _ b e)) in
    let mir =
      Mirrored-link_nodes U (indexed h d).1 (h d).nodes (indexed h d).0 []
        (λ k f. lookup-All U (indexed h d).1 k f (All-index_nodes U (h d).nodes h [] us tt)) us
        (Distinct-SameIds U (SameLinks-SameIds s0) distinct) start linked in
    λ a b ua ub. rw (s.ids a, s.ids b, s.into b, s.out a) (mir a b ua ub)
