-- ===== src/GraphModel/Mirror.antt =====
-- `inNodes` and `outNodes` are the two directions of one relation.
use azkaban_private.Prelude.{
  ◌≡◌, subst, some, List, [], ◌∷◌, arith, String, eq_iff, lookup, ◌↔◌, All,
}
use azkaban_private.Flow.{Ref, Links, Edge, Heap}
use azkaban_private.GraphModel.{link, link_deps, link_nodes, deps_of}
use azkaban_private.GraphModel.Linking.{
  ins, outs, SameIds, link-SameIds, link_deps-cons, link_deps-nil, link_deps-SameIds,
  link_nodes-cons, link_nodes-nil, lookup-ins-link, lookup-outs-link,
}

-- `U` is the set of a flow's nodes.
module _ (U : Ref → Type 0) where
  -- No two nodes of the flow have one id.
  abbrev pub Distinct : Heap → Type 0
  Distinct h = (a b : Ref) → U a → U b → (h a).id ≡ (h b).id → a ≡ b

  -- `b.inNodes[a.id] === a` exactly when `a.outNodes[b.id] === b`.
  abbrev pub Mirrored : Heap → Type 0
  Mirrored h =
      (a b : Ref)
      → U a
      → U b
      → (lookup (h a).id (ins h b) ≡ some a) ↔ (lookup (h b).id (outs h a) ≡ some b)

  pub Distinct-SameIds : {h h' : Heap} → SameIds h h' → Distinct h → Distinct h'
  Distinct-SameIds s d a b ua ub e = d a b ua ub (cc (s.ids a, s.ids b))

  Mirrored-link :
      (n f : Ref) (h : Heap) → U n → U f → Distinct h → Mirrored h → Mirrored (link n f h)
  Mirrored-link n f h un uf d mir a b ua ub =
      let s = link-SameIds n f h in
      rw (s.ids a, s.ids b)
        (ground (
          arith,
          lookup-ins-link n f h (h a).id b,
          lookup-outs-link n f h (h b).id a,
          eq_iff (h f).id (h a).id,
          eq_iff (h n).id (h b).id,
          d f a uf ua,
          d n b un ub,
          mir a b ua ub,
        ))

  Mirrored-link_deps :
      (m : Links) (n : Ref) (ds : List String) (h : Heap) (es : List Edge) {h' : Heap}
      {es' : List Edge}
      → ((k : String) (f : Ref) → lookup k m ≡ some f → U f)
      → U n
      → Distinct h
      → Mirrored h
      → link_deps m n ds h es ≡ some (h', es')
      → Mirrored h'
  Mirrored-link_deps m n [] h es inside un d mir e = subst Mirrored (link_deps-nil m n h es e).0 mir
  Mirrored-link_deps m n (k ∷ ds) h es inside un d mir e =
      let (f, there, rest) = link_deps-cons m n k ds h es e in
      Mirrored-link_deps m n ds (link n f h) _ inside un (Distinct-SameIds (link-SameIds n f h) d)
        (Mirrored-link n f h un (inside k f there) d mir) rest

  -- If the two maps of the nodes of a flow, whose ids are distinct, mirror each other before the
  -- second loop, they do so when it ends: a node is in the `inNodes` of another under its id
  -- exactly when the other is in its `outNodes`.
  pub Mirrored-link_nodes :
      (m : Links) (ns : List Ref) (h : Heap) (es : List Edge) {h' : Heap} {es' : List Edge}
      → ((k : String) (f : Ref) → lookup k m ≡ some f → U f)
      → All U ns
      → Distinct h
      → Mirrored h
      → link_nodes m ns h es ≡ some (h', es')
      → Mirrored h'
  Mirrored-link_nodes m [] h es inside us d mir e = subst Mirrored (link_nodes-nil m h es e).0 mir
  Mirrored-link_nodes m (n ∷ ns) h es inside us d mir e =
      let (h1, es1, linked, rest) = link_nodes-cons m n ns h es e in
      let s = link_deps-SameIds m n (deps_of (h n).deps) h es linked in
      Mirrored-link_nodes m ns h1 es1 inside us.1 (Distinct-SameIds s d)
        (Mirrored-link_deps m n (deps_of (h n).deps) h es inside us.0 d mir linked) rest
