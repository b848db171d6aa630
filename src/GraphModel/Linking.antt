-- ===== src/GraphModel/Linking.antt =====
-- What the loops of `processFlowData` leave in `inNodes`, `outNodes` and the list of edges.
use azkaban_private.Prelude.{
  ◌==◌, ==_iff, ◌≡◌, refl, sym, ◌∙◌, ap, subst, if◌then◌else◌, Bool, false, ◌&&◌, ◌||◌, some, List,
  [], ◌∷◌, ◌++◌, map, arith, String, str_eq, eq_iff, lookup, lookup-insert, inl, inr, Option-cases,
}
use mathlib.Core.Path.{ap₂}
use mathlib.Core.List.{append-nil, append_assoc}
use azkaban_private.Flow.{Ref, Links, Edge, Heap, links_of}
use azkaban_private.GraphModel.{link, link_deps, link_nodes, deps_of}

-- The entries of a node's two maps.
abbrev pub ins : Heap → Ref → Links
ins h r = links_of (h r).in_nodes

abbrev pub outs : Heap → Ref → Links
outs h r = links_of (h r).out_nodes

abbrev pub contains : String → List String → Bool
contains k [] = false
contains k (d ∷ ds) = str_eq d k || contains k ds

abbrev pub contains_ref : Ref → List Ref → Bool
contains_ref r [] = false
contains_ref r (n ∷ ns) = n == r || contains_ref r ns

-- Every key of the map is the id of its node.
abbrev pub IsIndexed : Links → Heap → Type 0
IsIndexed m h = (k : String) (f : Ref) → lookup k m ≡ some f → (h f).id ≡ k

-- Linking changes neither ids, types nor the ids that the server sent.
pub record SameIds (h h' : Heap) : Type 0 where
  pub ids : (r : Ref) → (h' r).id ≡ (h r).id
  pub depends : (r : Ref) → (h' r).deps ≡ (h r).deps
  pub types : (r : Ref) → (h' r).type ≡ (h r).type

pub link-SameIds : (n f : Ref) (h : Heap) → SameIds h (link n f h)
unfolding link
link-SameIds n f h = record {
  ids = λ r. ground arith;
  depends = λ r. ground arith;
  types = λ r. ground arith;
}

pub SameIds-trans : {h h' h'' : Heap} → SameIds h h' → SameIds h' h'' → SameIds h h''
SameIds-trans a b = record {
  ids = λ r. cc (a.ids r, b.ids r);
  depends = λ r. cc (a.depends r, b.depends r);
  types = λ r. cc (a.types r, b.types r);
}

pub SameIds-refl : (h : Heap) → SameIds h h
SameIds-refl h = record { ids = λ r. refl; depends = λ r. refl; types = λ r. refl }

pub IsIndexed-SameIds : (m : Links) {h h' : Heap} → SameIds h h' → IsIndexed m h → IsIndexed m h'
IsIndexed-SameIds m s i k f e = cc (s.ids f, i k f e)

pub lookup-ins-link :
    (n f : Ref) (h : Heap) (k : String) (b : Ref)
    → lookup k (ins (link n f h) b)
      ≡ (if n == b && str_eq (h f).id k then some f else lookup k (ins h b))
unfolding link
lookup-ins-link n f h k b = ground (arith, lookup-insert (h f).id k f (ins h b))

pub lookup-outs-link :
    (n f : Ref) (h : Heap) (k : String) (a : Ref)
    → lookup k (outs (link n f h) a)
      ≡ (if f == a && str_eq (h n).id k then some n else lookup k (outs h a))
unfolding link
lookup-outs-link n f h k a = ground (arith, lookup-insert (h n).id k n (outs h a))

pub link_deps-nil :
    (m : Links) (n : Ref) (h : Heap) (es : List Edge) {h' : Heap} {es' : List Edge}
    → link_deps m n [] h es ≡ some (h', es')
    → (h ≡ h') × (es ≡ es')
unfolding link_deps
link_deps-nil m n h es e = (cc, cc)

-- One round of the inner loop, for an id that a node has.
pub link_deps-cons :
    (m : Links) (n : Ref) (d : String) (ds : List String) (h : Heap) (es : List Edge)
    {r : Heap × List Edge}
    → link_deps m n (d ∷ ds) h es ≡ some r
    → (f : Ref) × (lookup d m ≡ some f)
      × (link_deps m n ds (link n f h) (es ++ record { from = (h f).id; to = (h n).id } ∷ [])
          ≡ some r)
unfolding link_deps
link_deps-cons m n d ds h es e = elim (Option-cases (lookup d m)) [
  | inl none_there ↦ ground arith
  | inr (f, there) ↦ (f, there, ground arith)
]

pub link_deps-SameIds :
    (m : Links) (n : Ref) (ds : List String) (h : Heap) (es : List Edge) {h' : Heap}
    {es' : List Edge}
    → link_deps m n ds h es ≡ some (h', es')
    → SameIds h h'
link_deps-SameIds m n [] h es e = subst (SameIds h) (link_deps-nil m n h es e).0 (SameIds-refl h)
link_deps-SameIds m n (d ∷ ds) h es e =
    let (f, there, rest) = link_deps-cons m n d ds h es e in
    SameIds-trans (link-SameIds n f h) (link_deps-SameIds m n ds (link n f h) _ rest)

lookup-ins-link_deps :
    (m : Links) (n : Ref) (ds : List String) (h : Heap) (es : List Edge) {h' : Heap}
    {es' : List Edge}
    → IsIndexed m h
    → link_deps m n ds h es ≡ some (h', es')
    → (k : String) (b : Ref)
    → lookup k (ins h' b) ≡ (if n == b && contains k ds then lookup k m else lookup k (ins h b))
lookup-ins-link_deps m n [] h es i e k b = ground (arith, link_deps-nil m n h es e)
lookup-ins-link_deps m n (d ∷ ds) h es i e k b =
    let (f, there, rest) = link_deps-cons m n d ds h es e in
    let s = link-SameIds n f h in
    ground (
      arith,
      lookup-ins-link_deps m n ds (link n f h) _ (IsIndexed-SameIds m s i) rest k b,
      lookup-ins-link n f h k b,
      i d f there,
      eq_iff d k,
      eq_iff (h f).id k,
      there,
    )

-- One round of the second loop.
pub link_nodes-cons :
    (m : Links) (n : Ref) (ns : List Ref) (h : Heap) (es : List Edge) {r : Heap × List Edge}
    → link_nodes m (n ∷ ns) h es ≡ some r
    → (h' : Heap) × (es' : List Edge) × (link_deps m n (deps_of (h n).deps) h es ≡ some (h', es'))
      × (link_nodes m ns h' es' ≡ some r)
unfolding link_nodes
link_nodes-cons m n ns h es e = elim (Option-cases (link_deps m n (deps_of (h n).deps) h es)) [
  | inl failed ↦ ground arith
  | inr ((h', es'), linked) ↦ (h', es', linked, ground arith)
]

pub link_nodes-nil :
    (m : Links) (h : Heap) (es : List Edge) {h' : Heap} {es' : List Edge}
    → link_nodes m [] h es ≡ some (h', es')
    → (h ≡ h') × (es ≡ es')
unfolding link_nodes
link_nodes-nil m h es e = (cc, cc)

pub link_nodes-SameIds :
    (m : Links) (ns : List Ref) (h : Heap) (es : List Edge) {h' : Heap} {es' : List Edge}
    → link_nodes m ns h es ≡ some (h', es')
    → SameIds h h'
link_nodes-SameIds m [] h es e = subst (SameIds h) (link_nodes-nil m h es e).0 (SameIds-refl h)
link_nodes-SameIds m (n ∷ ns) h es e =
    let (h1, es1, linked, rest) = link_nodes-cons m n ns h es e in
    SameIds-trans (link_deps-SameIds m n (deps_of (h n).deps) h es linked)
      (link_nodes-SameIds m ns h1 es1 rest)

-- When the second loop ends, the `inNodes` of each of its nodes lead, under exactly the ids in the
-- node's `in`, to the nodes that the node map has for them; entries under other ids and the
-- `inNodes` of other nodes are as before. The node map has each node under its own id.
pub lookup-ins-link_nodes :
    (m : Links) (ns : List Ref) (h : Heap) (es : List Edge) {h' : Heap} {es' : List Edge}
    → IsIndexed m h
    → link_nodes m ns h es ≡ some (h', es')
    → (k : String) (b : Ref)
    → lookup k (ins h' b) ≡ (
        if contains_ref b ns && contains k (deps_of (h b).deps)
        then lookup k m
        else lookup k (ins h b))
lookup-ins-link_nodes m [] h es i e k b = ground (arith, link_nodes-nil m h es e)
lookup-ins-link_nodes m (n ∷ ns) h es i e k b =
    let (h1, es1, linked, rest) = link_nodes-cons m n ns h es e in
    let s = link_deps-SameIds m n (deps_of (h n).deps) h es linked in
    let same : deps_of (h1 b).deps ≡ deps_of (h b).deps = ap deps_of (s.depends b) in
    let step = lookup-ins-link_deps m n (deps_of (h n).deps) h es i linked k b in
    let later = lookup-ins-link_nodes m ns h1 es1 (IsIndexed-SameIds m s i) rest k b in
    ground (arith, same, step, later, ==_iff n b)

-- The edges are, in order, those from each id in a node's `in` to the node's own id.
abbrev pub edges_into : Heap → List Ref → List Edge
edges_into h [] = []
edges_into h (n ∷ ns) =
    map (λ d. record { from = d; to = (h n).id }) (deps_of (h n).deps) ++ edges_into h ns

pub edges_into-SameIds :
    {h h' : Heap} (ns : List Ref) → SameIds h h' → edges_into h' ns ≡ edges_into h ns
edges_into-SameIds [] s = refl
edges_into-SameIds (n ∷ ns) s = rw (s.ids n, s.depends n, edges_into-SameIds ns s)

edges-link_deps :
    (m : Links) (n : Ref) (ds : List String) (h : Heap) (es : List Edge) {h' : Heap}
    {es' : List Edge}
    → IsIndexed m h
    → link_deps m n ds h es ≡ some (h', es')
    → es' ≡ es ++ map (λ d. record { from = d; to = (h n).id }) ds
edges-link_deps m n [] h es i e = sym (link_deps-nil m n h es e).1 ∙ sym (append-nil es)
edges-link_deps m n (d ∷ ds) h es {h'} {es'} i e =
    let (f, there, rest) = link_deps-cons m n d ds h es e in
    let s = link-SameIds n f h in
    let ih = edges-link_deps m n ds (link n f h) _ (IsIndexed-SameIds m s i) rest in
    let named : (h f).id ≡ d = i d f there in ih ∙ append_assoc es _ _ ∙ rw (s.ids n, named)

pub edges-link_nodes :
    (m : Links) (ns : List Ref) (h : Heap) (es : List Edge) {h' : Heap} {es' : List Edge}
    → IsIndexed m h
    → link_nodes m ns h es ≡ some (h', es')
    → es' ≡ es ++ edges_into h ns
edges-link_nodes m [] h es i e = sym (link_nodes-nil m h es e).1 ∙ sym (append-nil es)
edges-link_nodes m (n ∷ ns) h es i e =
    let (h1, es1, linked, rest) = link_nodes-cons m n ns h es e in
    let s = link_deps-SameIds m n (deps_of (h n).deps) h es linked in
    let first = edges-link_deps m n (deps_of (h n).deps) h es i linked in
    let later = edges-link_nodes m ns h1 es1 (IsIndexed-SameIds m s i) rest in
    later ∙ ap₂ ◌++◌ first (edges_into-SameIds ns s) ∙ append_assoc es _ _
