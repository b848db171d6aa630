-- ===== src/GraphModel/Process.antt =====
-- The whole of `processFlowData`, and when it throws.
use azkaban_private.Prelude.{
  ℕ, suc, ◌≡◌, refl, sym, ◌∙◌, subst, false, Option, none, some, List, [], ◌∷◌, arith, String,
  str_eq, eq_iff, insert, lookup-insert, inl, inr, Option-cases, Bool-cases, All,
}
use azkaban_private.Flow.{Ref, Links, Edge, Heap, modify, is_flow}
use azkaban_private.GraphModel.{
  Outcome, done, type_error, ready_by_default, index_nodes, link_nodes, adopt, process_flow_data,
}
use azkaban_private.GraphModel.Linking.{IsIndexed, SameIds, link_nodes-SameIds}

-- What neither the first nor the third loop changes.
pub record SameLinks (h h' : Heap) : Type 0 where
  pub ids : (r : Ref) → (h' r).id ≡ (h r).id
  pub depends : (r : Ref) → (h' r).deps ≡ (h r).deps
  pub into : (r : Ref) → (h' r).in_nodes ≡ (h r).in_nodes
  pub out : (r : Ref) → (h' r).out_nodes ≡ (h r).out_nodes
  pub members : (r : Ref) → (h' r).nodes ≡ (h r).nodes
  pub types : (r : Ref) → (h' r).type ≡ (h r).type

SameLinks-refl : (h : Heap) → SameLinks h h
SameLinks-refl h = record {
  ids = λ r. refl;
  depends = λ r. refl;
  into = λ r. refl;
  out = λ r. refl;
  members = λ r. refl;
  types = λ r. refl;
}

SameLinks-trans : {h h' h'' : Heap} → SameLinks h h' → SameLinks h' h'' → SameLinks h h''
SameLinks-trans a b = record {
  ids = λ r. b.ids r ∙ a.ids r;
  depends = λ r. b.depends r ∙ a.depends r;
  into = λ r. b.into r ∙ a.into r;
  out = λ r. b.out r ∙ a.out r;
  members = λ r. b.members r ∙ a.members r;
  types = λ r. b.types r ∙ a.types r;
}

pub SameLinks-SameIds : {h h' : Heap} → SameLinks h h' → SameIds h h'
SameLinks-SameIds s = record { ids = s.ids; depends = s.depends; types = s.types }

pub SameLinks-ready : (h : Heap) (n : Ref) → SameLinks h (modify h n ready_by_default)
SameLinks-ready h n = record {
  ids = λ r. ground arith;
  depends = λ r. ground arith;
  into = λ r. ground arith;
  out = λ r. ground arith;
  members = λ r. ground arith;
  types = λ r. ground arith;
}

SameLinks-parent :
    (h : Heap) (d n : Ref) → SameLinks h (modify h n (λ x. record x { parent = some d }))
SameLinks-parent h d n = record {
  ids = λ r. ground arith;
  depends = λ r. ground arith;
  into = λ r. ground arith;
  out = λ r. ground arith;
  members = λ r. ground arith;
  types = λ r. ground arith;
}

pub index_nodes-SameLinks :
    (rs : List Ref) (h : Heap) (m : Links) → SameLinks h (index_nodes rs h m).0
unfolding index_nodes
index_nodes-SameLinks [] h m = SameLinks-refl h
index_nodes-SameLinks (r ∷ rs) h m =
    SameLinks-trans (SameLinks-ready h r)
      (index_nodes-SameLinks rs (modify h r ready_by_default) (insert (h r).id r m))

-- The first loop makes a map in which each node stands under its own id.
pub index_nodes-IsIndexed :
    (rs : List Ref) (h : Heap) (m : Links) → IsIndexed m h → IsIndexed (index_nodes rs h m).1 h
unfolding index_nodes
index_nodes-IsIndexed [] h m i k f e = i k f e
index_nodes-IsIndexed (r ∷ rs) h m i k f e =
    let h' = modify h r ready_by_default in
    let s = SameLinks-ready h r in
    sym (s.ids f)
    ∙ index_nodes-IsIndexed rs h' (insert (h r).id r m)
        (λ j g e'. ground (arith, s.ids g, lookup-insert (h r).id j r m, i j g, eq_iff (h r).id j))
        k f e

All-insert :
    (P : Ref → Type 0) (k : String) (r : Ref) (m : Links)
    → P r
    → All (λ e. P e.1) m
    → All (λ e. P e.1) (insert k r m)
unfolding insert
All-insert P k r [] p a = (p, tt)
All-insert P k r ((j, x) ∷ m) p a = elim (Bool-cases (str_eq j k)) [
  | inl e ↦ rw e (p, a.1)
  | inr e ↦ rw e (a.0, All-insert P k r m p a.1)
]

pub All-index_nodes :
    (P : Ref → Type 0) (rs : List Ref) (h : Heap) (m : Links)
    → All P rs
    → All (λ e. P e.1) m
    → All (λ e. P e.1) (index_nodes rs h m).1
unfolding index_nodes
All-index_nodes P [] h m a b = b
All-index_nodes P (r ∷ rs) h m a b =
    All-index_nodes P rs (modify h r ready_by_default) (insert (h r).id r m) a.1
      (All-insert P (h r).id r m a.0 b)

-- A flow that embeds none: the third loop only sets the parents.
adopt-SameLinks :
    (process : Ref → Heap → Outcome) (d : Ref) (m : Links) (h : Heap)
    → All (λ e. is_flow (h e.1) ≡ false) m
    → (t : Heap) × (adopt process d m h ≡ done t) × SameLinks h t
unfolding adopt
adopt-SameLinks process d [] h a = (h, refl, SameLinks-refl h)
adopt-SameLinks process d ((k, r) ∷ m) h a =
    let h' = modify h r (λ x. record x { parent = some d }) in
    let s = SameLinks-parent h d r in
    let same : (x : Ref) → is_flow (h' x) ≡ is_flow (h x) = λ x. rw (s.types x) in
    let (t, e, s') = adopt-SameLinks process d m h' (All-is_flow h h' m same a.1) in
    (t, rw (same r, a.0) e, SameLinks-trans s s')
  where
    All-is_flow :
        (g g' : Heap) (l : Links)
        → ((x : Ref) → is_flow (g' x) ≡ is_flow (g x))
        → All (λ e. is_flow (g e.1) ≡ false) l
        → All (λ e. is_flow (g' e.1) ≡ false) l
    All-is_flow g g' [] s b = tt
    All-is_flow g g' ((j, x) ∷ l) s b = (s x ∙ b.0, All-is_flow g g' l s b.1)

-- A flow at `d` whose nodes embed no flow.
abbrev pub IsFlat : Heap → Ref → Type 0
IsFlat h d = All (λ r. is_flow (h r) ≡ false) (h d).nodes

SameLinks-finish :
    (h : Heap) (d : Ref) (m : Links) (es : List Edge)
    → SameLinks h (modify h d (λ x. record x { node_map = m; edges = es }))
SameLinks-finish h d m es = record {
  ids = λ r. ground arith;
  depends = λ r. ground arith;
  into = λ r. ground arith;
  out = λ r. ground arith;
  members = λ r. ground arith;
  types = λ r. ground arith;
}

All-types :
    (h h' : Heap) (rs : List Ref)
    → ((r : Ref) → (h' r).type ≡ (h r).type)
    → All (λ r. is_flow (h r) ≡ false) rs
    → All (λ r. is_flow (h' r) ≡ false) rs
All-types h h' [] s a = tt
All-types h h' (r ∷ rs) s a = (rw (s r) a.0, All-types h h' rs s a.1)

-- The map and the store after the first loop.
abbrev pub indexed : Heap → Ref → Heap × Links
indexed h d = index_nodes (h d).nodes h []

abbrev pub linking : Heap → Ref → Option (Heap × List Edge)
linking h d = link_nodes (indexed h d).1 (h d).nodes (indexed h d).0 []

-- What a run over a flow that embeds no flow gives, from what its second loop gives.
pub process-linked :
    (fuel : ℕ) (d : Ref) (h h' : Heap) (es : List Edge)
    → IsFlat h d
    → linking h d ≡ some (h', es)
    → (t : Heap) × (process_flow_data (suc fuel) d h ≡ done t)
      × SameLinks h' t
      × ((t d).node_map ≡ (indexed h d).1)
      × ((t d).edges ≡ es)
unfolding process_flow_data
process-linked fuel d h h' es flat e =
    let s = index_nodes-SameLinks (h d).nodes h [] in
    let e' : link_nodes (indexed h d).1 ((indexed h d).0 d).nodes (indexed h d).0 []
        ≡ some (h', es) =
      rw (s.members d) e in
    let s' = link_nodes-SameIds (indexed h d).1 (h d).nodes (indexed h d).0 [] e in
    let flat' =
      All-index_nodes (λ r. is_flow (h' r) ≡ false) (h d).nodes h []
        (All-types h h' (h d).nodes (λ r. s'.types r ∙ s.types r) flat) tt in
    let (t, adopted, s'') = adopt-SameLinks (process_flow_data fuel) d (indexed h d).1 h' flat' in
    (
      modify t d (λ x. record x { node_map = (indexed h d).1; edges = es }),
      rw (e', process_flow_data) (rw adopted),
      SameLinks-trans s'' (SameLinks-finish t d _ es),
      ground arith,
      ground arith,
    )

pub process-threw :
    (fuel : ℕ) (d : Ref) (h : Heap)
    → linking h d ≡ none
    → process_flow_data (suc fuel) d h ≡ type_error
unfolding process_flow_data
process-threw fuel d h e =
    rw ((index_nodes-SameLinks (h d).nodes h []).members d, e, process_flow_data)

-- A run that does not throw went through the second loop.
pub process-inv :
    (fuel : ℕ) (d : Ref) (h t : Heap)
    → IsFlat h d
    → process_flow_data (suc fuel) d h ≡ done t
    → (h' : Heap) × (es : List Edge) × (linking h d ≡ some (h', es))
      × SameLinks h' t
      × ((t d).node_map ≡ (indexed h d).1)
      × ((t d).edges ≡ es)
process-inv fuel d h t flat e = elim (Option-cases (linking h d)) [
  | inl threw ↦ cc (process-threw fuel d h threw)
  | inr ((h', es), linked) ↦
      let (t', e', s, m, found) = process-linked fuel d h h' es flat linked in
      let same : t' ≡ t = cc in
      (
        h',
        es,
        linked,
        subst (SameLinks h') same s,
        subst (λ x. (x d).node_map ≡ (indexed h d).1) same m,
        subst (λ x. (x d).edges ≡ es) same found,
      )
]
