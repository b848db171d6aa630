-- ===== src/Disable/Gather.antt =====
-- `gatherDisabledNodes`: what is sent to the server of the nodes that are disabled.
use azkaban_private.Prelude.{
  ℕ, zero, suc, ◌<◌, ◌≤◌, ◌≡◌, refl, sym, subst, false, true, Option, none, some, List, [], ◌∷◌,
  arith, String, >>=-eq-some, ◌⊎◌, inl, inr, All, Any, Bool-cases, ◌↔◌,
}
use mathlib.Core.Logic.{⊎_elim}
use azkaban_private.Flow.{Ref, Heap, is_flow}
use azkaban_private.Disable.{
  Entry, Entries, job, flow, nil, cons, flow_entry, gather_node, push, gather_list,
  gather_disabled_nodes,
}

-- The path of ids `p` leads from a list of nodes, through embedded flows that are enabled, to a
-- disabled node.
abbrev pub IsOff : Heap → List Ref → List String → Type 0
IsOff h rs [] = ⊥
IsOff h rs (i ∷ q) =
    Any
      (λ r.
        ((h r).id ≡ i)
        × (((h r).disabled ≡ true) × (q ≡ [])
            ⊎ ((h r).disabled ≡ false) × (is_flow (h r) ≡ true) × IsOff h (h r).nodes q))
      rs

-- The entries name the path `p`.
unfoldable mutual
  pub Names : Entry → List String → Type 0
  Names (job i) p = p ≡ i ∷ []
  Names (flow i es) p = (q : List String) × (p ≡ i ∷ q) × Lists es q

  pub Lists : Entries → List String → Type 0
  Lists nil p = ⊥
  Lists (cons e es) p = Names e p ⊎ Lists es p

-- The result for a list of nodes is right.
abbrev Finds : Heap → (List Ref → Option Entries) → Type 0
Finds h rec =
    (rs : List Ref) (es : Entries)
    → rec rs ≡ some es
    → (p : List String) → Lists es p ↔ IsOff h rs p

not-Lists-nil : (es : Entries) → Lists es [] → ⊥
unfolding Names Lists
not-Lists-nil nil l = l
not-Lists-nil (cons (job i) es) (inl e) = cc
not-Lists-nil (cons (flow i fs) es) (inl (q, e, l)) = cc
not-Lists-nil (cons e es) (inr l) = not-Lists-nil es l

-- What is pushed for a node names what is disabled at it or in it.
abbrev Named : Option Entry → List String → Type 0
Named none p = ⊥
Named (some e) p = Names e p

abbrev AtNode : Heap → Ref → String → List String → Type 0
AtNode h r i q =
    ((h r).id ≡ i)
    × (((h r).disabled ≡ true) × (q ≡ [])
        ⊎ ((h r).disabled ≡ false) × (is_flow (h r) ≡ true) × IsOff h (h r).nodes q)

Named-flow_entry :
    (i : String) (es : Entries) (j : String) (q : List String)
    → Named (flow_entry i es) (j ∷ q) ↔ ((i ≡ j) × Lists es q)
unfolding Names Lists
Named-flow_entry i nil j q = (absurd, λ x. x.1)
Named-flow_entry i (cons e es) j q = (
  λ t. let tail : q ≡ t.0 = cc (t.1) in (cc (t.1), subst (Lists (cons e es)) (sym tail) t.2),
  λ t. (q, cc (t.0), t.1),
)

-- The three ways through the body of the loop.
gather_node_cases :
    (h : Heap) (rec : List Ref → Option Entries) (r : Ref) (o : Option Entry)
    → gather_node rec h r ≡ some o
    → ((h r).disabled ≡ true) × (o ≡ some (job (h r).id))
      ⊎ ((h r).disabled ≡ false)
        × (is_flow (h r) ≡ true)
        × ((es : Entries) × (rec (h r).nodes ≡ some es) × (o ≡ flow_entry (h r).id es))
      ⊎ ((h r).disabled ≡ false) × (is_flow (h r) ≡ false) × (o ≡ none)
unfolding gather_node
gather_node_cases h rec r o e = elim (Bool-cases (h r).disabled) [
  | inl off ↦ inl (off, ground arith)
  | inr on ↦ elim (Bool-cases (is_flow (h r))) [
    | inl inner ↦
        let (es, ran, same) =
          >>=-eq-some (rec (h r).nodes) (λ array. some (flow_entry (h r).id array))
            (rw (on, inner, gather_node) at e) in
        inr (inl (on, inner, (es, ran, cc)))
    | inr plain ↦ inr (inr (on, plain, ground arith))
  ]
]

gather_node-Named :
    (h : Heap) (rec : List Ref → Option Entries) (r : Ref) (o : Option Entry)
    → Finds h rec
    → gather_node rec h r ≡ some o
    → (i : String) (q : List String) → Named o (i ∷ q) ↔ AtNode h r i q
unfolding Names
gather_node-Named h rec r o ok e i q = elim (gather_node_cases h rec r o e) [
  | inl (off, same) ↦ rw same (λ n. (cc, inl (off, cc)), λ a. ground arith)
  | inr (inl (on, inner, (es, ran, same))) ↦
      let entry = Named-flow_entry (h r).id es i q in
      let inside = ok (h r).nodes es ran q in
      rw same (
        λ n. let (e1, l) = entry.0 n in (e1, inr (on, inner, inside.0 l)),
        λ a. entry.1 (a.0, inside.1 (⊎_elim (λ x. cc) (λ x. x.2) a.1)),
      )
  | inr (inr (on, plain, same)) ↦ rw same (absurd, λ a. ground arith)
]

Lists-push :
    (o : Option Entry) (es : Entries) (p : List String)
    → Lists (push o es) p ↔ (Named o p ⊎ Lists es p)
unfolding Lists
Lists-push none es p = (inr, ⊎_elim absurd (λ x. x))
Lists-push (some e) es p = (λ x. x, λ x. x)

gather_list-Finds :
    (h : Heap) (rec : List Ref → Option Entries) → Finds h rec → Finds h (gather_list rec h)
unfolding gather_list Lists
gather_list-Finds h rec ok [] es e [] = (not-Lists-nil es, absurd)
gather_list-Finds h rec ok (r ∷ rs) es e [] = (not-Lists-nil es, absurd)
gather_list-Finds h rec ok [] es e (i ∷ q) =
    let same : nil ≡ es = cc in subst (λ x. Lists x (i ∷ q) ↔ ⊥) same (λ a. a, λ a. a)
gather_list-Finds h rec ok (r ∷ rs) es e (i ∷ q) =
    let (o, eo, e') = >>=-eq-some (gather_node rec h r) _ e in
    let (rest, er, e'') = >>=-eq-some (gather_list rec h rs) _ e' in
    let here = gather_node-Named h rec r o ok eo i q in
    let there = gather_list-Finds h rec ok rs rest er (i ∷ q) in
    let both = Lists-push o rest (i ∷ q) in
    let same : push o rest ≡ es = cc in
    subst (λ x. Lists x (i ∷ q) ↔ IsOff h (r ∷ rs) (i ∷ q)) same
      (
        λ l. ⊎_elim (λ n. inl (here.0 n)) (λ m. inr (there.0 m)) (both.0 l),
        λ a. both.1 (⊎_elim (λ n. inl (here.1 n)) (λ m. inr (there.1 m)) a),
      )

gather_disabled_nodes-Finds : (fuel : ℕ) (h : Heap) → Finds h (gather_disabled_nodes fuel h)
unfolding gather_disabled_nodes
gather_disabled_nodes-Finds zero h rs es e p = cc
gather_disabled_nodes-Finds (suc fuel) h rs es e p =
    gather_list-Finds h (gather_disabled_nodes fuel h) (gather_disabled_nodes-Finds fuel h) rs es e
      p

-- Embedded flows are nested in finitely many levels.
abbrev pub IsNested : (Ref → ℕ) → Heap → Type 0
IsNested depth h = (r : Ref) → All (λ x. depth x < depth r) (h r).nodes

All-lt_trans :
    (depth : Ref → ℕ) (m n : ℕ) (rs : List Ref)
    → m ≤ n
    → All (λ x. depth x < m) rs
    → All (λ x. depth x < n) rs
All-lt_trans depth m n [] le a = tt
All-lt_trans depth m n (r ∷ rs) le a = (omega (arith, a.0), All-lt_trans depth m n rs le a.1)

gather_node_returns :
    (h : Heap) (rec : List Ref → Option Entries) (r : Ref)
    → ((es : Entries) × (rec (h r).nodes ≡ some es))
    → (o : Option Entry) × (gather_node rec h r ≡ some o)
unfolding gather_node
gather_node_returns h rec r (es, e) = elim (Bool-cases (h r).disabled) [
  | inl off ↦ (some (job (h r).id), rw off)
  | inr on ↦ elim (Bool-cases (is_flow (h r))) [
    | inl inner ↦ (flow_entry (h r).id es, rw (on, inner, e))
    | inr plain ↦ (none, rw (on, plain))
  ]
]

gather_list_returns :
    (h : Heap) (rec : List Ref → Option Entries) (rs : List Ref)
    → All (λ r. (es : Entries) × (rec (h r).nodes ≡ some es)) rs
    → (es : Entries) × (gather_list rec h rs ≡ some es)
unfolding gather_list
gather_list_returns h rec [] a = (nil, refl)
gather_list_returns h rec (r ∷ rs) (here, later) =
    let (o, e) = gather_node_returns h rec r here in
    let (es, e') = gather_list_returns h rec rs later in (push o es, rw (e, e'))

gather_disabled_nodes_returns :
    (depth : Ref → ℕ) (h : Heap)
    → IsNested depth h
    → (fuel : ℕ) (rs : List Ref) → All (λ x. depth x < fuel) rs
    → (es : Entries) × (gather_disabled_nodes (suc fuel) h rs ≡ some es)
unfolding gather_disabled_nodes
gather_disabled_nodes_returns depth h nested zero rs low =
    gather_list_returns h (gather_disabled_nodes zero h) rs (no_nodes rs low)
  where
    no_nodes :
        (l : List Ref)
        → All (λ x. depth x < 0) l
        → All (λ r. (es : Entries) × (gather_disabled_nodes zero h (h r).nodes ≡ some es)) l
    no_nodes [] a = tt
    no_nodes (r ∷ l) a = absurd (omega (arith, a.0))
gather_disabled_nodes_returns depth h nested (suc fuel) rs low =
    gather_list_returns h (gather_disabled_nodes (suc fuel) h) rs
      (each (gather_disabled_nodes_returns depth h nested fuel) rs low)
  where
    each :
        ((l : List Ref)
          → All (λ x. depth x < fuel) l
          → (es : Entries) × (gather_disabled_nodes (suc fuel) h l ≡ some es))
        → (l : List Ref) → All (λ x. depth x < suc fuel) l
        → All (λ r. (es : Entries) × (gather_disabled_nodes (suc fuel) h (h r).nodes ≡ some es)) l
    each ih [] a = tt
    each ih (r ∷ l) a = (
      ih (h r).nodes
          (All-lt_trans depth (depth r) fuel (h r).nodes (omega (arith, a.0)) (nested r)),
      each ih l a.1,
    )

-- With a level of fuel more than the flows are nested, the walk returns, and the entries name
-- exactly the paths of ids that lead, through embedded flows that are enabled themselves, to a
-- disabled node.
pub gather_disabled_nodes_lem :
    (depth : Ref → ℕ) (h : Heap) (fuel : ℕ) (rs : List Ref)
    → IsNested depth h
    → All (λ x. depth x < fuel) rs
    → (es : Entries) × (gather_disabled_nodes (suc fuel) h rs ≡ some es)
      × ((p : List String) → Lists es p ↔ IsOff h rs p)
gather_disabled_nodes_lem depth h fuel rs nested low =
    let (es, e) = gather_disabled_nodes_returns depth h nested fuel rs low in
    (es, e, gather_disabled_nodes-Finds (suc fuel) h rs es e)
