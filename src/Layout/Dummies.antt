-- ===== src/Layout/Dummies.antt =====
-- layoutGraph of util/layout.js: the dummy nodes on the edges that pass layers.
pub mod Adjacent
pub mod Threads
mod Tests
use Prim.Native.String.{◌++◌ as join_texts}
use azkaban_private.Prelude.{
  ℕ, zero, suc, ◌-◌, ◌==◌, if◌then◌else◌, Bool, false, Option, none, some, List, [], ◌∷◌, ◌++◌,
  String, str_eq, lookup, insert, ◌>>=◌,
}

-- A node of the layout: one of the flow, by its id, or a dummy, by the order in which they are made.
pub data Spot : Type 0 where
  real : String → Spot
  dummy : ℕ → Spot

abbrev pub same_spot : Spot → Spot → Bool
same_spot (real a) (real b) = str_eq a b
same_spot (dummy m) (dummy n) = m == n
same_spot _ _ = false

-- The arrays of the nodes, the level of each dummy, the layers that there are and the dummies' number.
pub record Drawing : Type 0 where
  pub ins : Spot → List Spot
  pub outs : Spot → List Spot
  pub dummy_level : ℕ → ℕ
  pub layers : ℕ → Option (List Spot)
  pub made : ℕ

-- `s.array.push(x)`
abbrev pub push_at : Spot → Spot → (Spot → List Spot) → Spot → List Spot
push_at s x array t = if same_spot s t then array t ++ x ∷ [] else array t

-- `b.in.push(a)` and `a.out.push(b)`
abbrev pub attach : Spot → Spot → Drawing → Drawing
attach a b d = record d { ins = push_at b a d.ins; outs = push_at a b d.outs }

-- A new dummy at the level `j`, which has this layer.
abbrev pub new_dummy : ℕ → List Spot → Drawing → Drawing
new_dummy j layer d = record d {
  dummy_level = λ n. if n == d.made then j else d.dummy_level n;
  layers = λ l. if l == j then some (layer ++ dummy d.made ∷ []) else d.layers l;
  made = suc d.made;
}

-- The inner loop for so many levels from `j` on, which gives the last node and the guides; `none` is
-- the TypeError for a layer that is missing.
unfoldable pub chain : ℕ → ℕ → Spot → Drawing → Option (Spot × (List Spot × Drawing))
chain zero j last d = some (last, ([], d))
chain (suc n) j last d = elim (d.layers j) [
  | none ↦ none
  | some layer ↦
      let next = dummy d.made in
      chain n (suc j) next (attach last next (new_dummy j layer d)) >>= λ r.
      some (r.0, (next ∷ r.1.0, r.1.1))
]

-- `nodeMap` gives the level of the node with an id.
module _ (node_map : String → Option ℕ) where
  -- The body of the loop over the edges; `none` is the TypeError for an id that is missing.
  unfoldable pub add_edge : String → String → Drawing → Option (List Spot × Drawing)
  add_edge src dest d = node_map src >>= λ s. node_map dest >>= λ e.
      chain (e - suc s) (suc s) (real src) d >>= λ r. some (r.1.0, attach r.0 (real dest) r.1.1)

  -- The loop, with the guides of each edge in the order of the edges.
  unfoldable pub add_edges : List (String × String) → Drawing → Option (List (List Spot) × Drawing)
  add_edges [] d = some ([], d)
  add_edges (edge ∷ edges) d =
      add_edge edge.0 edge.1 d >>= λ r. add_edges edges r.1 >>= λ q. some (r.0 ∷ q.0, q.1)

-- `edgeDummies`
abbrev pub edge_dummies :
    List (String × String)
    → List (List Spot)
    → List (String × List Spot)
    → List (String × List Spot)
edge_dummies (edge ∷ edges) (guides ∷ all) dummies =
    edge_dummies edges all (insert (join_texts edge.0 (join_texts ">>" edge.1)) guides dummies)
edge_dummies _ _ dummies = dummies
