-- ===== src/Layout/Dummies/Tests.antt =====
-- Runs of the loop that makes the dummy nodes.
use azkaban_private.Prelude.{
  ℕ, ◌≡◌, refl, ltb, if◌then◌else◌, Option, none, some, List, [], ◌∷◌, String, lookup, insert,
  arith,
}
use azkaban_private.Layout.Dummies.{Spot, dummy, Drawing, chain, add_edge, add_edges, edge_dummies}
use azkaban_private.Layout.Dummies.Adjacent.{IsLayered}
use azkaban_private.Layout.Dummies.Threads.{HasLayers, AllThreads, IsEdge, add_edges_lem}

-- "a" on top, "d" at the bottom, with "b" and "c" between.
abbrev node_map : String → Option ℕ
node_map id = lookup id (("a", 0) ∷ ("b", 1) ∷ ("c", 2) ∷ ("d", 3) ∷ [])

abbrev edges : List (String × String)
edges = ("a", "d") ∷ ("b", "c") ∷ []

abbrev new : Drawing
new = record {
  ins = λ s. [];
  outs = λ s. [];
  dummy_level = λ n. 0;
  layers = λ j. if ltb j 4 then some [] else none;
  made = 0;
}

abbrev guides_of : Option (List (List Spot) × Drawing) → List (List Spot)
guides_of none = []
guides_of (some r) = r.0

two_guides : guides_of (add_edges node_map edges new) ≡ (dummy 0 ∷ dummy 1 ∷ []) ∷ [] ∷ []
unfolding add_edges add_edge chain lookup
two_guides = refl

by_edge :
    edge_dummies edges (guides_of (add_edges node_map edges new)) []
    ≡ ("a>>d", dummy 0 ∷ dummy 1 ∷ []) ∷ ("b>>c", []) ∷ []
unfolding add_edges add_edge chain lookup insert
by_edge = refl

new-HasLayers : HasLayers 3 new
new-HasLayers j low = ([], ground arith)

long-IsEdge : IsEdge node_map 3 ("a", "d")
unfolding lookup
long-IsEdge = record {
  from_level = 0;
  to_level = 3;
  from = refl;
  to = refl;
  down = omega arith;
  low = omega arith;
}

short-IsEdge : IsEdge node_map 3 ("b", "c")
unfolding lookup
short-IsEdge = record {
  from_level = 1;
  to_level = 2;
  from = refl;
  to = refl;
  down = omega arith;
  low = omega arith;
}

add_edges_lem_example :
    (all : List (List Spot)) × (d' : Drawing) × (add_edges node_map edges new ≡ some (all, d'))
    × AllThreads node_map d' 0 edges all
    × IsLayered node_map d'
add_edges_lem_example =
    add_edges_lem node_map 3 edges new (refl, λ s. (refl, refl)) new-HasLayers
      (long-IsEdge, (short-IsEdge, tt))
