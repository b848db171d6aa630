-- ===== src/GraphModel.antt =====
-- model/svg-graph.js: `processFlowData` links the nodes of a flow and of its embedded flows.
pub mod Linking
pub mod Mirror
pub mod Process
pub mod Correct
mod Tests
use azkaban_private.Prelude.{
  ℕ, zero, suc, ◌==◌, ◌≡◌, refl, if◌then◌else◌, Bool, false, true, Option, none, some, List, [],
  ◌∷◌, ◌++◌, arith, String, str_eq, lookup, insert, ◌>>=◌,
}
use azkaban_private.Status
use azkaban_private.Status.{Status}
use azkaban_private.Flow.{Ref, Links, Edge, Node, Heap, modify, is_flow, links_of, fresh}

-- What a run gives: the store, a TypeError, or too little fuel for the nesting of the flows.
pub data Outcome : Type 0 where
  done : Heap → Outcome
  type_error out_of_fuel : Outcome

-- `if (!node.status) node.status = "READY"`
abbrev pub ready_by_default : Node → Node
ready_by_default n = elim n.status [ none ↦ record n { status = some Status.ready } | some s ↦ n ]

-- The first loop: the node map, and the default status.
unfoldable pub index_nodes : List Ref → Heap → Links → Heap × Links
index_nodes [] h m = (h, m)
index_nodes (r ∷ rs) h m = index_nodes rs (modify h r ready_by_default) (insert (h r).id r m)

-- The body of the inner loop, for the node at `n` and the node at `f` that it depends on.
unfoldable pub link : Ref → Ref → Heap → Heap
link n f h =
    let h' =
      modify h f λ x. record x { out_nodes = some (insert (h n).id n (links_of x.out_nodes)) } in
    modify h' n λ x. record x { in_nodes = some (insert (h f).id f (links_of x.in_nodes)) }

-- The inner loop, over `node.in`. An id that no node has is `undefined`, whose `outNodes` throws.
unfoldable pub link_deps : Links → Ref → List String → Heap → List Edge → Option (Heap × List Edge)
link_deps m n [] h es = some (h, es)
link_deps m n (d ∷ ds) h es = elim (lookup d m) [
  | none ↦ none
  | some f ↦ link_deps m n ds (link n f h) (es ++ record { from = (h f).id; to = (h n).id } ∷ [])
]

abbrev pub deps_of : Option (List String) → List String
deps_of none = []
deps_of (some ds) = ds

-- The second loop.
unfoldable pub link_nodes : Links → List Ref → Heap → List Edge → Option (Heap × List Edge)
link_nodes m [] h es = some (h, es)
link_nodes m (n ∷ ns) h es = elim (link_deps m n (deps_of (h n).deps) h es) [
  | none ↦ none
  | some (h', es') ↦ link_nodes m ns h' es'
]

abbrev pub and_then : Outcome → (Heap → Outcome) → Outcome
and_then (done h) k = k h
and_then type_error k = type_error
and_then out_of_fuel k = out_of_fuel

-- The third loop: each node gets its parent, and embedded flows are processed in turn.
unfoldable pub adopt : (Ref → Heap → Outcome) → Ref → Links → Heap → Outcome
adopt process d [] h = done h
adopt process d ((k, r) ∷ m) h =
    let h' = modify h r (λ x. record x { parent = some d }) in
    and_then (if is_flow (h' r) then process r h' else done h') (adopt process d m)

-- The whole function, for the flow at `d`. The fuel bounds the depth of the embedded flows.
unfoldable pub process_flow_data : ℕ → Ref → Heap → Outcome
process_flow_data zero d h = out_of_fuel
process_flow_data (suc fuel) d h =
    let (h', m) = index_nodes (h d).nodes h [] in
    elim (link_nodes m (h' d).nodes h' []) [
      | none ↦ type_error
      | some (h'', es) ↦
          and_then (adopt (process_flow_data fuel) d m h'')
            (λ t. done (modify t d (λ x. record x { node_map = m; edges = es })))
    ]
