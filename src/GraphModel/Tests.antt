-- ===== src/GraphModel/Tests.antt =====
-- Runs of `processFlowData` and the theorems about it at concrete flows.
use azkaban_private.Prelude.{
  ◌==◌, ◌≡◌, refl, if◌then◌else◌, true, none, [], ◌∷◌, arith, String, lookup, insert, ◌⊎◌, eq_iff,
}
use azkaban_private.Flow.{Ref, Heap, fresh}
use azkaban_private.GraphModel.{
  Outcome, done, type_error, index_nodes, link, link_deps, link_nodes, adopt, process_flow_data,
  deps_of,
}
use azkaban_private.GraphModel.Linking.{ins, contains, contains_ref, edges_into}
use azkaban_private.GraphModel.Mirror.{Mirrored}
use azkaban_private.GraphModel.Process.{IsFlat}
use azkaban_private.GraphModel.Correct.{
  IsMissing, process-in_nodes, process_cases, process-Mirrored,
}

-- A flow with the jobs `a`, `b` and `c`, where `c` runs after both others and `b` after `a`.
abbrev diamond : Heap
diamond r =
    if r == 0
    then fresh "flow" "flow" [] (1 ∷ 2 ∷ 3 ∷ [])
    else if r == 1
    then fresh "a" "command" [] []
    else if r == 2
    then fresh "b" "command" ("a" ∷ []) []
    else fresh "c" "command" ("a" ∷ "b" ∷ []) []

abbrev outcome_heap : Outcome → Heap
outcome_heap (done h) = h
outcome_heap o = diamond

abbrev linked : Heap
linked = outcome_heap (process_flow_data 1 0 diamond)

linked-done : process_flow_data 1 0 diamond ≡ done linked
unfolding process_flow_data index_nodes link_nodes link_deps link adopt lookup insert
linked-done = refl

diamond-IsFlat : IsFlat diamond 0
diamond-IsFlat = (refl, (refl, (refl, tt)))

process-in_nodes_example :
    ((b : Ref) (k : String)
      → contains_ref b (1 ∷ 2 ∷ 3 ∷ []) ≡ true
      → ins diamond b ≡ []
      → lookup k (ins linked b)
        ≡ (if contains k (deps_of (diamond b).deps) then lookup k (linked 0).node_map else none))
    × ((linked 0).edges ≡ edges_into diamond (1 ∷ 2 ∷ 3 ∷ []))
process-in_nodes_example = process-in_nodes 0 0 diamond linked diamond-IsFlat linked-done

distinct :
    (a b : Ref)
    → contains_ref a (1 ∷ 2 ∷ 3 ∷ []) ≡ true
    → contains_ref b (1 ∷ 2 ∷ 3 ∷ []) ≡ true
    → (diamond a).id ≡ (diamond b).id
    → a ≡ b
distinct a b ma mb e = ground (
  arith,
  eq_iff "a" "b",
  eq_iff "a" "c",
  eq_iff "b" "c",
  eq_iff "b" "a",
  eq_iff "c" "a",
  eq_iff "c" "b",
)

process-Mirrored_example : Mirrored (λ r. contains_ref r (1 ∷ 2 ∷ 3 ∷ []) ≡ true) linked
process-Mirrored_example =
    process-Mirrored 0 0 diamond linked diamond-IsFlat distinct (λ r m. ground arith) linked-done

process_cases_example :
    (process_flow_data 1 0 diamond ≡ type_error) × IsMissing diamond 0
    ⊎ ((t : Heap) × (process_flow_data 1 0 diamond ≡ done t)) × ¬ IsMissing diamond 0
process_cases_example = process_cases 0 0 diamond diamond-IsFlat
