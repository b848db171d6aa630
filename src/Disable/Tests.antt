-- ===== src/Disable/Tests.antt =====
-- Runs of the dialog's functions, and the theorems about them at concrete flows.
use azkaban_private.Prelude.{
  ℕ, zero, suc, ◌<◌, ◌≡◌, refl, ap, Bool, false, true, none, some, List, [], ◌∷◌, arith, String,
  lookup, ◌⊎◌, ◌↔◌, Memᴰ,
}
use mathlib.Core.List.Memᴰ
use azkaban_private.Flow.{Ref, Links, Node, Heap, fresh}
use azkaban_private.GraphModel.Linking.{contains_ref}
use azkaban_private.Disable.{
  Entries, job, flow, nil, cons, gather_disabled_nodes, gather_list, gather_node,
  recurse_all_ancestors, shown, type_error, show_execute_job,
}
use azkaban_private.Disable.Sweep.{Above, near, IsRanked, Touched}
use azkaban_private.Disable.Cycle.{recurse_all_ancestors-cycle}
use azkaban_private.Disable.Ancestors.{
  parents, children, recurse_all_ancestors_lem, show_execute_job_lem,
}
use azkaban_private.Disable.Gather.{Lists, IsOff, IsNested, gather_disabled_nodes_lem}
use azkaban_private.Disable.Menu.{
  ancestors, child_nodes, all, session, OnlyFlags, session-OnlyFlags,
}

abbrev linked_node : String → Links → Links → Node
linked_node i ins outs = record (fresh i "command" [] []) {
  in_nodes = some ins;
  out_nodes = some outs;
}

-- `a`, then `b`, then `c`.
abbrev chain : Heap
chain zero = record (fresh "flow" "flow" [] (1 ∷ 2 ∷ 3 ∷ [])) {
  node_map = ("a", 1) ∷ ("b", 2) ∷ ("c", 3) ∷ [];
}
chain (suc zero) = linked_node "a" [] (("b", 2) ∷ [])
chain (suc (suc zero)) = linked_node "b" (("a", 1) ∷ []) (("c", 3) ∷ [])
chain (suc (suc (suc zero))) = linked_node "c" (("b", 2) ∷ []) []
chain (suc (suc (suc (suc r)))) = linked_node "z" [] []

abbrev up : Ref → ℕ
up (suc (suc zero)) = 1
up (suc (suc (suc zero))) = 2
up _ = 0

abbrev down : Ref → ℕ
down (suc zero) = 2
down (suc (suc zero)) = 1
down _ = 0

only : {k j : String} {x y : Ref} → Memᴰ {A = String × Ref} (k, x) ((j, y) ∷ []) → x ≡ y
only m = ap (λ p. p.1) (Memᴰ.eq_of_singleton m)

up-IsRanked : IsRanked up (parents chain)
up-IsRanked zero k x m = absurd (Memᴰ.not-nil m)
up-IsRanked (suc zero) k x m = absurd (Memᴰ.not-nil m)
up-IsRanked (suc (suc zero)) k x m = let e : x ≡ 1 = only m in rw e (omega arith)
up-IsRanked (suc (suc (suc zero))) k x m = let e : x ≡ 2 = only m in rw e (omega arith)
up-IsRanked (suc (suc (suc (suc r)))) k x m = absurd (Memᴰ.not-nil m)

down-IsRanked : IsRanked down (children chain)
down-IsRanked zero k x m = absurd (Memᴰ.not-nil m)
down-IsRanked (suc zero) k x m = let e : x ≡ 2 = only m in rw e (omega arith)
down-IsRanked (suc (suc zero)) k x m = let e : x ≡ 3 = only m in rw e (omega arith)
down-IsRanked (suc (suc (suc zero))) k x m = absurd (Memᴰ.not-nil m)
down-IsRanked (suc (suc (suc (suc r)))) k x m = absurd (Memᴰ.not-nil m)

up_high : (r : Ref) → (up r < 3) × (down r < 3)
up_high zero = omega arith
up_high (suc zero) = omega arith
up_high (suc (suc zero)) = omega arith
up_high (suc (suc (suc zero))) = omega arith
up_high (suc (suc (suc (suc r)))) = omega arith

recurse_all_ancestors_lem_example :
    (h' : Heap) × (recurse_all_ancestors 3 3 true chain ≡ some h')
    × Touched true (Above (parents chain) 3) chain h'
recurse_all_ancestors_lem_example =
    recurse_all_ancestors_lem chain 3 true up 3 up-IsRanked (omega arith)

show_execute_job_lem_example :
    (lookup "b" (chain 0).node_map ≡ none) × (show_execute_job 3 0 "b" true chain ≡ type_error)
    ⊎ ((r : Ref) × (h' : Heap) × (lookup "b" (chain 0).node_map ≡ some r)
        × (show_execute_job 3 0 "b" true chain ≡ shown h')
        × ((x : Ref)
            → contains_ref x (chain 0).nodes ≡ true
            → ((h' x).disabled ≡ false)
              ↔ ((x ≡ r) ⊎ (◌≡◌ {A = Bool} true true) × Above (parents chain) r x)))
show_execute_job_lem_example =
    show_execute_job_lem chain 0 "b" true up 3 up-IsRanked (λ r. (up_high r).0)

session-OnlyFlags_example :
    (h' : Heap) × (session 3 0
        ((3, ancestors true) ∷ (1, child_nodes false) ∷ (1, all true) ∷ [])
        chain
      ≡ some h')
    × OnlyFlags chain h'
session-OnlyFlags_example =
    session-OnlyFlags up down 3 up_high 0
      ((3, ancestors true) ∷ (1, child_nodes false) ∷ (1, all true) ∷ []) chain up-IsRanked
      down-IsRanked

-- A node that depends on itself.
abbrev loop : Heap
loop r = linked_node "a" (("a", 1) ∷ []) (("a", 1) ∷ [])

loop-Above : Above (parents loop) 1 1
loop-Above = near 1 "a" 1 (Memᴰ.head refl)

recurse_all_ancestors-cycle_example : recurse_all_ancestors 50 1 true loop ≡ none
recurse_all_ancestors-cycle_example =
    recurse_all_ancestors-cycle loop 1 1 true 50 loop-Above loop-Above

-- A flow with a disabled job, and an embedded flow that holds another.
abbrev nested : Heap
nested zero = fresh "flow" "flow" [] (1 ∷ 2 ∷ [])
nested (suc zero) = record (fresh "a" "command" [] []) { disabled = true }
nested (suc (suc zero)) = fresh "sub" "flow" [] (3 ∷ 4 ∷ [])
nested (suc (suc (suc zero))) = record (fresh "b" "command" [] []) { disabled = true }
nested (suc (suc (suc (suc r)))) = fresh "c" "command" [] []

abbrev depth : Ref → ℕ
depth zero = 2
depth (suc (suc zero)) = 1
depth _ = 0

nested-IsNested : IsNested depth nested
nested-IsNested zero = omega arith
nested-IsNested (suc zero) = tt
nested-IsNested (suc (suc zero)) = omega arith
nested-IsNested (suc (suc (suc zero))) = tt
nested-IsNested (suc (suc (suc (suc r)))) = tt

gather_disabled_nodes_lem_example :
    (es : Entries) × (gather_disabled_nodes 3 nested (1 ∷ 2 ∷ []) ≡ some es)
    × ((p : List String) → Lists es p ↔ IsOff nested (1 ∷ 2 ∷ []) p)
gather_disabled_nodes_lem_example =
    gather_disabled_nodes_lem depth nested 2 (1 ∷ 2 ∷ []) nested-IsNested (omega arith)

gather-nested :
    gather_disabled_nodes 3 nested (1 ∷ 2 ∷ [])
    ≡ some (cons (job "a") (cons (flow "sub" (cons (job "b") nil)) nil))
unfolding gather_disabled_nodes gather_list gather_node
gather-nested = refl
