-- ===== src/Disable/Ancestors.antt =====
-- The menus that set the flag of a node's ancestors or descendents, and the dialog that executes a
-- single job.
use azkaban_private.Prelude.{
  ℕ, ◌<◌, ◌≡◌, refl, sym, ◌∙◌, ap, subst, if◌then◌else◌, Bool, false, true, none, some, List, [],
  ◌∷◌, arith, String, lookup, ◌⊎◌, ◌&&◌, inl, inr, Option-cases, ◌↔◌,
}
use mathlib.Core.Path.{fun_ext}
use mathlib.Core.Logic.{⊎_elim}
use azkaban_private.Flow.{Ref, Links, Heap, is_flow, links_of}
use azkaban_private.GraphModel.Linking.{contains_ref}
use azkaban_private.Disable.{
  with_disabled, set_disabled, recurse_tree, disable_all, touch_node, recurse_all_ancestors,
  recurse_all_descendents, shown, type_error, shown_or, show_execute_job,
}
use azkaban_private.Disable.Sweep.{Above, IsRanked, Touched, sweep-Touched}

-- The links of the nodes of a store.
abbrev pub parents : Heap → Ref → Links
parents h r = links_of (h r).in_nodes

abbrev pub children : Heap → Ref → Links
children h r = links_of (h r).out_nodes

-- Where `inNodes` has no cycle, and the depth of calls exceeds the rank of the node, the recursion
-- over the ancestors of a node returns. It has set the flag of exactly the nodes that are reached
-- by one or more steps to a parent, and every other node is as before.
pub recurse_all_ancestors_lem :
    (h : Heap) (r : Ref) (d : Bool) (rank : Ref → ℕ) (fuel : ℕ)
    → IsRanked rank (parents h)
    → rank r < fuel
    → (h' : Heap) × (recurse_all_ancestors fuel r d h ≡ some h')
      × Touched d (Above (parents h) r) h h'
unfolding recurse_all_ancestors
recurse_all_ancestors_lem h r d rank fuel ranked low =
    sweep-Touched (λ n. n.in_nodes) (λ n e. refl) d (parents h) rank ranked fuel r h low (λ x. refl)

-- The same for the descendents, along `outNodes`: with enough depth, where there is no cycle, the
-- recursion returns, and has set the flag of exactly the nodes below the given one.
pub recurse_all_descendents_lem :
    (h : Heap) (r : Ref) (d : Bool) (rank : Ref → ℕ) (fuel : ℕ)
    → IsRanked rank (children h)
    → rank r < fuel
    → (h' : Heap) × (recurse_all_descendents fuel r d h ≡ some h')
      × Touched d (Above (children h) r) h h'
unfolding recurse_all_descendents
recurse_all_descendents_lem h r d rank fuel ranked low =
    sweep-Touched (λ n. n.out_nodes) (λ n e. refl) d (children h) rank ranked fuel r h low
      (λ x. refl)

and_false : (b : Bool) → (b && false) ≡ false
and_false true = refl
and_false false = refl

-- Without the inner recursion, the tree walk sets the flag of the nodes of one list.
pub recurse_tree-flat :
    (d : Bool) (rs : List Ref) (h : Heap) (x : Ref)
    → recurse_tree d false rs h x ≡ (if contains_ref x rs then with_disabled d (h x) else h x)
unfolding recurse_tree
recurse_tree-flat d [] h x = refl
recurse_tree-flat d (r ∷ rs) h x =
    rw (and_false (is_flow (set_disabled h r d r)))
      (ground (arith, recurse_tree-flat d rs (set_disabled h r d) x))

module _ (h : Heap) (d : Ref) (r : Ref) where
  -- The store when the recursion over the ancestors starts.
  abbrev only_job : Heap
  only_job = touch_node r false (disable_all d h)

  parents-only_job : parents only_job ≡ parents h
  unfolding disable_all
  parents-only_job = fun_ext λ x. ground (arith, recurse_tree-flat true (h d).nodes h x)

  only_job_lem :
      (x : Ref) → contains_ref x (h d).nodes ≡ true → ((only_job x).disabled ≡ false) ↔ (x ≡ r)
  unfolding disable_all
  only_job_lem x member = ground (arith, recurse_tree-flat true (h d).nodes h x)

-- "Execute job": where `inNodes` has no cycle, and the depth of calls exceeds the rank of the job,
-- the dialog opens, and of the nodes of the flow exactly the job itself and, if its dependencies
-- are asked for, its ancestors are enabled. It throws if the flow's map has no such job.
pub show_execute_job_lem :
    (h : Heap) (d : Ref) (job_id : String) (with_dep : Bool) (rank : Ref → ℕ) (fuel : ℕ)
    → IsRanked rank (parents h)
    → ((r : Ref) → rank r < fuel)
    → (lookup job_id (h d).node_map ≡ none)
        × (show_execute_job fuel d job_id with_dep h ≡ type_error)
      ⊎ ((r : Ref) × (h' : Heap) × (lookup job_id (h d).node_map ≡ some r)
          × (show_execute_job fuel d job_id with_dep h ≡ shown h')
          × ((x : Ref)
              → contains_ref x (h d).nodes ≡ true
              → ((h' x).disabled ≡ false) ↔ ((x ≡ r) ⊎ (with_dep ≡ true) × Above (parents h) r x)))
unfolding show_execute_job
show_execute_job_lem h d job_id with_dep rank fuel ranked low =
    elim (Option-cases (lookup job_id (h d).node_map)) [
      | inl e ↦ inl (e, rw (e, show_execute_job))
      | inr (r, e) ↦
          let (h', ran, flags) = found with_dep r in
          inr (r, h', e, rw (e, show_execute_job) ran, flags)
    ]
  where
    found :
        (dep : Bool) (r : Ref)
        → (h' : Heap) × ((if dep
              then shown_or (recurse_all_ancestors fuel r false (only_job h d r))
              else shown (only_job h d r))
            ≡ shown h')
          × ((x : Ref)
              → contains_ref x (h d).nodes ≡ true
              → ((h' x).disabled ≡ false) ↔ ((x ≡ r) ⊎ (dep ≡ true) × Above (parents h) r x))
    found false r = (only_job h d r, refl, λ x m. ground (arith, only_job_lem h d r x m))
    found true r =
        let same = parents-only_job h d r in
        let (h', ran, touched) =
          recurse_all_ancestors_lem (only_job h d r) r false rank fuel
            (subst (IsRanked rank) (sym same) ranked) (low r) in
        let touched' = subst (λ g. Touched false (Above g r) (only_job h d r) h') same touched in
        (
          h',
          rw ran,
          λ x m. elim (touched' x) [
            | inl (a, e) ↦ (λ _. inr (refl, a), λ _. ap (λ n. n.disabled) e)
            | inr (na, e) ↦ (
              λ off. inl ((only_job_lem h d r x m).0 (sym (ap (λ n. n.disabled) e) ∙ off)),
              ⊎_elim (λ q. ap (λ n. n.disabled) e ∙ (only_job_lem h d r x m).1 q)
                  (λ q. absurd (na q.1)),
            )
          ],
        )
