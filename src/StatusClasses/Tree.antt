-- ===== src/StatusClasses/Tree.antt =====
-- changeStatuses over a flow and the flows embedded in it.
use azkaban_private.Prelude.{
  ℕ, zero, suc, ◌<◌, ◌≡◌, refl, subst, ◌⊎◌, inl, inr, some, List, [], ◌∷◌, Memᴰ, arith,
}
use mathlib.Core.List.Memᴰ
use azkaban_private.Flow.{Ref, Heap}
use azkaban_private.StatusClasses.{Classes, change_statuses}
use azkaban_private.StatusClasses.Shown.{
  Below, child, deeper, IsRanked, IsReady, Changes, Among, change_list-Changes,
}

module _ (h : Heap) where
  Among-Below :
      (d : Ref) (rs : List Ref) (x : Ref)
      → ((r : Ref) → Memᴰ r rs → Memᴰ r (h d).nodes)
      → Among h rs x
      → Below h d x
  Among-Below d [] x sub a = absurd a
  Among-Below d (r ∷ rs) x sub (inl (inl e)) =
      child (subst (λ y. Memᴰ y (h d).nodes) e (sub r (Memᴰ.head refl)))
  Among-Below d (r ∷ rs) x sub (inl (inr below)) = deeper (sub r (Memᴰ.head refl)) below
  Among-Below d (r ∷ rs) x sub (inr a) = Among-Below d rs x (λ q m. sub q (Memᴰ.tail m)) a

  Among-member : (r x : Ref) (rs : List Ref) → Memᴰ r rs → (r ≡ x) ⊎ Below h r x → Among h rs x
  Among-member r x [] m d = absurd (Memᴰ.not-nil m)
  Among-member r x (q ∷ rs) m d = elim (Memᴰ.cases_cons m) [
    | inl e ↦ inl (subst (λ y. (y ≡ x) ⊎ Below h y x) e d)
    | inr later ↦ inr (Among-member r x rs later d)
  ]

  Below-Among : (d x : Ref) → Below h d x → Among h (h d).nodes x
  Below-Among d x (child m) = Among-member x x (h d).nodes m (inl refl)
  Below-Among d x (deeper {r = r} m below) = Among-member r x (h d).nodes m (inr below)

  -- With fuel above the nesting, where each element shows the status of its node or one of
  -- `statusList`, changeStatuses returns; then the elements of all nodes of the flow, and of the flows
  -- embedded in it at any depth, have the class of the node's status and no other status's, and the
  -- elements of other nodes are as they were.
  pub change_statuses-Changes :
      (rank : Ref → ℕ) (fuel : ℕ) (d : Ref) (elements : Ref → Classes)
      → IsRanked h rank
      → rank d < fuel
      → ((x : Ref) → IsReady h elements x)
      → (after : (Ref → Classes)) × (change_statuses h fuel d elements ≡ some after)
        × Changes h (Below h d) elements after
  unfolding change_statuses
  change_statuses-Changes rank zero d elements ranked low ready = absurd (omega arith)
  change_statuses-Changes rank (suc fuel) d elements ranked low ready =
      let (after, ran, changes) =
        change_list-Changes h fuel (h d).nodes elements
          (λ r m e.
            change_statuses-Changes rank fuel r e ranked (let deep = ranked d r m in omega arith))
          ready in
      (
        after,
        ran,
        record {
          shows = λ x b. changes.shows x (Below-Among d x b);
          keeps = changes.keeps;
          others = λ x n. changes.others x (λ a. n (Among-Below d (h d).nodes x (λ r m. m) a));
          ready = changes.ready;
        },
      )
