-- ===== src/Disable/Finished.antt =====
-- The nodes that disableFinishedJobs comes to, and what it does there.
use mathlib.Core.List.Memᴰ
use azkaban_private.Prelude.{
  ℕ, zero, suc, ◌<◌, ◌==◌, ◌≡◌, refl, sym, ap, subst, ◌∙◌, ◌⊎◌, ◌↔◌, inl, inr, if◌then◌else◌, Bool,
  true, false, ◌||◌, Option, some, List, [], ◌∷◌, ◌++◌, Memᴰ, arith, Bool-cases, ◌>>=◌,
}
use azkaban_private.Status.{Status}
use azkaban_private.Flow.{Ref, Node, Heap, modify}
use azkaban_private.Disable.{
  has_status, finish, goes_on, for_nodes, disable_finished_node, disable_finished_jobs,
}

Mem-append : (x : Ref) (a b : List Ref) → Memᴰ x (a ++ b) ↔ (Memᴰ x a ⊎ Memᴰ x b)
Mem-append x [] b = (λ m. inr m, λ d. elim d [ inl m ↦ absurd (Memᴰ.not-nil m) | inr m ↦ m ])
Mem-append x (y ∷ a) b =
    let ih = Mem-append x a b in
    (
      λ m. elim (Memᴰ.cases_cons m) [
        | inl e ↦ inl (Memᴰ.head e)
        | inr n ↦ elim (ih.0 n) [ inl p ↦ inl (Memᴰ.tail p) | inr p ↦ inr p ]
      ],
      λ d. elim d [
        | inl m ↦ elim (Memᴰ.cases_cons m) [
          | inl e ↦ Memᴰ.head e
          | inr n ↦ Memᴰ.tail (ih.1 (inl n))
        ]
        | inr m ↦ Memᴰ.tail (ih.1 (inr m))
      ],
    )

-- No node twice.
abbrev pub IsDistinct : List Ref → Type 0
IsDistinct [] = Unit
IsDistinct (x ∷ xs) = (Memᴰ x xs → ⊥) × IsDistinct xs

IsDistinct-append :
    (a b : List Ref)
    → IsDistinct (a ++ b)
    → IsDistinct a × IsDistinct b × ((x : Ref) → Memᴰ x a → Memᴰ x b → ⊥)
IsDistinct-append [] b d = (tt, d, λ x m n. Memᴰ.not-nil m)
IsDistinct-append (y ∷ a) b (fresh, d) =
    let (of_a, of_b, apart) = IsDistinct-append a b d in
    (
      (λ m. fresh ((Mem-append y a b).1 (inl m)), of_a),
      of_b,
      λ x m n. elim (Memᴰ.cases_cons m) [
        | inl e ↦ fresh ((Mem-append y a b).1 (inr (subst (λ z. Memᴰ z b) e n)))
        | inr later ↦ apart x later n
      ],
    )

finish-nodes : (n : Node) → (finish n).nodes ≡ n.nodes
unfolding finish
finish-nodes n = elim (Bool-cases (has_status n Status.disabled || has_status n Status.skipped)) [
  | inl e ↦ rw e refl
  | inr e ↦ elim (Bool-cases (has_status n Status.succeeded || has_status n Status.running)) [
    | inl e' ↦ rw (e, e') refl
    | inr e' ↦ elim (Bool-cases (has_status n Status.cancelled)) [
      | inl f ↦ rw (e, e', f) refl
      | inr f ↦ rw (e, e', f) refl
    ]
  ]
]

modify-here : (g : Heap) (r : Ref) (f : Node → Node) → modify g r f r ≡ f (g r)
modify-here g r f = elim (Bool-cases (r == r)) [ inl e ↦ rw e refl | inr e ↦ absurd (ground arith) ]

modify-other : (g : Heap) (r x : Ref) (f : Node → Node) → (x ≡ r → ⊥) → modify g r f x ≡ g x
modify-other g r x f apart = elim (Bool-cases (r == x)) [
  | inl e ↦ absurd (apart (ground arith))
  | inr e ↦ rw e refl
]

module _ (h : Heap) where
  -- The nodes that the loop comes to, in their order: those of an embedded flow where it goes on.
  abbrev pub visit_list : (List Ref → List Ref) → List Ref → List Ref
  visit_list visit [] = []
  visit_list visit (r ∷ rs) =
      r ∷ ((if goes_on (h r) then visit (h r).nodes else []) ++ visit_list visit rs)

  abbrev pub visited : ℕ → List Ref → List Ref
  visited zero rs = []
  visited (suc fuel) rs = visit_list (visited fuel) rs

  abbrev Handles : List Ref → Heap → Option Heap → Type 0
  Handles nodes g o =
      (g' : Heap) × (o ≡ some g')
      × ((x : Ref) → Memᴰ x nodes → g' x ≡ finish (h x))
      × ((x : Ref) → (Memᴰ x nodes → ⊥) → g' x ≡ g x)

  abbrev Agrees : List Ref → Heap → Type 0
  Agrees nodes g = (x : Ref) → Memᴰ x nodes → g x ≡ h x

  -- The embedded flow of one node, after the node itself.
  node-Handles :
      (fuel : ℕ) (r : Ref) (g : Heap)
      → ((e : Heap)
          → Agrees (visited fuel (h r).nodes) e
          → goes_on (h r) ≡ true
          → Handles (visited fuel (h r).nodes) e (disable_finished_jobs fuel (h r).nodes e))
      → let below : List Ref = if goes_on (h r) then visited fuel (h r).nodes else [] in
        g r ≡ h r
        → Agrees below (modify g r finish)
        → Handles below (modify g r finish) (disable_finished_node (disable_finished_jobs fuel) r g)
  unfolding disable_finished_node
  node-Handles fuel r g each same agrees =
      subst
        (λ b. Handles (if goes_on (h r) then visited fuel (h r).nodes else []) changed (result b))
        (ap goes_on (sym same)) (of_answer (goes_on (h r)) refl agrees)
    where
      changed : Heap
      changed = modify g r finish

      result : Bool → Option Heap
      result b = if b then disable_finished_jobs fuel (changed r).nodes changed else some changed

      same_nodes : (h r).nodes ≡ (changed r).nodes
      same_nodes =
          ap Node.nodes (sym same)
          ∙ sym (finish-nodes (g r))
          ∙ ap Node.nodes (sym (modify-here g r finish))

      of_answer :
          (b : Bool)
          → goes_on (h r) ≡ b
          → Agrees (if b then visited fuel (h r).nodes else []) changed
          → Handles (if b then visited fuel (h r).nodes else []) changed (result b)
      of_answer true e agrees' =
          subst
            (λ ns.
              Handles (visited fuel (h r).nodes) changed (disable_finished_jobs fuel ns changed))
            same_nodes (each changed agrees' e)
      of_answer false e agrees' = (changed, refl, λ x m. absurd (Memᴰ.not-nil m), λ x n. refl)

  -- The nodes of a flow one after the other.
  nodes-Handles :
      (fuel : ℕ) (rs : List Ref) (g : Heap)
      → ((r : Ref)
          → Memᴰ r rs
          → (e : Heap) → IsDistinct (visited fuel (h r).nodes)
          → Agrees (visited fuel (h r).nodes) e
          → goes_on (h r) ≡ true
          → Handles (visited fuel (h r).nodes) e (disable_finished_jobs fuel (h r).nodes e))
      → IsDistinct (visited (suc fuel) rs)
      → Agrees (visited (suc fuel) rs) g
      → Handles
          (visited (suc fuel) rs)
          g
          (for_nodes (disable_finished_node (disable_finished_jobs fuel)) rs g)
  unfolding for_nodes
  nodes-Handles fuel [] g each distinct agrees =
      (g, refl, λ x m. absurd (Memᴰ.not-nil m), λ x n. refl)
  nodes-Handles fuel (r ∷ rs) g each (fresh, distinct) agrees =
      let below : List Ref = if goes_on (h r) then visited fuel (h r).nodes else [] in
      let later = visited (suc fuel) rs in
      let (of_below, of_later, apart) = IsDistinct-append below later distinct in
      let not_r : (x : Ref) → Memᴰ x (below ++ later) → x ≡ r → ⊥ =
        λ x m e. fresh (subst (λ y. Memᴰ y (below ++ later)) e m) in
      let in_below : (x : Ref) → Memᴰ x below → Memᴰ x (below ++ later) =
        λ x m. (Mem-append x below later).1 (inl m) in
      let in_later : (x : Ref) → Memᴰ x later → Memᴰ x (below ++ later) =
        λ x m. (Mem-append x below later).1 (inr m) in
      let changed = modify g r finish in
      let (g1, ran, did, left) =
        node-Handles fuel r g
          (λ e a on.
            each r (Memᴰ.head refl) e
              (subst (λ b. IsDistinct (if b then visited fuel (h r).nodes else [])) on of_below) a
              on)
          (agrees r (Memᴰ.head refl))
          (λ x m.
            modify-other g r x finish (not_r x (in_below x m))
            ∙ agrees x (Memᴰ.tail (in_below x m))) in
      let (g2, ran', did', left') =
        nodes-Handles fuel rs g1 (λ q m. each q (Memᴰ.tail m)) of_later
          (λ x m.
            left x (λ n. apart x n m)
            ∙ modify-other g r x finish (not_r x (in_later x m))
            ∙ agrees x (Memᴰ.tail (in_later x m))) in
      (
        g2,
        ap (λ o. o >>= for_nodes (disable_finished_node (disable_finished_jobs fuel)) rs) ran
            ∙ ran',
        λ x m. elim (Memᴰ.cases_cons m) [
          | inl e ↦
              left' x (λ n. not_r x (in_later x n) e)
              ∙ left x (λ n. not_r x (in_below x n) e)
              ∙ subst (λ y. modify g r finish y ≡ finish (h y)) (sym e)
                  (modify-here g r finish ∙ ap finish (agrees r (Memᴰ.head refl)))
          | inr n ↦ elim ((Mem-append x below later).0 n) [
            | inl p ↦ left' x (λ q. apart x p q) ∙ did x p
            | inr p ↦ did' x p
          ]
        ],
        λ x n.
            left' x (λ q. n (Memᴰ.tail (in_later x q)))
            ∙ left x (λ p. n (Memᴰ.tail (in_below x p)))
            ∙ modify-other g r x finish (λ e. n (Memᴰ.head e)),
      )

  -- The rank of a node is above those of the nodes that it has.
  abbrev pub IsNested : (Ref → ℕ) → Type 0
  IsNested rank = (d r : Ref) → Memᴰ r (h d).nodes → rank r < rank d

  pub jobs-Handles :
      (rank : Ref → ℕ) (fuel : ℕ) (rs : List Ref) (g : Heap)
      → IsNested rank
      → 0 < fuel
      → ((r : Ref) → Memᴰ r rs → suc (rank r) < fuel)
      → IsDistinct (visited fuel rs)
      → Agrees (visited fuel rs) g
      → Handles (visited fuel rs) g (disable_finished_jobs fuel rs g)
  unfolding disable_finished_jobs
  jobs-Handles rank zero rs g nested some_fuel low distinct agrees = absurd (omega arith)
  jobs-Handles rank (suc fuel) rs g nested some_fuel low distinct agrees =
      nodes-Handles fuel rs g
        (λ r m e d a on.
          jobs-Handles rank fuel (h r).nodes e nested (let l = low r m in omega arith)
            (λ x n. let l = low r m in let deep = nested r x n in omega arith) d a)
        distinct agrees
