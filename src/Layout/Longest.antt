-- ===== src/Layout/Longest.antt =====
-- The levels that the loop leaves, against the lengths of paths from a start.
use azkaban_private.Prelude.{
  ℕ, zero, suc, ◌<◌, ◌≤◌, ◌≡◌, ◌≢◌, refl, sym, ◌∙◌, ap, subst, true, leb, none, some, List, [], ◌∷◌,
  max, arith, All, ◌⊎◌, inl, inr, Bool-cases, Option-cases,
}
use mathlib.Core.List.{append-nil}
use azkaban_private.Flow.{Ref, Links, Heap, Level, undefined, nan, num, links_of}
use azkaban_private.GraphModel.Linking.{contains_ref}
use azkaban_private.Layout.{
  max_level, next_level, max_over, level_from, start_queue, targets, level_loop,
}
use azkaban_private.Layout.Loop.{levels, Settled, level_loop_ends, level_loop-Settled}
use azkaban_private.Layout.Correct.{
  IsFlowGraph, All-contains, level-num, known_below, start-Fits, is_Apart, start-Waiting,
}

-- A path of `n` links from a node without `inNodes`.
pub data Walk (h : Heap) : Ref → ℕ → Type 0 where
  start : (x : Ref) → (h x).in_nodes ≡ none → Walk h x 0
  step :
      (r x : Ref) (n : ℕ)
      → contains_ref r (targets (links_of (h x).in_nodes)) ≡ true
      → Walk h r n
      → Walk h x (suc n)

max_cases : (a i m : ℕ) → max a i ≡ m → (a ≡ m) ⊎ (i ≡ m)
max_cases a i m e = elim (Bool-cases (leb a i)) [
  | inl le ↦ inr (ground arith)
  | inr gt ↦ inl (ground arith)
]

-- The maximum is the start value or the level of some parent.
max_over-attained :
    (level : Ref → Level) (a m : ℕ) (l : Links)
    → All (λ r. (i : ℕ) × (level r ≡ num i)) (targets l)
    → max_over level (num a) l ≡ num m
    → (a ≡ m) ⊎ ((r : Ref) × (contains_ref r (targets l) ≡ true) × (level r ≡ num m))
max_over-attained level a m [] known e = inl (ground arith)
max_over-attained level a m (e ∷ l) ((i, level_i), known) top =
    let top' = subst (λ k. max_over level (max_level (num a) k) l ≡ num m) level_i top in
    elim (max_over-attained level (max a i) m l known top') [
      | inl same ↦ elim (max_cases a i m same) [
        | inl first ↦ inl first
        | inr here ↦ inr (e.1, ground arith, level_i ∙ ap num here)
      ]
      | inr (r, there, own) ↦ inr (r, ground arith, own)
    ]

-- So a node with parents has a parent whose level is one less.
attained :
    (level : Ref → Level) (l : Links) (n : ℕ)
    → l ≢ []
    → All (λ r. (i : ℕ) × (level r ≡ num i)) (targets l)
    → level_from level (some l) ≡ num n
    → (r : Ref) × (m : ℕ) × (n ≡ suc m) × (contains_ref r (targets l) ≡ true) × (level r ≡ num m)
unfolding level_from
attained level [] n some_link known e = absurd (some_link refl)
attained level (e ∷ l) n some_link ((i, level_i), known) top =
    let first =
      subst (λ k. next_level (max_over level (max_level (num 0) k) l) ≡ num n) level_i top in
    let (m, greatest) = next_of (max_over level (num (max 0 i)) l) n first in
    elim (max_over-attained level (max 0 i) m l known greatest.0) [
      | inl same ↦ (e.1, m, greatest.1, ground arith, level_i ∙ ap num (omega arith))
      | inr (r, there, own) ↦ (r, m, greatest.1, ground arith, own)
    ]
  where
    next_of : (k : Level) (j : ℕ) → next_level k ≡ num j → (m : ℕ) × ((k ≡ num m) × (j ≡ suc m))
    next_of undefined j h = cc
    next_of nan j h = cc
    next_of (num m) j h = (m, (refl, ground arith))

num-inj : {a b : ℕ} → num a ≡ num b → a ≡ b
num-inj e = cc

module _ (h : Heap) (ns : List Ref) (up down : Ref → ℕ) (g : IsFlowGraph h ns up down) (h' : Heap)
    (settled : (x : Ref)
      → contains_ref x ns ≡ true
      → Settled (λ r. (h r).in_nodes) (λ r. (h r).out_nodes) h' x) where
  known_parents :
      (x : Ref)
      → contains_ref x ns ≡ true
      → All (λ r. (i : ℕ) × (levels h' r ≡ num i)) (targets (links_of (h x).in_nodes))
  known_parents x c = each (targets (links_of (h x).in_nodes)) (g.closed x c)
    where
      each :
          (rs : List Ref)
          → All (λ r. contains_ref r ns ≡ true) rs
          → All (λ r. (i : ℕ) × (levels h' r ≡ num i)) rs
      each [] a = tt
      each (r ∷ rs) a =
          (known_below h ns up down g h' settled (suc (up r)) r a.0 (omega arith), each rs a.1)

  -- No path is longer than the level.
  Walk-le :
      {x : Ref} {m : ℕ}
      → Walk h x m
      → (n : ℕ) → contains_ref x ns ≡ true
      → levels h' x ≡ num n
      → m ≤ n
  Walk-le (start x root) n c e = omega arith
  Walk-le (step r x m there w) n c e =
      let (n', own, _, below) = level-num h ns up down g h' x (settled x c) (known_parents x c) in
      let parents = targets (links_of (h x).in_nodes) in
      let same : n' ≡ n = num-inj (sym own ∙ e) in
      let inside : contains_ref r ns ≡ true =
        All-contains (λ y. contains_ref y ns ≡ true) parents r (g.closed x c) there in
      let (i, level_r, lower) =
        All-contains (λ y. (i : ℕ) × (levels h' y ≡ num i) × (i < n')) parents r below there in
      omega (arith, Walk-le w i inside level_r)

  -- Some path is as long as the level.
  Walk-level :
      (k : ℕ) (x : Ref) (n : ℕ)
      → contains_ref x ns ≡ true
      → up x < k
      → levels h' x ≡ num n
      → Walk h x n
  unfolding level_from
  Walk-level zero x n c low e = absurd (omega arith)
  Walk-level (suc k) x n c low e =
      let (n', own, due_n, _) = level-num h ns up down g h' x (settled x c) (known_parents x c) in
      let same : n' ≡ n = num-inj (sym own ∙ e) in
      elim (Option-cases (h x).in_nodes) [
        | inl root ↦
            let zero_level : num 0 ≡ num n' = sym (level_none root) ∙ due_n in
            subst (Walk h x) (num-inj zero_level ∙ same) (start x root)
        | inr (l, some_l) ↦
            let linked_l = λ (q : l ≡ []). g.linked x (some_l ∙ ap some q) in
            let known =
              subst (λ o. All (λ r. (i : ℕ) × (levels h' r ≡ num i)) (targets (links_of o))) some_l
                (known_parents x c) in
            let (r, m, one_more, there, level_r) =
              attained (levels h') l n' linked_l known
                (subst (λ o. level_from (levels h') o ≡ num n') some_l due_n) in
            let there' : contains_ref r (targets (links_of (h x).in_nodes)) ≡ true =
              subst (λ o. contains_ref r (targets (links_of o)) ≡ true) (sym some_l) there in
            let inside : contains_ref r ns ≡ true =
              All-contains (λ y. contains_ref y ns ≡ true) _ r (g.closed x c) there' in
            let lower : up r < up x = All-contains (λ y. up y < up x) _ r (g.rises x) there' in
            subst (Walk h x) (sym one_more ∙ same)
              (step r x m there' (Walk-level k r m inside (omega arith) level_r))
      ]
    where
      level_none : (h x).in_nodes ≡ none → level_from (levels h') (h x).in_nodes ≡ num 0
      level_none root = rw (root, level_from)

raise :
    (f : Ref → ℕ) (m n : ℕ) (rs : List Ref)
    → m ≤ n
    → All (λ x. f x < suc m) rs
    → All (λ x. f x < suc n) rs
raise f m n [] le a = tt
raise f m n (r ∷ rs) le a = (omega (arith, a.0), raise f m n rs le a.1)

bound : (f : Ref → ℕ) (rs : List Ref) → (n : ℕ) × All (λ x. f x < suc n) rs
bound f [] = (0, tt)
bound f (r ∷ rs) =
    let (n, low) = bound f rs in
    (max (f r) n, (omega arith, raise f n (max (f r) n) rs (omega arith) low))

-- Over a graph of a flow that is linked both ways, has no cycle and no levels yet, the loop ends;
-- and then the level of each node of the flow is the length of the longest path that leads to it
-- from a node without parents.
pub level_loop_longest :
    (h : Heap) (ns : List Ref) (up down : Ref → ℕ)
    → IsFlowGraph h ns up down
    → (fuel : ℕ) × (h' : Heap) × (level_loop fuel (start_queue h ns) h ≡ some h')
      × ((x : Ref)
          → contains_ref x ns ≡ true
          → (n : ℕ) × (levels h' x ≡ num n) × Walk h x n × ((m : ℕ) → Walk h x m → m ≤ n))
level_loop_longest h ns up down g =
    let I = λ (r : Ref). (h r).in_nodes in
    let O = λ (r : Ref). (h r).out_nodes in
    let (n, below) = bound down (start_queue h ns) in
    let (fuel, h', ran) =
      level_loop_ends I O down g.falls n (start_queue h ns) [] h (start-Fits h ns up down g) below
        tt in
    let e = subst (λ q. level_loop fuel q h ≡ some h') (append-nil (start_queue h ns)) ran in
    (
      fuel,
      h',
      e,
      λ x c.
          let settled = λ (y : Ref) (d : contains_ref y ns ≡ true).
            level_loop-Settled I O fuel (start_queue h ns) h h' (start-Fits h ns up down g)
              g.mirrored (is_Apart h ns up down g) e y (start-Waiting h ns up down g y d) in
          let (n, own) = known_below h ns up down g h' settled (suc (up x)) x c (omega arith) in
          (
            n,
            own,
            Walk-level h ns up down g h' settled (suc (up x)) x n c (omega arith) own,
            λ m w. Walk-le h ns up down g h' settled w n c own,
          ),
    )
