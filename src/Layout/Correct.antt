-- ===== src/Layout/Correct.antt =====
-- The levels of `prepareLayout` are the lengths of the longest paths from a start.
use azkaban_private.Prelude.{
  ℕ, zero, suc, ◌+◌, ◌<◌, ◌≤◌, ◌==◌, ◌≡◌, ◌≢◌, refl, sym, ◌∙◌, ap, subst, true, Option, none, some,
  List, [], ◌∷◌, max, arith, All, inl, inr, Bool-cases, Option-cases,
}
use azkaban_private.Flow.{Ref, Links, Heap, Level, undefined, nan, num, links_of}
use azkaban_private.GraphModel.Linking.{contains_ref}
use azkaban_private.Layout.{max_level, next_level, max_over, level_from, start_queue, targets}
use azkaban_private.Layout.Loop.{value, levels, Fits, due, Settled, Apart, Waiting}

pub All-contains :
    (P : Ref → Type 0) (xs : List Ref) (x : Ref) → All P xs → contains_ref x xs ≡ true → P x
All-contains P [] x a c = cc
All-contains P (y ∷ xs) x a c = elim (Bool-cases (y == x)) [
  | inl e ↦ let same : y ≡ x = ground arith in subst P same a.0
  | inr e ↦ All-contains P xs x a.1 (ground arith)
]

value-num : (l : Level) (n : ℕ) → value l ≡ some n → l ≡ num n
value-num undefined n e = cc
value-num nan n e = cc
value-num (num k) n e = cc

-- The greatest of the parents' levels, which are numbers.
abbrev pub AtMost : (Ref → Level) → ℕ → Ref → Type 0
AtMost level m r = (i : ℕ) × (level r ≡ num i) × (i ≤ m)

max_over-num :
    (level : Ref → Level) (a : ℕ) (l : Links)
    → All (λ r. (i : ℕ) × (level r ≡ num i)) (targets l)
    → (m : ℕ) × (max_over level (num a) l ≡ num m) × (a ≤ m) × All (AtMost level m) (targets l)
max_over-num level a [] known = (a, refl, omega arith, tt)
max_over-num level a (e ∷ l) ((i, level_i), known) =
    let (m, top, low, rest) = max_over-num level (max a i) l known in
    (
      m,
      ap (λ k. max_over level (max_level (num a) k) l) level_i ∙ top,
      omega arith,
      ((i, level_i, omega arith), rest),
    )

All-lt :
    (level : Ref → Level) (m : ℕ) (rs : List Ref)
    → All (AtMost level m) rs
    → All (λ r. (i : ℕ) × (level r ≡ num i) × (i < m + 1)) rs
All-lt level m [] a = tt
All-lt level m (r ∷ rs) ((i, e, b), rest) = ((i, e, omega arith), All-lt level m rs rest)

-- Where every level is absent, so is that of a node with parents.
max_over-nan : (level : Ref → Level) (l : Links) → max_over level nan l ≡ nan
max_over-nan level [] = refl
max_over-nan level (e ∷ l) = max_over-nan level l

level_from-unset :
    (level : Ref → Level) (l : Links)
    → ((r : Ref) → level r ≡ undefined)
    → l ≢ []
    → level_from level (some l) ≡ nan
unfolding level_from
level_from-unset level [] unset some_link = absurd (some_link refl)
level_from-unset level (e ∷ l) unset some_link =
    ap (λ k. next_level (max_over level (max_level (num 0) k) l)) (unset e.1)
    ∙ ap next_level (max_over-nan level l)

contains-start_queue :
    (h : Heap) (ns : List Ref) (x : Ref)
    → contains_ref x ns ≡ true
    → (h x).in_nodes ≡ none
    → contains_ref x (start_queue h ns) ≡ true
contains-start_queue h [] x c e = cc
contains-start_queue h (n ∷ ns) x c e = ground (arith, contains-start_queue h ns x)

-- What is known of the graph before the levels are computed: it is linked both ways and within the
-- nodes of the flow, has no cycle, and no level is set yet.
pub record IsFlowGraph (h : Heap) (ns : List Ref) (up down : Ref → ℕ) : Type 0 where
  pub unset : (r : Ref) → levels h r ≡ undefined
  pub linked : (r : Ref) → (h r).in_nodes ≢ some []
  pub closed :
      (r : Ref)
      → contains_ref r ns ≡ true
      → All (λ x. contains_ref x ns ≡ true) (targets (links_of (h r).in_nodes))
  pub rises : (r : Ref) → All (λ x. up x < up r) (targets (links_of (h r).in_nodes))
  pub falls : (r : Ref) → All (λ x. down x < down r) (targets (links_of (h r).out_nodes))
  pub mirrored :
      (u x : Ref)
      → contains_ref u (targets (links_of (h x).in_nodes)) ≡ true
      → contains_ref x (targets (links_of (h u).out_nodes)) ≡ true

module _ (h : Heap) (ns : List Ref) (up down : Ref → ℕ) (g : IsFlowGraph h ns up down) where
  abbrev pub ins : Ref → Option Links
  ins r = (h r).in_nodes

  abbrev pub outs : Ref → Option Links
  outs r = (h r).out_nodes

  pub start-Fits : Fits ins outs h
  start-Fits = record { into = λ r. refl; out = λ r. refl }

  pub is_Apart : Apart ins outs
  is_Apart u = elim (Bool-cases (contains_ref u (targets (links_of (ins u))))) [
    | inl c ↦
        let below : up u < up u = All-contains (λ x. up x < up u) _ u (g.rises u) c in
        absurd (omega arith)
    | inr c ↦ c
  ]

  -- At the start a node waits, or has parents whose levels are all absent.
  pub start-Waiting : (x : Ref) → contains_ref x ns ≡ true → Waiting ins outs (start_queue h ns) h x
  start-Waiting x c = elim (Option-cases (ins x)) [
    | inl root ↦ inl (contains-start_queue h ns x c root)
    | inr (l, some_l) ↦ inr (
        ap value (g.unset x)
        ∙ ap value
            (sym (level_from-unset (levels h) l g.unset (λ e. g.linked x (some_l ∙ ap some e))))
        ∙ ap (λ o. value (level_from (levels h) o)) (sym some_l))
  ]

  -- In the final store, a node's level is a number if those of its parents are.
  pub level-num :
      (h' : Heap) (x : Ref)
      → Settled ins outs h' x
      → All (λ r. (i : ℕ) × (levels h' r ≡ num i)) (targets (links_of (ins x)))
      → (n : ℕ) × (levels h' x ≡ num n)
        × (due ins outs h' x ≡ num n)
        × All (λ r. (i : ℕ) × (levels h' r ≡ num i) × (i < n)) (targets (links_of (ins x)))
  unfolding level_from
  level-num h' x settled known = of_links (ins x) settled known
    where
      of_links :
          (o : Option Links)
          → value (levels h' x) ≡ value (level_from (levels h') o)
          → All (λ r. (i : ℕ) × (levels h' r ≡ num i)) (targets (links_of o))
          → (n : ℕ) × (levels h' x ≡ num n)
            × (level_from (levels h') o ≡ num n)
            × All (λ r. (i : ℕ) × (levels h' r ≡ num i) × (i < n)) (targets (links_of o))
      of_links none s k = (0, value-num _ 0 s, refl, tt)
      of_links (some l) s k =
          let (m, top, _, below) = max_over-num (levels h') 0 l k in
          let own : level_from (levels h') (some l) ≡ num (m + 1) = ap next_level top in
          (
            m + 1,
            value-num _ (m + 1) (s ∙ ap value own),
            own,
            All-lt (levels h') m (targets l) below,
          )

  -- By induction on the rank: every node of the flow has a number for its level.
  pub known_below :
      (h' : Heap)
      → ((x : Ref) → contains_ref x ns ≡ true → Settled ins outs h' x)
      → (k : ℕ) (x : Ref) → contains_ref x ns ≡ true
      → up x < k
      → (i : ℕ) × (levels h' x ≡ num i)
  known_below h' settled zero x c low = absurd (omega arith)
  known_below h' settled (suc k) x c low =
      let parents = targets (links_of (ins x)) in
      let (n, own, _, _) =
        level-num h' x (settled x c)
          (All-known parents (g.closed x c) (g.rises x) (known_below h' settled k)) in
      (n, own)
    where
      All-known :
          (rs : List Ref)
          → All (λ r. contains_ref r ns ≡ true) rs
          → All (λ r. up r < up x) rs
          → ((r : Ref) → contains_ref r ns ≡ true → up r < k → (i : ℕ) × (levels h' r ≡ num i))
          → All (λ r. (i : ℕ) × (levels h' r ≡ num i)) rs
      All-known [] a b f = tt
      All-known (r ∷ rs) a b f = (f r a.0 (omega (arith, b.0)), All-known rs a.1 b.1 f)
