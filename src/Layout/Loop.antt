-- ===== src/Layout/Loop.antt =====
-- The loop that computes the levels: it ends where the graph has no cycle, and keeps each node's
-- level in step with those of its parents, unless the node waits in the queue.
use azkaban_private.Prelude.{
  ℕ, zero, suc, ◌<◌, ◌==◌, ◌≡◌, refl, sym, ◌∙◌, ap, subst, Bool, false, true, ◌||◌, Option, none,
  some, List, [], ◌∷◌, ◌++◌, arith, All, ◌⊎◌, inl, inr, Bool-cases,
}
use mathlib.Core.Logic.{⊎_elim}
use mathlib.Core.List.{append_assoc, append-nil}
use azkaban_private.Flow.{Ref, Links, Heap, Level, num, links_of}
use azkaban_private.GraphModel.Linking.{contains_ref}
use azkaban_private.Layout.{
  max_level, next_level, max_over, level_from, relabel, targets, level_loop,
}

contains_ref-append :
    (x : Ref) (xs ys : List Ref)
    → contains_ref x (xs ++ ys) ≡ (contains_ref x xs || contains_ref x ys)
contains_ref-append x [] ys = refl
contains_ref-append x (z ∷ xs) ys = ground (arith, contains_ref-append x xs ys)

or_false : (a b : Bool) → (a || b) ≡ false → (a ≡ false) × (b ≡ false)
or_false a b e = ground arith

-- The level of a number, if it is one.
abbrev pub value : Level → Option ℕ
value (num n) = some n
value _ = none

abbrev pub levels : Heap → Ref → Level
levels h r = (h r).level

-- `ins` and `outs` are the two maps of the nodes, which the loop does not change.
module _ (ins outs : Ref → Option Links) where
  pub record Fits (h : Heap) : Type 0 where
    pub into : (r : Ref) → (h r).in_nodes ≡ ins r
    pub out : (r : Ref) → (h r).out_nodes ≡ outs r

  pub Fits-relabel : (h : Heap) (u : Ref) → Fits h → Fits (relabel u h)
  Fits-relabel h u f = record {
    into = λ r. ground (arith, f.into r);
    out = λ r. ground (arith, f.out r);
  }

  -- A number falls along `outNodes`.
  abbrev pub Falls : (Ref → ℕ) → Type 0
  Falls down = (u : Ref) → All (λ x. down x < down u) (targets (links_of (outs u)))

  All-concat : (P : Ref → Type 0) (xs ys : List Ref) → All P xs → All P ys → All P (xs ++ ys)
  All-concat P [] ys a b = b
  All-concat P (x ∷ xs) ys a b = (a.0, All-concat P xs ys a.1 b)

  All-weaken :
      (down : Ref → ℕ) (m n : ℕ) (xs : List Ref)
      → m < suc n
      → All (λ x. down x < m) xs
      → All (λ x. down x < n) xs
  All-weaken down m n [] le a = tt
  All-weaken down m n (x ∷ xs) le a = (omega (arith, a.0), All-weaken down m n xs le a.1)

  -- The queue in two parts, where the second part has what the first has pushed.
  pub level_loop_ends :
      (down : Ref → ℕ)
      → Falls down
      → (n : ℕ) (xs ys : List Ref) (h : Heap) → Fits h
      → All (λ x. down x < suc n) xs
      → All (λ x. down x < n) ys
      → (fuel : ℕ) × (h' : Heap) × (level_loop fuel (xs ++ ys) h ≡ some h')
  unfolding level_loop
  level_loop_ends down falls n (u ∷ xs) ys h fits (a, rest) b =
      let more = targets (links_of (outs u)) in
      let (fuel, h', e) =
        level_loop_ends down falls n xs (ys ++ more) (relabel u h) (Fits-relabel h u fits) rest
          (All-concat (λ x. down x < n) ys more b (All-weaken down (down u) n more a (falls u))) in
      (
        suc fuel,
        h',
        ap (λ o. level_loop fuel ((xs ++ ys) ++ targets (links_of o)) (relabel u h)) (fits.out u)
            ∙ ap (λ q. level_loop fuel q (relabel u h)) (append_assoc xs ys more)
            ∙ e,
      )
  level_loop_ends down falls zero [] [] h fits a b = (zero, h, refl)
  level_loop_ends down falls zero [] (y ∷ ys) h fits a b = absurd (omega (arith, b.0))
  level_loop_ends down falls (suc n) [] ys h fits a b =
      let (fuel, h', e) = level_loop_ends down falls n ys [] h fits b tt in
      (fuel, h', rw append-nil at e)

  -- What a node's level should be, from the levels of its parents.
  abbrev pub due : Heap → Ref → Level
  due h x = level_from (levels h) (ins x)

  abbrev pub Settled : Heap → Ref → Type 0
  Settled h x = value (levels h x) ≡ value (due h x)

  max_over-relabel :
      (h : Heap) (u : Ref) (acc : Level) (l : Links)
      → contains_ref u (targets l) ≡ false
      → max_over (levels (relabel u h)) acc l ≡ max_over (levels h) acc l
  max_over-relabel h u acc [] apart = refl
  max_over-relabel h u acc (e ∷ l) apart =
      let (here, later) = or_false (e.1 == u) (contains_ref u (targets l)) apart in
      let same : levels (relabel u h) e.1 ≡ levels h e.1 = ground arith in
      ap (λ k. max_over (levels (relabel u h)) (max_level acc k) l) same
      ∙ max_over-relabel h u (max_level acc (levels h e.1)) l later

  due-relabel :
      (h : Heap) (u x : Ref)
      → contains_ref u (targets (links_of (ins x))) ≡ false
      → due (relabel u h) x ≡ due h x
  unfolding level_from
  due-relabel h u x apart = due_of (ins x) apart
    where
      due_of :
          (o : Option Links)
          → contains_ref u (targets (links_of o)) ≡ false
          → level_from (levels (relabel u h)) o ≡ level_from (levels h) o
      due_of none a = refl
      due_of (some l) a = ap next_level (max_over-relabel h u (num 0) l a)

  -- A node whose parent changes is among those that the parent pushes.
  abbrev pub Pushes : Type 0
  Pushes =
      (u x : Ref)
      → contains_ref u (targets (links_of (ins x))) ≡ true
      → contains_ref x (targets (links_of (outs u))) ≡ true

  abbrev pub Apart : Type 0
  Apart = (u : Ref) → contains_ref u (targets (links_of (ins u))) ≡ false

  abbrev pub Waiting : List Ref → Heap → Ref → Type 0
  Waiting queue h x = (contains_ref x queue ≡ true) ⊎ Settled h x

  relabel_self : (h : Heap) (u : Ref) → Fits h → levels (relabel u h) u ≡ due h u
  relabel_self h u fits =
      let own : levels (relabel u h) u ≡ level_from (levels h) (h u).in_nodes = ground arith in
      own ∙ ap (level_from (levels h)) (fits.into u)

  relabel-Waiting :
      (h : Heap) (u : Ref) (queue : List Ref)
      → Fits h
      → Pushes
      → Apart
      → (x : Ref) → Waiting (u ∷ queue) h x
      → Waiting (queue ++ targets (links_of (outs u))) (relabel u h) x
  relabel-Waiting h u queue fits pushes apart x w =
      elim (Bool-cases (contains_ref u (targets (links_of (ins x))))) [
        | inl parent ↦ inl (
            ground
              (arith, pushes u x parent, contains_ref-append x queue (targets (links_of (outs u)))))
        | inr no_parent ↦ elim (Bool-cases (u == x)) [
          | inl self ↦
              let same : u ≡ x = ground arith in
              inr (
                ap value (
                  subst (λ y. levels (relabel u h) y ≡ due h y) same (relabel_self h u fits)
                  ∙ sym (due-relabel h u x no_parent)))
          | inr other ↦
              let kept : levels (relabel u h) x ≡ levels h x = ground arith in
              let later = contains_ref-append x queue (targets (links_of (outs u))) in
              elim w [
                | inl waits ↦ inl (ground (arith, later))
                | inr settled ↦
                    inr (ap value kept ∙ settled ∙ ap value (sym (due-relabel h u x no_parent)))
              ]
        ]
      ]

  -- When the loop returns, every node that waited in the queue or was settled is settled.
  pub level_loop-Settled :
      (fuel : ℕ) (queue : List Ref) (h h' : Heap)
      → Fits h
      → Pushes
      → Apart
      → level_loop fuel queue h ≡ some h'
      → (x : Ref) → Waiting queue h x
      → Settled h' x
  unfolding level_loop
  level_loop-Settled fuel [] h h' fits pushes apart e x w =
      let same : h ≡ h' = cc in subst (λ g. Settled g x) same (⊎_elim (λ c. cc) (λ s. s) w)
  level_loop-Settled zero (u ∷ queue) h h' fits pushes apart e x w = cc
  level_loop-Settled (suc fuel) (u ∷ queue) h h' fits pushes apart e x w =
      let e' =
        subst (λ o. level_loop fuel (queue ++ targets (links_of o)) (relabel u h) ≡ some h')
          (fits.out u) e in
      level_loop-Settled fuel (queue ++ targets (links_of (outs u))) (relabel u h) h'
        (Fits-relabel h u fits) pushes apart e' x (relabel-Waiting h u queue fits pushes apart x w)
