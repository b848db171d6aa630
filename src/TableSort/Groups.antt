-- ===== src/TableSort/Groups.antt =====
-- Child rows stay with their row, however often a table is sorted.
use azkaban_private.Prelude.{
  ℕ, ◌≡◌, refl, sym, ◌∙◌, ap, subst, if◌then◌else◌, Bool, false, true, none, some, List, [], ◌∷◌,
  ◌++◌, ◌||◌, ◌&&◌, ◌⊎◌, arith, Option, String, All, Bool-cases, inl, inr,
}
use mathlib.Core.List.{append_assoc, append-nil, Permᴰ}
use azkaban_private.TableSort.{
  Tr, Group, group_rows, rows_of, orphans, owners, compare_texts, sort, Verdict, is_there, all_have,
  text_or,
}

-- Only child rows are among the child rows of a row.
abbrev pub IsFamily : Group → Type 0
IsFamily g = All (λ r. r.childrow ≡ true) g.child_rows

abbrev pub IsOwner : Group → Type 0
IsOwner g = (g.row.childrow ≡ false) × IsFamily g

-- A table as `initialize` groups it: only the first row may be a child row.
abbrev pub IsGrouped : List Group → Type 0
IsGrouped [] = Unit
IsGrouped (g ∷ gs) = IsFamily g × All IsOwner gs

taken : {A : Type 0} (x y : A) (b : Bool) → b ≡ true → (if b then x else y) ≡ x
taken x y b e = rw e refl

not_taken : {A : Type 0} (x y : A) (b : Bool) → b ≡ false → (if b then x else y) ≡ y
not_taken x y b e = rw e refl

group_rows-append :
    (t : Tr) (acc cs rows : List Tr)
    → All (λ r. r.childrow ≡ true) cs
    → group_rows (some (record { row = t; child_rows = acc })) (cs ++ rows)
      ≡ group_rows (some (record { row = t; child_rows = acc ++ cs })) rows
unfolding group_rows
group_rows-append t acc [] rows a =
    ap (λ l. group_rows (some (record { row = t; child_rows = l })) rows) (sym (append-nil acc))
group_rows-append t acc (c ∷ cs) rows (child, a) =
    taken _ _ c.childrow child
    ∙ group_rows-append t (acc ++ c ∷ []) cs rows a
    ∙ ap (λ l. group_rows (some (record { row = t; child_rows = l })) rows)
        (append_assoc acc (c ∷ []) cs)

group_rows-owners :
    (g : Group) (gs : List Group) → All IsOwner gs → group_rows (some g) (rows_of gs) ≡ g ∷ gs
unfolding group_rows
group_rows-owners g [] a = refl
group_rows-owners g (o ∷ gs) ((own, family), a) =
    not_taken _ _ o.row.childrow own
    ∙ ap (λ l. g ∷ l)
        (group_rows-append o.row [] o.child_rows (rows_of gs) family ∙ group_rows-owners o gs a)

-- The grouping of a table's rows is got back from the rows.
group_rows-rows_of : (gs : List Group) → IsGrouped gs → group_rows none (rows_of gs) ≡ gs
unfolding group_rows
group_rows-rows_of [] a = refl
group_rows-rows_of (g ∷ gs) (family, a) =
    group_rows-append g.row [] g.child_rows (rows_of gs) family ∙ group_rows-owners g gs a

All-append : (P : Group → Type 0) (xs ys : List Group) → All P xs → All P ys → All P (xs ++ ys)
All-append P [] ys a b = b
All-append P (x ∷ xs) ys a b = (a.0, All-append P xs ys a.1 b)

owners-orphans : (gs : List Group) → All IsOwner gs → (owners gs ≡ gs) × (orphans gs ≡ [])
owners-orphans [] a = (refl, refl)
owners-orphans (g ∷ gs) ((own, family), a) =
    let (e, n) = owners-orphans gs a in
    (not_taken _ _ g.row.childrow own ∙ ap (λ l. g ∷ l) e, not_taken _ _ g.row.childrow own ∙ n)

All-IsFamily : (gs : List Group) → All IsOwner gs → IsGrouped gs
All-IsFamily [] a = tt
All-IsFamily (g ∷ gs) (own, a) = (own.1, a)

All-snoc :
    (cs : List Tr) (r : Tr)
    → All (λ c. c.childrow ≡ true) cs
    → r.childrow ≡ true
    → All (λ c. c.childrow ≡ true) (cs ++ r ∷ [])
All-snoc [] r a child = (child, tt)
All-snoc (c ∷ cs) r a child = (a.0, All-snoc cs r a.1 child)

group_rows-IsOwner :
    (g : Group) (rows : List Tr) → IsOwner g → All IsOwner (group_rows (some g) rows)
unfolding group_rows
group_rows-IsOwner g [] own = (own, tt)
group_rows-IsOwner g (r ∷ rows) own = elim (Bool-cases r.childrow) [
  | inl child ↦ subst (All IsOwner) (sym (taken _ _ r.childrow child)) (
      group_rows-IsOwner (record { row = g.row; child_rows = g.child_rows ++ r ∷ [] }) rows
        (own.0, All-snoc g.child_rows r own.1 child))
  | inr next ↦
      subst (All IsOwner) (sym (not_taken _ _ r.childrow next))
        (own, group_rows-IsOwner (record { row = r; child_rows = [] }) rows (next, tt))
]

-- What `initialize` finds in any table is grouped.
group_rows-IsGrouped :
    (g : Group) (rows : List Tr) → IsFamily g → IsGrouped (group_rows (some g) rows)
unfolding group_rows
group_rows-IsGrouped g [] family = (family, tt)
group_rows-IsGrouped g (r ∷ rows) family = elim (Bool-cases r.childrow) [
  | inl child ↦ subst IsGrouped (sym (taken _ _ r.childrow child)) (
      group_rows-IsGrouped (record { row = g.row; child_rows = g.child_rows ++ r ∷ [] }) rows
        (All-snoc g.child_rows r family child))
  | inr next ↦
      subst IsGrouped (sym (not_taken _ _ r.childrow next))
        (family, group_rows-IsOwner (record { row = r; child_rows = [] }) rows (next, tt))
]

initial-IsGrouped : (rows : List Tr) → IsGrouped (group_rows none rows)
unfolding group_rows
initial-IsGrouped [] = tt
initial-IsGrouped (r ∷ rows) = group_rows-IsGrouped (record { row = r; child_rows = [] }) rows tt

All-Permᴰ : (P : Group → Type 0) {xs ys : List Group} → Permᴰ xs ys → All P xs → All P ys
All-Permᴰ P Permᴰ.nil a = a
All-Permᴰ P (Permᴰ.cons e p) a = (subst P e a.0, All-Permᴰ P p a.1)
All-Permᴰ P (Permᴰ.swap e d) a = (subst P d a.1.0, (subst P e a.0, a.1.1))
All-Permᴰ P (Permᴰ.trans p q) a = All-Permᴰ P q (All-Permᴰ P p a)

module _ (before : String → String → Bool)
    (engine : (Group → Group → Verdict) → List Group → List Group)
    (permutes : (c : Group → Group → Verdict) (gs : List Group) → Permᴰ gs (engine c gs)) where
  of_parts :
      (c : Group → Group → Verdict) (gs os ws : List Group)
      → orphans gs ≡ os
      → owners gs ≡ ws
      → IsGrouped (os ++ engine c ws)
      → Permᴰ gs (os ++ engine c ws)
      → IsGrouped (orphans gs ++ engine c (owners gs))
        × Permᴰ gs (orphans gs ++ engine c (owners gs))
  of_parts c gs os ws e1 e2 grouped p = rw (e1, e2) (grouped, p)

  sort-parts :
      (c : Group → Group → Verdict) (gs : List Group)
      → IsGrouped gs
      → IsGrouped (orphans gs ++ engine c (owners gs))
        × Permᴰ gs (orphans gs ++ engine c (owners gs))
  sort-parts c [] grouped =
      (All-IsFamily (engine c []) (All-Permᴰ IsOwner (permutes c []) tt), permutes c [])
  sort-parts c (g ∷ gs) (family, own) =
      let (kept, no_orphan) = owners-orphans gs own in
      elim (Bool-cases g.row.childrow) [
        | inl child ↦
            of_parts c (g ∷ gs) (g ∷ []) gs
              (taken _ _ g.row.childrow child ∙ ap (λ l. g ∷ l) no_orphan)
              (taken _ _ g.row.childrow child ∙ kept)
              (family, All-Permᴰ IsOwner (permutes c gs) own) (Permᴰ.cons refl (permutes c gs))
        | inr next ↦
            let all = owners-orphans (g ∷ gs) ((next, family), own) in
            of_parts c (g ∷ gs) [] (g ∷ gs) all.1 all.0
              (All-IsFamily _ (All-Permᴰ IsOwner (permutes c (g ∷ gs)) ((next, family), own)))
              (permutes c (g ∷ gs))
      ]

-- A row that is a child row or has the cell.
abbrev pub is_fine : ℕ → Tr → Bool
is_fine index r = r.childrow || is_there (r.cell index)

abbrev fine_group : ℕ → Option Group → Bool
fine_group index none = true
fine_group index (some g) = is_fine index g.row

abbrev pub all_fine : ℕ → List Tr → Bool
all_fine index [] = true
all_fine index (r ∷ rows) = is_fine index r && all_fine index rows

all_have-owners :
    (index : ℕ) (g : Group) (gs : List Group)
    → all_have index (owners (g ∷ gs)) ≡ (is_fine index g.row && all_have index (owners gs))
all_have-owners index g gs = ground arith

-- The rows without cell are found among the owners of the groups.
all_have-group_rows :
    (index : ℕ) (o : Option Group) (rows : List Tr)
    → all_have index (owners (group_rows o rows)) ≡ (fine_group index o && all_fine index rows)
unfolding group_rows
all_have-group_rows index none [] = refl
all_have-group_rows index (some g) [] = all_have-owners index g []
all_have-group_rows index none (r ∷ rows) =
    all_have-group_rows index (some (record { row = r; child_rows = [] })) rows
all_have-group_rows index (some g) (r ∷ rows) =
    let start : Group = record { row = r; child_rows = [] } in
    elim (Bool-cases r.childrow) [
      | inl child ↦
          let more : Group = record { row = g.row; child_rows = g.child_rows ++ r ∷ [] } in
          let ih = all_have-group_rows index (some more) rows in
          ap (λ gs. all_have index (owners gs)) (taken _ _ r.childrow child)
          ∙ ih
          ∙ ground (arith, child)
      | inr next ↦
          ap (λ gs. all_have index (owners gs)) (not_taken _ _ r.childrow next)
          ∙ all_have-owners index g (group_rows (some start) rows)
          ∙ ap (λ b. is_fine index g.row && b) (all_have-group_rows index (some start) rows)
    ]

-- If the engine's sorting permutes an array, then for a table in which each row but the child rows
-- has the cell, sort returns, and the sorted rows are grouped as the rows were: each row is
-- followed by its own child rows in their order, so that grouping the sorted rows again gives the
-- groups of before, in another order. For any other table it throws a TypeError.
pub group_rows-sort :
    (before : String → String → Bool) (engine : (Group → Group → Verdict) → List Group → List Group)
    → ((c : Group → Group → Verdict) (gs : List Group) → Permᴰ gs (engine c gs))
    → (index : ℕ) (descending : Bool) (rows : List Tr)
    → let result = sort before engine index descending (group_rows none rows) in
      ((all_fine index rows ≡ true)
        × ((sorted : List Group) × (result ≡ some sorted)
            × (group_rows none (rows_of sorted) ≡ sorted)
            × Permᴰ (group_rows none rows) sorted))
      ⊎ (all_fine index rows ≡ false) × (result ≡ none)
unfolding sort
group_rows-sort before engine permutes index descending rows =
    let gs = group_rows none rows in
    let text = λ (g : Group). text_or "" (g.row.cell index) in
    let c = λ (a b : Group). compare_texts before engine descending (text a) (text b) in
    let (grouped, p) = sort-parts before engine permutes c gs (initial-IsGrouped rows) in
    let same = all_have-group_rows index none rows in
    elim (Bool-cases (all_have index (owners gs))) [
      | inl have ↦ inl (
        sym same ∙ have,
        (
          orphans gs ++ engine c (owners gs),
          rw have refl,
          group_rows-rows_of (orphans gs ++ engine c (owners gs)) grouped,
          p,
        ),
      )
      | inr lack ↦ inr (sym same ∙ lack, rw lack refl)
    ]
