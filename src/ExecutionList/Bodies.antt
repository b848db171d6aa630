-- ===== src/ExecutionList/Bodies.antt =====
-- addNodeRow of view/flow-execution-list.js, and the writing into a row.
use azkaban_private.Prelude.{
  ℕ, ◌==◌, ==_iff, ◌≡◌, refl, sym, ap, ◌∙◌, ◌↔◌, if◌then◌else◌, Bool-cases, true, Option-cases,
  none, some, ◌⊎◌, inl, inr, List, [], ◌∷◌, ◌++◌, Memᴰ, Memᴰ-cons, Memᴰ-last, arith, subst,
}
use azkaban_private.Flow.{Ref, Heap}
use azkaban_private.ExecutionList.{JobRow, Page, new_row, add_node_row, write_row, write_rows}

-- No element twice.
abbrev pub Once : List Ref → Type 0
Once [] = Unit
Once (r ∷ refs) = (¬ Memᴰ r refs) × Once refs

-- A node is in a body exactly if it has a row there, and in no body twice.
pub record IsListed (page : Page) : Type 0 where
  pub has_row :
      (b r : Ref)
      → Memᴰ r (page.bodies b)
      → (row : JobRow) × (page.rows r ≡ some row) × (row.body ≡ b)
  pub in_body : (r : Ref) (row : JobRow) → page.rows r ≡ some row → Memᴰ r (page.bodies row.body)
  pub once : (b : Ref) → Once (page.bodies b)

Once-end : (r : Ref) (refs : List Ref) → ¬ Memᴰ r refs → Once refs → Once (refs ++ r ∷ [])
Once-end r [] other once = ((λ m. elim m [ ]), tt)
Once-end r (x ∷ refs) other (first, once) = (
  λ m. elim ((Memᴰ-last x r refs).0 m) [
    | inl old ↦ first old
    | inr same ↦ other ((Memᴰ-cons r x refs).1 (inl (sym same)))
  ],
  Once-end r refs (λ m. other ((Memᴰ-cons r x refs).1 (inr m))) once,
)

added : Heap → Ref → Ref → Page → Page
added h body r page = record {
  rows = λ x. if r == x then some (new_row body (h r)) else page.rows x;
  bodies = λ b. if body == b then page.bodies b ++ r ∷ [] else page.bodies b;
}

module _ (h : Heap) (body r : Ref) (page : Page) (listed : IsListed page)
    (e : page.rows r ≡ none) where
  added-old :
      (x : Ref) (row : JobRow) → page.rows x ≡ some row → (added h body r page).rows x ≡ some row
  unfolding added
  added-old x row e' = elim (Bool-cases (r == x)) [
    | inl same ↦ cc (e, e', ap page.rows ((==_iff r x).0 same))
    | inr other ↦ rw other e'
  ]

  added-back :
      (x : Ref) (row : JobRow)
      → (added h body r page).rows x ≡ some row
      → (page.rows x ≡ some row) ⊎ ((x ≡ r) × (body ≡ row.body))
  unfolding added
  added-back x row e' = elim (Bool-cases (r == x)) [
    | inl same ↦
        let is_new : new_row body (h r) ≡ row = cc (rw same at e') in
        inr (sym ((==_iff r x).0 same), ap (λ (y : JobRow). y.body) is_new)
    | inr other ↦ inl (rw other at e')
  ]

  added-Once : (b : Ref) → Once ((added h body r page).bodies b)
  unfolding added
  added-Once b = elim (Bool-cases (body == b)) [
    | inl here ↦ rw here (
        Once-end r (page.bodies b) (λ m. let (row, e', _) = listed.has_row b r m in cc (e, e'))
          (listed.once b))
    | inr other ↦ rw other (listed.once b)
  ]

  added-new : (added h body r page).rows r ≡ some (new_row body (h r))
  unfolding added
  added-new = let z : (r == r) ≡ true = ground arith in rw z refl

  added-bodies :
      (b x : Ref)
      → Memᴰ x ((added h body r page).bodies b) ↔ (Memᴰ x (page.bodies b) ⊎ ((x ≡ r) × (body ≡ b)))
  unfolding added
  added-bodies b x = elim (Bool-cases (body == b)) [
    | inl here ↦
        let same = (==_iff body b).0 here in
        let (to, from) = Memᴰ-last x r (page.bodies b) in
        rw here (
          λ m. elim (to m) [ inl old ↦ inl old | inr new ↦ inr (new, same) ],
          λ either. elim either [ inl old ↦ from (inl old) | inr (new, _) ↦ from (inr new) ],
        )
    | inr other ↦ rw other (
      λ m. inl m,
      λ either. elim either [
        | inl old ↦ old
        | inr (_, same) ↦ absurd (ground (arith, same, other))
      ],
    )
  ]

  added-IsListed : IsListed (added h body r page)
  added-IsListed = record {
    has_row = λ b x m. elim ((added-bodies b x).0 m) [
      | inl old ↦ let (row, e', same) = listed.has_row b x old in (row, added-old x row e', same)
      | inr (new, same) ↦ (
        new_row body (h r),
        subst (λ (y : Ref). (added h body r page).rows y ≡ some (new_row body (h r))) (sym new)
            added-new,
        same,
      )
    ];
    in_body = λ x row e'. elim (added-back x row e') [
      | inl old ↦ (added-bodies row.body x).1 (inl (listed.in_body x row old))
      | inr (new, same) ↦ (added-bodies row.body x).1 (inr (new, same))
    ];
    once = λ b. added-Once b;
  }

pub add_node_row-IsListed :
    (h : Heap) (body r : Ref) (page : Page) → IsListed page → IsListed (add_node_row h body r page)
unfolding add_node_row added
add_node_row-IsListed h body r page listed = elim (Option-cases (page.rows r)) [
  | inr (row, e) ↦ rw (add_node_row, e) listed
  | inl e ↦ rw (add_node_row, e) (added-IsListed h body r page listed e)
]

write_rows-some :
    (now : ℕ) (h : Heap) (r x : Ref) (page : Page) (row : JobRow)
    → page.rows x ≡ some row
    → (row' : JobRow) × ((write_rows now h r page).rows x ≡ some row') × (row'.body ≡ row.body)
write_rows-some now h r x page row e = elim (Bool-cases (r == x)) [
  | inl same ↦ (write_row now (h r) row, rw (same, e) refl, refl)
  | inr other ↦ (row, rw other e, refl)
]

write_rows-back :
    (now : ℕ) (h : Heap) (r x : Ref) (page : Page) (row' : JobRow)
    → (write_rows now h r page).rows x ≡ some row'
    → (row : JobRow) × (page.rows x ≡ some row) × (row.body ≡ row'.body)
write_rows-back now h r x page row' e = elim (Bool-cases (r == x)) [
  | inr other ↦ (row', rw other at e, refl)
  | inl same ↦ elim (Option-cases (page.rows x)) [
    | inl gone ↦ cc (rw (same, gone) at e)
    | inr (row, there) ↦
        let written : write_row now (h r) row ≡ row' = cc (rw (same, there) at e) in
        (row, there, ap (λ (y : JobRow). y.body) written)
  ]
]

pub write_rows-IsListed :
    (now : ℕ) (h : Heap) (r : Ref) (page : Page)
    → IsListed page
    → IsListed (write_rows now h r page)
write_rows-IsListed now h r page listed = record {
  has_row = λ b x m.
      let (row, e, same) = listed.has_row b x m in
      let (row', e', same') = write_rows-some now h r x page row e in (row', e', same' ∙ same);
  in_body = λ x row' e.
      let (row, there, same) = write_rows-back now h r x page row' e in
      subst (λ (b : Ref). Memᴰ x (page.bodies b)) same (listed.in_body x row there);
  once = listed.once;
}
