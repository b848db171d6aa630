-- ===== src/Layout/Dummies/Adjacent.antt =====
-- The links and the levels of the dummy nodes of layoutGraph.
use azkaban_private.Prelude.{
  ℕ, suc, ◌<◌, ◌==◌, ◌≡◌, refl, sym, ap, subst, ◌∙◌, ltb, if◌then◌else◌, Bool, true, false, Option,
  none, some, List, [], ◌∷◌, ◌++◌, String, eq_iff, ◌⊎◌, ◌↔◌, inl, inr, Memᴰ, Bool-cases, arith,
}
use mathlib.Core.List.Memᴰ
use azkaban_private.Layout.Dummies.{
  Spot, real, dummy, same_spot, Drawing, push_at, attach, new_dummy,
}

same_spot_eq : (s t : Spot) → (same_spot s t ≡ true) ↔ (s ≡ t)
same_spot_eq (real a) (real b) = (λ e. ap real ((eq_iff a b).0 e), λ e. (eq_iff a b).1 cc)
same_spot_eq (dummy m) (dummy n) =
    (λ e. ap dummy (ground arith), λ e. let e' : m ≡ n = cc in ground arith)
same_spot_eq (real a) (dummy n) = (λ e. cc, λ e. cc)
same_spot_eq (dummy m) (real b) = (λ e. cc, λ e. cc)

Mem-snoc : {A : Type 0} → (a x : A) (xs : List A) → Memᴰ a (xs ++ x ∷ []) ↔ (Memᴰ a xs ⊎ (a ≡ x))
Mem-snoc a x [] = (
  λ m. elim (Memᴰ.cases_cons m) [ inl e ↦ inr e | inr m' ↦ inl m' ],
  λ d. elim d [ inl m ↦ Memᴰ.tail m | inr e ↦ Memᴰ.head e ],
)
Mem-snoc a x (y ∷ xs) =
    let ih = Mem-snoc a x xs in
    (
      λ m. elim (Memᴰ.cases_cons m) [
        | inl e ↦ inl (Memᴰ.head e)
        | inr m' ↦ elim (ih.0 m') [ inl n ↦ inl (Memᴰ.tail n) | inr e ↦ inr e ]
      ],
      λ d. elim d [
        | inl m ↦ elim (Memᴰ.cases_cons m) [
          | inl e ↦ Memᴰ.head e
          | inr n ↦ Memᴰ.tail (ih.1 (inl n))
        ]
        | inr e ↦ Memᴰ.tail (ih.1 (inr e))
      ],
    )

pub Mem-push_at :
    (a s x t : Spot) (array : Spot → List Spot)
    → Memᴰ a (push_at s x array t) ↔ (Memᴰ a (array t) ⊎ (s ≡ t) × (a ≡ x))
Mem-push_at a s x t array = elim (Bool-cases (same_spot s t)) [
  | inl e ↦ rw e (
    λ m. elim ((Mem-snoc a x (array t)).0 m) [
      | inl n ↦ inl n
      | inr e' ↦ inr ((same_spot_eq s t).0 e, e')
    ],
    λ d. (Mem-snoc a x (array t)).1 (elim d [ inl m ↦ inl m | inr both ↦ inr both.1 ]),
  )
  | inr e ↦ rw e (
    λ m. inl m,
    λ d. elim d [
      | inl m ↦ m
      | inr both ↦ absurd (apart (same_spot s t) e ((same_spot_eq s t).1 both.0))
    ],
  )
]
  where
    apart : (b : Bool) → b ≡ false → b ≡ true → ⊥
    apart b e hit = cc

module _ (node_map : String → Option ℕ) where
  abbrev pub level_of : Drawing → Spot → Option ℕ
  level_of d (real a) = node_map a
  level_of d (dummy n) = if ltb n d.made then some (d.dummy_level n) else none

  -- The second is one level below the first.
  abbrev pub Adjacent : Drawing → Spot → Spot → Type 0
  Adjacent d a b = (l : ℕ) × (level_of d a ≡ some l) × (level_of d b ≡ some (suc l))

  pub record IsLayered (d : Drawing) : Type 0 where
    pub adjacent : (a b : Spot) → Memᴰ a (d.ins b) → Adjacent d a b
    pub mirrored : (a b : Spot) → Memᴰ a (d.ins b) ↔ Memᴰ b (d.outs a)
    pub listed :
        (n : ℕ)
        → n < d.made
        → (layer : List Spot) × (d.layers (d.dummy_level n) ≡ some layer) × Memᴰ (dummy n) layer

  -- What later steps keep.
  pub record Extends (d d' : Drawing) : Type 0 where
    pub levels : (s : Spot) (l : ℕ) → level_of d s ≡ some l → level_of d' s ≡ some l
    pub ins : (a b : Spot) → Memᴰ a (d.ins b) → Memᴰ a (d'.ins b)
    pub layers :
        (j : ℕ) (layer : List Spot)
        → d.layers j ≡ some layer
        → (layer' : List Spot) × (d'.layers j ≡ some layer')

  pub Extends-self : (d : Drawing) → Extends d d
  Extends-self d = record {
    levels = λ s l e. e;
    ins = λ a b m. m;
    layers = λ j layer e. (layer, e);
  }

  pub Extends-trans : (c d e : Drawing) → Extends c d → Extends d e → Extends c e
  Extends-trans c d e x y = record {
    levels = λ s l known. y.levels s l (x.levels s l known);
    ins = λ a b m. y.ins a b (x.ins a b m);
    layers =
        λ j layer known. let (layer', known') = x.layers j layer known in y.layers j layer' known';
  }

  level_of-attach : (a b s : Spot) (d : Drawing) → level_of (attach a b d) s ≡ level_of d s
  level_of-attach a b (real c) d = refl
  level_of-attach a b (dummy n) d = refl

  pub attach-Extends : (a b : Spot) (d : Drawing) → Extends d (attach a b d)
  attach-Extends a b d = record {
    levels = λ s l e. level_of-attach a b s d ∙ e;
    ins = λ c e m. (Mem-push_at c b a e d.ins).1 (inl m);
    layers = λ j layer e. (layer, e);
  }

  pub attach-IsLayered :
      (a b : Spot) (d : Drawing) → IsLayered d → Adjacent d a b → IsLayered (attach a b d)
  attach-IsLayered a b d i near = record {
    adjacent = λ c e m.
        let (l, upper, lower) = elim ((Mem-push_at c b a e d.ins).0 m) as (λ x. Adjacent d c e) [
          | inl old ↦ i.adjacent c e old
          | inr (same_b, same_a) ↦
              subst (λ x. Adjacent d x e) (sym same_a) (subst (Adjacent d a) same_b near)
        ] in
        (l, level_of-attach a b c d ∙ upper, level_of-attach a b e d ∙ lower);
    mirrored = λ c e. (
      λ m. (Mem-push_at e a b c d.outs).1 (elim ((Mem-push_at c b a e d.ins).0 m) [
        | inl old ↦ inl ((i.mirrored c e).0 old)
        | inr (same_b, same_a) ↦ inr (sym same_a, sym same_b)
      ]),
      λ m. (Mem-push_at c b a e d.ins).1 (elim ((Mem-push_at e a b c d.outs).0 m) [
        | inl old ↦ inl ((i.mirrored c e).1 old)
        | inr (same_a, same_b) ↦ inr (sym same_b, sym same_a)
      ]),
    );
    listed = i.listed;
  }

  level_of-new_dummy :
      (j : ℕ) (layer : List Spot) (d : Drawing) (s : Spot) (l : ℕ)
      → level_of d s ≡ some l
      → level_of (new_dummy j layer d) s ≡ some l
  level_of-new_dummy j layer d (real a) l e = e
  level_of-new_dummy j layer d (dummy n) l e = ground arith

  pub new_dummy-level :
      (j : ℕ) (layer : List Spot) (d : Drawing)
      → level_of (new_dummy j layer d) (dummy d.made) ≡ some j
  new_dummy-level j layer d = ground arith

  pub new_dummy-Extends :
      (j : ℕ) (layer : List Spot) (d : Drawing) → Extends d (new_dummy j layer d)
  new_dummy-Extends j layer d = record {
    levels = level_of-new_dummy j layer d;
    ins = λ a b m. m;
    layers = λ k other e. elim (Bool-cases (k == j)) [
      | inl same ↦ rw same (layer ++ dummy d.made ∷ [], refl)
      | inr apart ↦ rw apart (other, e)
    ];
  }

  pub new_dummy-IsLayered :
      (j : ℕ) (layer : List Spot) (d : Drawing)
      → IsLayered d
      → d.layers j ≡ some layer
      → IsLayered (new_dummy j layer d)
  new_dummy-IsLayered j layer d i known = record {
    adjacent = λ a b m.
        let (l, upper, lower) = i.adjacent a b m in
        (l, level_of-new_dummy j layer d a l upper, level_of-new_dummy j layer d b (suc l) lower);
    mirrored = i.mirrored;
    listed = λ n low. elim (Bool-cases (n == d.made)) [
      | inl last ↦ rw last (
        layer ++ dummy d.made ∷ [],
        own_layer,
        (Mem-snoc (dummy n) (dummy d.made) layer).1 (inr (ap dummy (ground arith))),
      )
      | inr old ↦
          let (other, e, m) = i.listed n (ground arith) in
          rw old (kept (d.dummy_level n) other (dummy n) e m)
    ];
  }
    where
      own_layer : (new_dummy j layer d).layers j ≡ some (layer ++ dummy d.made ∷ [])
      own_layer = ground arith

      kept :
          (k : ℕ) (other : List Spot) (s : Spot)
          → d.layers k ≡ some other
          → Memᴰ s other
          → (layer' : List Spot) × ((new_dummy j layer d).layers k ≡ some layer') × Memᴰ s layer'
      kept k other s e m = elim (Bool-cases (k == j)) [
        | inl same ↦
            let there : k ≡ j = ground arith in
            let one : some other ≡ some layer = sym e ∙ ap d.layers there ∙ known in
            let same_list : other ≡ layer = cc in
            rw same (
              layer ++ dummy d.made ∷ [],
              refl,
              (Mem-snoc s (dummy d.made) layer).1 (inl (subst (Memᴰ s) same_list m)),
            )
        | inr apart ↦ rw apart (other, e, m)
      ]
