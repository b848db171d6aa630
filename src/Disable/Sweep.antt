-- ===== src/Disable/Sweep.antt =====
-- `recurseAllAncestors` and `recurseAllDescendents`, where the links have no cycle.
use azkaban_private.Prelude.{
  ℕ, zero, suc, ◌<◌, ◌≡◌, refl, ◌∙◌, ap, subst, Bool, Option, some, [], ◌∷◌, arith, String, ◌⊎◌,
  inl, inr, Any, Memᴰ, Memᴰ-cons,
}
use mathlib.Core.List.Memᴰ
use mathlib.Core.Logic.{⊎_elim}
use azkaban_private.Flow.{Ref, Links, Node, Heap, links_of}
use azkaban_private.Disable.{with_disabled, set_disabled, sweep_links, sweep}

-- `x` is reached from `r` by one link or more.
pub data Above (get : Ref → Links) : Ref → Ref → Type 0 where
  near : (r : Ref) (k : String) (x : Ref) → Memᴰ (k, x) (get r) → Above get r x
  far : (r : Ref) (k : String) (y x : Ref) → Memᴰ (k, y) (get r) → Above get y x → Above get r x

-- The links have no cycle: a number falls along each of them.
abbrev pub IsRanked : (Ref → ℕ) → (Ref → Links) → Type 0
IsRanked rank get = (r : Ref) (k : String) (x : Ref) → Memᴰ (k, x) (get r) → rank x < rank r

-- The flag of the nodes in `S` is set to `d`, and nothing else differs.
abbrev pub Touched : Bool → (Ref → Type 0) → Heap → Heap → Type 0
Touched d S h h' = (x : Ref) → S x × (h' x ≡ with_disabled d (h x)) ⊎ (¬ S x) × (h' x ≡ h x)

module _ (d : Bool) where
  pub Touched-set : (h : Heap) (r : Ref) → Touched d (λ x. r ≡ x) h (set_disabled h r d)
  Touched-set h r x = ground arith

  pub Touched-trans :
      (S T : Ref → Type 0) (h h1 h2 : Heap)
      → Touched d S h h1
      → Touched d T h1 h2
      → Touched d (λ x. S x ⊎ T x) h h2
  Touched-trans S T h h1 h2 a b x = elim (a x) [
    | inl (s, e) ↦ elim (b x) [
      | inl (t, e') ↦ inl (inl s, e' ∙ ap (with_disabled d) e)
      | inr (nt, e') ↦ inl (inl s, e' ∙ e)
    ]
    | inr (ns, e) ↦ elim (b x) [
      | inl (t, e') ↦ inl (inr t, e' ∙ ap (with_disabled d) e)
      | inr (nt, e') ↦ inr (⊎_elim ns nt, e' ∙ e)
    ]
  ]

  pub Touched-iff :
      (S T : Ref → Type 0) (h h' : Heap)
      → ((x : Ref) → S x → T x)
      → ((x : Ref) → T x → S x)
      → Touched d S h h'
      → Touched d T h h'
  Touched-iff S T h h' f g a x = elim (a x) [
    | inl (s, e) ↦ inl (f x s, e)
    | inr (ns, e) ↦ inr (λ t. ns (g x t), e)
  ]

module _ (field : Node → Option Links)
    (keeps : (n : Node) (d : Bool) → field (with_disabled d n) ≡ field n) (d : Bool)
    (get : Ref → Links) (rank : Ref → ℕ) (ranked : IsRanked rank get) where
  abbrev pub Fits : Heap → Type 0
  Fits h = (r : Ref) → links_of (field (h r)) ≡ get r

  Fits-Touched : (S : Ref → Type 0) (h h' : Heap) → Fits h → Touched d S h h' → Fits h'
  Fits-Touched S h h' fits a r = elim (a r) [
    | inl (s, e) ↦ ap (λ n. links_of (field n)) e ∙ ap links_of (keeps (h r) d) ∙ fits r
    | inr (ns, e) ↦ ap (λ n. links_of (field n)) e ∙ fits r
  ]

  -- Reached over one of these links.
  Over : Links → Ref → Type 0
  Over l x = Any (λ e. (e.1 ≡ x) ⊎ Above get e.1 x) l

  Above-Over :
      (r x : Ref) (l : Links)
      → ((k : String) (y : Ref) → Memᴰ (k, y) l → Memᴰ (k, y) (get r))
      → Over l x
      → Above get r x
  unfolding Over
  Above-Over r x [] sub a = absurd a
  Above-Over r x ((k, y) ∷ l) sub (inl (inl e)) =
      subst (Above get r) e (near r k y (sub k y (Memᴰ.head refl)))
  Above-Over r x ((k, y) ∷ l) sub (inl (inr a)) = far r k y x (sub k y (Memᴰ.head refl)) a
  Above-Over r x ((k, y) ∷ l) sub (inr a) = Above-Over r x l (λ j z m. sub j z (Memᴰ.tail m)) a

  Over-mem :
      (x : Ref) (k : String) (y : Ref) (l : Links)
      → Memᴰ (k, y) l
      → (y ≡ x) ⊎ Above get y x
      → Over l x
  unfolding Over
  Over-mem x k y [] m a = absurd (Memᴰ.not-nil m)
  Over-mem x k y ((j, z) ∷ l) m a = elim ((Memᴰ-cons (k, y) (j, z) l).0 m) [
    | inl e ↦ let same : y ≡ z = ap (λ p. p.1) e in inl (rw (← same) a)
    | inr m' ↦ inr (Over-mem x k y l m' a)
  ]

  Over-Above : (r x : Ref) → Above get r x → Over (get r) x
  Over-Above _ _ (near r k x m) = Over-mem x k x (get r) m (inl refl)
  Over-Above _ _ (far r k y x m a) = Over-mem x k y (get r) m (inr a)

  -- What a call for `y` does, from a store that has these links.
  abbrev pub Sweeps : ℕ → (Ref → Heap → Option Heap) → Type 0
  Sweeps n rec =
      (y : Ref) (h : Heap)
      → rank y < n
      → Fits h
      → (h' : Heap) × (rec y h ≡ some h') × Touched d (Above get y) h h'

  sweep_links-Sweeps :
      (n : ℕ) (rec : Ref → Heap → Option Heap) (l : Links) (h : Heap)
      → Sweeps n rec
      → ((k : String) (y : Ref) → Memᴰ (k, y) l → rank y < n)
      → Fits h
      → (h' : Heap) × (sweep_links rec d l h ≡ some h') × Touched d (Over l) h h'
  unfolding sweep_links Over
  sweep_links-Sweeps n rec [] h sw low fits = (h, refl, λ x. inr (λ a. a, refl))
  sweep_links-Sweeps n rec ((k, y) ∷ l) h sw low fits =
      let h1 = set_disabled h y d in
      let t1 = Touched-set d h y in
      let fits1 = Fits-Touched (λ x. y ≡ x) h h1 fits t1 in
      let (h2, e2, t2) = sw y h1 (low k y (Memᴰ.head refl)) fits1 in
      let fits2 = Fits-Touched (Above get y) h1 h2 fits1 t2 in
      let (h3, e3, t3) = sweep_links-Sweeps n rec l h2 sw (λ j z m. low j z (Memᴰ.tail m)) fits2 in
      (
        h3,
        rw (e2, e3),
        Touched-trans d (λ x. (y ≡ x) ⊎ Above get y x) (λ x. Over l x) h h2 h3
            (Touched-trans d (λ x. y ≡ x) (Above get y) h h1 h2 t1 t2) t3,
      )

  -- With fuel above the rank of the node, the recursion returns.
  pub sweep-Touched : (fuel : ℕ) → Sweeps fuel (sweep field d fuel)
  unfolding sweep
  sweep-Touched zero r h low fits = absurd (omega arith)
  sweep-Touched (suc fuel) r h low fits =
      let (h', e, t) =
        sweep_links-Sweeps fuel (sweep field d fuel) (get r) h (sweep-Touched fuel)
          (λ k y m. omega (arith, ranked r k y m)) fits in
      (
        h',
        rw (fits r) e,
        Touched-iff d (Over (get r)) (Above get r) h h' (λ x. Above-Over r x (get r) (λ k y m. m))
            (Over-Above r) t,
      )
