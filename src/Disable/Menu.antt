-- ===== src/Disable/Menu.antt =====
-- The menus of `expanelNodeClickCallback` and `expanelGraphClickCallback` that enable and disable
-- nodes, and sessions of choices from them.
use azkaban_private.Prelude.{
  ℕ, ◌<◌, ◌≡◌, refl, sym, ◌∙◌, ap, subst, fun_ext, if◌then◌else◌, Bool, false, true, Option, some,
  List, [], ◌∷◌, ◌>>=◌, inl, inr, Bool-cases, ◌==◌,
}
use azkaban_private.Flow.{Ref, Links, Heap, links_of}
use azkaban_private.GraphModel.Linking.{contains_ref}
use azkaban_private.Disable.{
  with_disabled, set_disabled, enable_all, disable_all, touch_node, touch_parents, touch_children,
  set_links, recurse_all_ancestors, recurse_all_descendents,
}
use azkaban_private.Disable.Sweep.{Above, IsRanked, Touched}
use azkaban_private.Disable.Ancestors.{
  parents, children, recurse_all_ancestors_lem, recurse_all_descendents_lem, recurse_tree-flat,
}

-- The entries of the submenus: "Enable" with `false`, "Disable" with `true`.
pub data Action : Type 0 where
  node parent_nodes ancestors child_nodes descendents all : Bool → Action

-- A choice for the node at `r` of the flow at `d`.
unfoldable pub choose : ℕ → Ref → Ref → Action → Heap → Option Heap
choose fuel d r (node b) h = some (touch_node r b h)
choose fuel d r (parent_nodes b) h = some (touch_parents r b h)
choose fuel d r (ancestors b) h = recurse_all_ancestors fuel r b h
choose fuel d r (child_nodes b) h = some (touch_children r b h)
choose fuel d r (descendents b) h = recurse_all_descendents fuel r b h
choose fuel d r (all b) h = some (if b then disable_all d h else enable_all d h)

unfoldable pub session : ℕ → Ref → List (Ref × Action) → Heap → Option Heap
session fuel d [] h = some h
session fuel d ((r, a) ∷ rest) h = choose fuel d r a h >>= session fuel d rest

-- Nothing but flags differs.
abbrev pub OnlyFlags : Heap → Heap → Type 0
OnlyFlags h h' = (x : Ref) → (b : Bool) × (h' x ≡ with_disabled b (h x))

OnlyFlags-refl : (h : Heap) → OnlyFlags h h
OnlyFlags-refl h x = ((h x).disabled, refl)

OnlyFlags-trans : (h h1 h2 : Heap) → OnlyFlags h h1 → OnlyFlags h1 h2 → OnlyFlags h h2
OnlyFlags-trans h h1 h2 p q x =
    let (b, e) = p x in let (c, e') = q x in (c, e' ∙ ap (with_disabled c) e)

OnlyFlags-Touched : (b : Bool) (S : Ref → Type 0) (h h' : Heap) → Touched b S h h' → OnlyFlags h h'
OnlyFlags-Touched b S h h' t x = elim (t x) [
  | inl (s, e) ↦ (b, e)
  | inr (ns, e) ↦ ((h x).disabled, e)
]

OnlyFlags-if :
    (h h' : Heap) (b : Bool) (test : Ref → Bool)
    → ((x : Ref) → h' x ≡ (if test x then with_disabled b (h x) else h x))
    → OnlyFlags h h'
OnlyFlags-if h h' b test e x = elim (Bool-cases (test x)) [
  | inl hit ↦ (b, rw hit at (e x))
  | inr miss ↦ ((h x).disabled, rw miss at (e x))
]

OnlyFlags-set_links : (b : Bool) (l : Links) (h : Heap) → OnlyFlags h (set_links b l h)
unfolding set_links
OnlyFlags-set_links b [] h = OnlyFlags-refl h
OnlyFlags-set_links b ((k, r) ∷ l) h =
    OnlyFlags-trans h (set_disabled h r b) (set_links b l (set_disabled h r b))
      (OnlyFlags-if h (set_disabled h r b) b (λ x. r == x) (λ x. refl))
      (OnlyFlags-set_links b l (set_disabled h r b))

OnlyFlags-parents : (h h' : Heap) → OnlyFlags h h' → parents h' ≡ parents h
OnlyFlags-parents h h' p = fun_ext λ x. ap (λ n. links_of n.in_nodes) (p x).1

OnlyFlags-children : (h h' : Heap) → OnlyFlags h h' → children h' ≡ children h
OnlyFlags-children h h' p = fun_ext λ x. ap (λ n. links_of n.out_nodes) (p x).1

module _ (up down : Ref → ℕ) (fuel : ℕ) (high : (r : Ref) → (up r < fuel) × (down r < fuel))
    (d : Ref) where
  choose-OnlyFlags :
      (h : Heap) (r : Ref) (a : Action)
      → IsRanked up (parents h)
      → IsRanked down (children h)
      → (h' : Heap) × (choose fuel d r a h ≡ some h') × OnlyFlags h h'
  unfolding choose touch_parents touch_children enable_all disable_all
  choose-OnlyFlags h r (node b) pu pd =
      (touch_node r b h, refl, OnlyFlags-if h _ b (λ x. r == x) (λ x. refl))
  choose-OnlyFlags h r (parent_nodes b) pu pd =
      (touch_parents r b h, refl, OnlyFlags-set_links b (parents h r) h)
  choose-OnlyFlags h r (ancestors b) pu pd =
      let (h', e, t) = recurse_all_ancestors_lem h r b up fuel pu (high r).0 in
      (h', e, OnlyFlags-Touched b (Above (parents h) r) h h' t)
  choose-OnlyFlags h r (child_nodes b) pu pd =
      (touch_children r b h, refl, OnlyFlags-set_links b (children h r) h)
  choose-OnlyFlags h r (descendents b) pu pd =
      let (h', e, t) = recurse_all_descendents_lem h r b down fuel pd (high r).1 in
      (h', e, OnlyFlags-Touched b (Above (children h) r) h h' t)
  choose-OnlyFlags h r (all true) pu pd = (
    disable_all d h,
    refl,
    OnlyFlags-if h _ true (λ x. contains_ref x (h d).nodes) (recurse_tree-flat true (h d).nodes h),
  )
  choose-OnlyFlags h r (all false) pu pd = (
    enable_all d h,
    refl,
    OnlyFlags-if h _ false (λ x. contains_ref x (h d).nodes)
        (recurse_tree-flat false (h d).nodes h),
  )

  -- Over a flow without cycles, with calls deeper than every rank, each session of choices from
  -- the menus comes to its end, and changes nothing but the flags of nodes.
  pub session-OnlyFlags :
      (choices : List (Ref × Action)) (h : Heap)
      → IsRanked up (parents h)
      → IsRanked down (children h)
      → (h' : Heap) × (session fuel d choices h ≡ some h') × OnlyFlags h h'
  unfolding session
  session-OnlyFlags [] h pu pd = (h, refl, OnlyFlags-refl h)
  session-OnlyFlags ((r, a) ∷ rest) h pu pd =
      let (h1, e1, p1) = choose-OnlyFlags h r a pu pd in
      let (h2, e2, p2) =
        session-OnlyFlags rest h1 (subst (IsRanked up) (sym (OnlyFlags-parents h h1 p1)) pu)
          (subst (IsRanked down) (sym (OnlyFlags-children h h1 p1)) pd) in
      (h2, rw (e1, e2), OnlyFlags-trans h h1 h2 p1 p2)
