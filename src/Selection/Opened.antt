-- ===== src/Selection/Opened.antt =====
-- propagateExpansion and expandFlow, and what is drawn and open after them.
use azkaban_private.Prelude.{
  ℕ, zero, suc, ◌<◌, ◌==◌, ◌≡◌, refl, sym, ap, ◌∙◌, if◌then◌else◌, Bool, true, ◌||◌, Option, none,
  some, List, [], ◌∷◌, length, All, arith, Bool-cases, inl, inr, ◌>>=◌,
}
use azkaban_private.Flow.{Ref, Heap}
use azkaban_private.Selection.{
  Views, set_flag, contains, has_nodes, handle_menu_expand, embedding, expand_flow, propagate_menu,
  propagate_flow,
}

pub set_flag-true : (r x : Ref) (flag : Ref → Bool) → flag x ≡ true → set_flag r true flag x ≡ true
set_flag-true r x flag e = ground arith

pub set_flag_self : (r : Ref) (b : Bool) (flag : Ref → Bool) → set_flag r b flag r ≡ b
set_flag_self r b flag = ground arith

contains-has_nodes : (r : Ref) (nodes : List Ref) → contains r nodes ≡ true → has_nodes nodes ≡ true
contains-has_nodes r [] e = e
contains-has_nodes r (_ ∷ _) e = refl

All-true :
    (f g : Ref → Bool) (l : List Ref)
    → ((x : Ref) → f x ≡ true → g x ≡ true)
    → All (λ x. f x ≡ true) l
    → All (λ x. g x ≡ true) l
All-true f g [] grows all = tt
All-true f g (x ∷ l) grows (e, all) = (grows x e, All-true f g l grows all)

module _ (h : Heap) where
  -- The embedded flows around a node, from the inside out.
  abbrev pub IsPath : Ref → List Ref → Type 0
  IsPath r [] = embedding h r ≡ none
  IsPath r (p ∷ l) = (embedding h r ≡ some p) × IsPath p l

  -- The nodes of the graph: they lie less deep than `depth`, and a node is one of those that the
  -- flow around it has.
  pub record IsNested (inside : Ref → Bool) (depth : ℕ) : Type 0 where
    pub path :
        (r : Ref)
        → inside r ≡ true
        → (l : List Ref) × IsPath r l × All (λ p. inside p ≡ true) l × (length l < depth)
    pub member :
        (r p : Ref) → inside r ≡ true → embedding h r ≡ some p → contains r (h p).nodes ≡ true

  pub propagate_menu_lem :
      (fuel : ℕ) (r : Ref) (l : List Ref) (v : Views)
      → IsPath r l
      → length l < fuel
      → ((x : Ref) → v.arrow_up x ≡ v.submenu_shown x)
      → (a s : (Ref → Bool)) × (propagate_menu h fuel r v
          ≡ some (record v { arrow_up = a; submenu_shown = s }))
        × ((x : Ref) → a x ≡ s x)
        × All (λ p. s p ≡ true) l
  unfolding propagate_menu
  propagate_menu_lem zero r l v path low agree = absurd (omega arith)
  propagate_menu_lem (suc fuel) r [] v path low agree =
      (v.arrow_up, v.submenu_shown, rw (path, propagate_menu) refl, agree, tt)
  propagate_menu_lem (suc fuel) r (p ∷ l) v (e, path) low agree =
      let (a, s, ran, agree', all) = propagate_menu_lem fuel p l v path (omega arith) agree in
      (
        set_flag p true a,
        set_flag p true s,
        rw (e, propagate_menu) (ap (λ o. o >>= λ w. some (handle_menu_expand p w)) ran),
        λ x. ap (λ b. if p == x then true else b) (agree' x),
        (set_flag_self p true s, All-true s (set_flag p true s) l (λ x. set_flag-true p x s) all),
      )

  -- What is drawn: the nodes of the outermost flow, and those of each flow that was drawn.
  pub record IsDrawn (inside flow_drawn drawn : Ref → Bool) : Type 0 where
    pub top : (r : Ref) → inside r ≡ true → embedding h r ≡ none → drawn r ≡ true
    pub below :
        (r p : Ref)
        → inside r ≡ true
        → embedding h r ≡ some p
        → flow_drawn p ≡ true
        → drawn r ≡ true

  abbrev pub Expands : (Ref → Bool) → Views → Ref → Option Views → Type 0
  Expands inside v p o =
      (e f d : (Ref → Bool)) × (o ≡ some (record v { expanded = e; flow_drawn = f; drawn = d }))
      × IsDrawn inside f d
      × ((x : Ref) → v.drawn x ≡ true → d x ≡ true)
      × ((x : Ref) → v.expanded x ≡ true → e x ≡ true)
      × (e p ≡ true)
      × (f p ≡ true)

  pub expand_flow_lem :
      (inside : Ref → Bool) (depth : ℕ) (p : Ref) (v : Views)
      → IsNested inside depth
      → IsDrawn inside v.flow_drawn v.drawn
      → v.drawn p ≡ true
      → has_nodes (h p).nodes ≡ true
      → Expands inside v p (expand_flow h p v)
  unfolding expand_flow
  expand_flow_lem inside depth p v nested is_drawn here embeds =
      let shown : Ref → Bool =
        if v.flow_drawn p then v.drawn else λ x. contains x (h p).nodes || v.drawn x in
      (
        set_flag p true v.expanded,
        set_flag p true v.flow_drawn,
        shown,
        rw (here, embeds) refl,
        record {
          top = λ r i e. grows r (is_drawn.top r i e);
          below = λ r q i e flagged. elim (Bool-cases (p == q)) [
            | inl same ↦ fresh r i (e ∙ ap some (sym (ground arith)))
            | inr apart ↦ grows r (is_drawn.below r q i e (ground arith))
          ];
        },
        grows,
        λ x. set_flag-true p x v.expanded,
        set_flag_self p true v.expanded,
        set_flag_self p true v.flow_drawn,
      )
    where
      grows :
          (x : Ref)
          → v.drawn x ≡ true
          → (if v.flow_drawn p then v.drawn else λ y. contains y (h p).nodes || v.drawn y) x ≡ true
      grows x e = elim (Bool-cases (v.flow_drawn p)) [
        | inl f ↦ rw f e
        | inr f ↦ rw f (ground (arith, e))
      ]

      fresh :
          (x : Ref)
          → inside x ≡ true
          → embedding h x ≡ some p
          → (if v.flow_drawn p then v.drawn else λ y. contains y (h p).nodes || v.drawn y) x ≡ true
      fresh x i e = elim (Bool-cases (v.flow_drawn p)) [
        | inl f ↦ rw f (is_drawn.below x p i e f)
        | inr f ↦ rw f (let m = nested.member x p i e in ground (arith, m))
      ]

  pub propagate_flow_lem :
      (inside : Ref → Bool) (depth fuel : ℕ) (r : Ref) (l : List Ref) (v : Views)
      → IsNested inside depth
      → IsDrawn inside v.flow_drawn v.drawn
      → inside r ≡ true
      → IsPath r l
      → All (λ p. inside p ≡ true) l
      → length l < fuel
      → (e f d : (Ref → Bool)) × (propagate_flow h fuel r v
          ≡ some (record v { expanded = e; flow_drawn = f; drawn = d }))
        × IsDrawn inside f d
        × ((x : Ref) → v.drawn x ≡ true → d x ≡ true)
        × All (λ p. e p ≡ true) l
        × (d r ≡ true)
  unfolding propagate_flow
  propagate_flow_lem inside depth zero r l v nested is_drawn i path are_inside low =
      absurd (omega arith)
  propagate_flow_lem inside depth (suc fuel) r [] v nested is_drawn i path are_inside low = (
    v.expanded,
    v.flow_drawn,
    v.drawn,
    rw (path, propagate_flow) refl,
    is_drawn,
    λ x e. e,
    tt,
    is_drawn.top r i path,
  )
  propagate_flow_lem inside depth (suc fuel) r (p ∷ l) v nested is_drawn i (e, path) (j, are_inside)
        low =
      let (e1, f1, d1, ran, is_drawn1, grows1, all1, here1) =
        propagate_flow_lem inside depth fuel p l v nested is_drawn j path are_inside
          (omega arith) in
      let w = record v { expanded = e1; flow_drawn = f1; drawn = d1 } in
      let (e2, f2, d2, ran', is_drawn2, grows2, kept, open_p, flow_p) =
        expand_flow_lem inside depth p w nested is_drawn1 here1
          (contains-has_nodes r (h p).nodes (nested.member r p i e)) in
      (
        e2,
        f2,
        d2,
        rw (e, propagate_flow) (ap (λ o. o >>= expand_flow h p) ran ∙ ran'),
        is_drawn2,
        λ x known. grows2 x (grows1 x known),
        (open_p, All-true e1 e2 l kept all1),
        is_drawn2.below r p i e flow_p,
      )
