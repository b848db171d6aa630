-- ===== src/Selection/Highlighted.antt =====
-- The highlights of the list and of the graph after a click.
use azkaban_private.Prelude.{
  ℕ, ◌≡◌, refl, ap, subst, ◌∙◌, if◌then◌else◌, Bool, false, true, Option, none, some, List, [], ◌∷◌,
  ◌++◌, All, arith, Bool-cases, inl, inr, ◌>>=◌,
}
use azkaban_private.Flow.{Ref, Heap}
use azkaban_private.Selection.{
  Views, set_flag, is_ref, propagate_menu, propagate_flow, deactivate, handle_selection_change,
  unmark, mark, change_selected, select, click_node,
}
use azkaban_private.Selection.Opened.{
  IsPath, IsNested, IsDrawn, propagate_menu_lem, propagate_flow_lem,
}

-- The flag of the node that was selected is taken away.
abbrev off : Option Ref → (Ref → Bool) → Ref → Bool
off none flag = flag
off (some p) flag = set_flag p false flag

off_all :
    (o : Option Ref) (flag : Ref → Bool)
    → ((x : Ref) → flag x ≡ is_ref x o)
    → (x : Ref) → off o flag x ≡ false
off_all none flag agrees x = agrees x
off_all (some p) flag agrees x = let e = agrees x in ground (arith, e)

on_one :
    (c : Ref) (flag : Ref → Bool)
    → ((x : Ref) → flag x ≡ false)
    → (x : Ref) → set_flag c true flag x ≡ is_ref x (some c)
on_one c flag none_set x = let e = none_set x in ground (arith, e)

module _ (h : Heap) (inside : Ref → Bool) (depth : ℕ) where
  -- In the list and in the graph exactly the selected node is highlighted, each arrow says whether
  -- its submenu is shown, and the selected node and those of each flow that was drawn are drawn.
  pub record IsShown (v : Views) : Type 0 where
    pub list : (r : Ref) → v.active r ≡ is_ref r v.selected
    pub graph : (r : Ref) → v.marked r ≡ is_ref r v.selected
    pub arrows : (r : Ref) → v.arrow_up r ≡ v.submenu_shown r
    pub drawing : IsDrawn h inside v.flow_drawn v.drawn
    pub known : (r : Ref) → v.selected ≡ some r → (inside r ≡ true) × (v.drawn r ≡ true)

  -- The flows around the selected node are open in both views.
  abbrev pub IsOpen : Views → Option Ref → Type 0
  IsOpen v none = Unit
  IsOpen v (some c) =
      (l : List Ref) × IsPath h c l
      × All (λ p. v.submenu_shown p ≡ true) l
      × All (λ p. v.expanded p ≡ true) l

  abbrev Selects : Option Ref → Option Views → Type 0
  Selects current o =
      (w : Views) × (o ≡ some w) × IsShown w × (w.selected ≡ current) × IsOpen w current

  deactivate-off :
      (o : Option Ref) (v : Views) → deactivate o v ≡ record v { active = off o v.active }
  deactivate-off none v = refl
  deactivate-off (some p) v = refl

  unmark-off :
      (o : Option Ref) (v : Views)
      → ((r : Ref) → o ≡ some r → v.drawn r ≡ true)
      → unmark h o v ≡ some (record v { marked = off o v.marked })
  unfolding unmark
  unmark-off none v known = refl
  unmark-off (some p) v known = rw (known p refl) refl

  select-none :
      (o : Option Ref) (v : Views)
      → IsShown (record v { selected = o })
      → Selects none (select h depth none (record v { selected = o }))
  unfolding select handle_selection_change change_selected
  select-none o v s =
      let w = record v { selected = none; active = off o v.active; marked = off o v.marked } in
      (
        w,
        ap (λ x. unmark h o x) (deactivate-off o (record v { selected = none }))
            ∙ unmark-off o (record v { selected = none; active = off o v.active })
                (λ r e. (s.known r e).1),
        record {
          list = off_all o v.active s.list;
          graph = off_all o v.marked s.graph;
          arrows = s.arrows;
          drawing = s.drawing;
          known = λ r e. cc;
        },
        refl,
        tt,
      )

  select-some :
      (o : Option Ref) (c : Ref) (v : Views)
      → IsNested h inside depth
      → inside c ≡ true
      → IsShown (record v { selected = o })
      → Selects (some c) (select h depth (some c) (record v { selected = o }))
  unfolding select handle_selection_change change_selected mark
  select-some o c v nested i s =
      let (l, path, are_inside, low) = nested.path c i in
      let listed = record v { selected = some c; active = set_flag c true (off o v.active) } in
      let (a, m, ran, agree, opened) = propagate_menu_lem h depth c l listed path low s.arrows in
      let menus = record listed { arrow_up = a; submenu_shown = m } in
      let unmarked = record menus { marked = off o v.marked } in
      let (e, f, d, ran', is_drawn, grows, expanded, here) =
        propagate_flow_lem h inside depth depth c l unmarked nested s.drawing i path are_inside
          low in
      let last = record unmarked {
        expanded = e;
        flow_drawn = f;
        drawn = d;
        marked = set_flag c true (off o v.marked);
        centered = if v.auto_pan_zoom then v.centered ++ c ∷ [] else v.centered;
      } in
      (
        last,
        ap
              (λ x.
                propagate_menu h depth c (record x { active = set_flag c true x.active })
                >>= change_selected h depth o (some c))
              (deactivate-off o (record v { selected = some c }))
            ∙ ap (λ x. x >>= change_selected h depth o (some c)) ran
            ∙ ap (λ x. x >>= λ w. propagate_flow h depth c w >>= mark h c)
                (unmark-off o menus (λ r q. (s.known r q).1))
            ∙ ap (λ x. x >>= mark h c) ran'
            ∙ rw here refl,
        record {
          list = on_one c (off o v.active) (off_all o v.active s.list);
          graph = on_one c (off o v.marked) (off_all o v.marked s.graph);
          arrows = agree;
          drawing = is_drawn;
          known = λ r q.
              let same : c ≡ r = cc in
              (subst (λ x. inside x ≡ true) same i, subst (λ x. d x ≡ true) same here);
        },
        refl,
        (l, path, opened, expanded),
      )

  -- A click on a node of the graph, in either view, selects the node or, if it is selected, takes the
  -- selection away; it ends without a TypeError, both views then highlight exactly what is selected,
  -- and each flow around a node that gets selected is open in both.
  pub click_node_lem :
      (r : Ref) (v : Views)
      → IsNested h inside depth
      → inside r ≡ true
      → IsShown v
      → let current : Option Ref = if is_ref r v.selected then none else some r in
        (w : Views) × (click_node h depth r v ≡ some w)
        × IsShown w
        × (w.selected ≡ current)
        × IsOpen w current
  unfolding click_node
  click_node_lem r v nested i s = elim (Bool-cases (is_ref r v.selected)) [
    | inl e ↦ rw e (select-none v.selected v s)
    | inr e ↦ rw e (select-some v.selected r v nested i s)
  ]
