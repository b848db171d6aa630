-- ===== src/Selection/Session.antt =====
-- Sessions with the list and the graph.
use azkaban_private.Prelude.{
  ℕ, ◌==◌, ◌≡◌, refl, ap, ◌∙◌, if◌then◌else◌, Bool, false, true, Option, some, List, [], ◌∷◌,
  Bool-cases, inl, inr, ◌>>=◌,
}
use azkaban_private.Flow.{Ref, Heap}
use azkaban_private.Selection.{
  Views, set_flag, has_nodes, handle_toggle_menu_expand, collapse_flow, Deed, click_job,
  click_graph, toggle_menu, expand, collapse, toggle_pan, act, act_all,
}
use azkaban_private.Selection.Opened.{IsNested, expand_flow_lem}
use azkaban_private.Selection.Highlighted.{IsShown, click_node_lem}

module _ (h : Heap) (inside : Ref → Bool) (depth : ℕ) where
  -- Nodes of the graph are clicked, and flows with nodes expanded that are drawn.
  abbrev pub IsDeed : Views → Deed → Type 0
  IsDeed v (click_job r) = inside r ≡ true
  IsDeed v (click_graph r) = inside r ≡ true
  IsDeed v (expand r) = (v.drawn r ≡ true) × (has_nodes (h r).nodes ≡ true)
  IsDeed v (collapse r) = v.drawn r ≡ true
  IsDeed v deed = Unit

  abbrev pub AreDeeds : Views → List Deed → Type 0
  AreDeeds v [] = Unit
  AreDeeds v (deed ∷ deeds) =
      IsDeed v deed × ((w : Views) → act h depth deed v ≡ some w → AreDeeds w deeds)

  abbrev Acts : Option Views → Type 0
  Acts o = (w : Views) × (o ≡ some w) × IsShown h inside depth w

  toggle-IsShown :
      (r : Ref) (v : Views)
      → IsShown h inside depth v
      → IsShown h inside depth (handle_toggle_menu_expand r v)
  unfolding handle_toggle_menu_expand
  toggle-IsShown r v s = elim (Bool-cases (v.submenu_shown r)) [
    | inl e ↦ rw e (turned false)
    | inr e ↦ rw e (turned true)
  ]
    where
      turned :
          (b : Bool)
          → IsShown h inside depth (record v {
            arrow_up = set_flag r b v.arrow_up;
            submenu_shown = set_flag r b v.submenu_shown;
          })
      turned b = record {
        list = s.list;
        graph = s.graph;
        arrows = λ x. ap (λ c. if r == x then b else c) (s.arrows x);
        drawing = s.drawing;
        known = s.known;
      }

  act-IsShown :
      (deed : Deed) (v : Views)
      → IsNested h inside depth
      → IsDeed v deed
      → IsShown h inside depth v
      → Acts (act h depth deed v)
  unfolding act collapse_flow
  act-IsShown (click_job r) v nested i s =
      let (w, e, shown, _, _) = click_node_lem h inside depth r v nested i s in (w, e, shown)
  act-IsShown (click_graph r) v nested i s =
      let (w, e, shown, _, _) = click_node_lem h inside depth r v nested i s in (w, e, shown)
  act-IsShown (toggle_menu r) v nested i s =
      (handle_toggle_menu_expand r v, refl, toggle-IsShown r v s)
  act-IsShown (expand r) v nested i s =
      let (e, f, d, ran, is_drawn, grows, _, _, _) =
        expand_flow_lem h inside depth r v nested s.drawing i.0 i.1 in
      (
        record v { expanded = e; flow_drawn = f; drawn = d },
        ran,
        record {
          list = s.list;
          graph = s.graph;
          arrows = s.arrows;
          drawing = is_drawn;
          known = λ x q. let (j, here) = s.known x q in (j, grows x here);
        },
      )
  act-IsShown (collapse r) v nested i s = (
    record v { expanded = set_flag r false v.expanded },
    rw i refl,
    record {
      list = s.list;
      graph = s.graph;
      arrows = s.arrows;
      drawing = s.drawing;
      known = s.known;
    },
  )
  act-IsShown toggle_pan v nested i s = (
    _,
    refl,
    record {
      list = s.list;
      graph = s.graph;
      arrows = s.arrows;
      drawing = s.drawing;
      known = s.known;
    },
  )

  -- Through every session in which nodes of the graph are clicked, menus toggled, flows that are drawn
  -- and have nodes expanded, and drawn ones collapsed, no TypeError is thrown; in the list and in the graph exactly the
  -- selected node is highlighted, each arrow says whether its submenu is shown, and what is selected
  -- is drawn.
  pub act_all-IsShown :
      (deeds : List Deed) (v : Views)
      → IsNested h inside depth
      → AreDeeds v deeds
      → IsShown h inside depth v
      → (w : Views) × (act_all h depth deeds v ≡ some w) × IsShown h inside depth w
  unfolding act_all
  act_all-IsShown [] v nested are s = (v, refl, s)
  act_all-IsShown (deed ∷ deeds) v nested (is_deed, are) s =
      let (w, e, s') = act-IsShown deed v nested is_deed s in
      let (last, e', s'') = act_all-IsShown deeds w nested (are w e) s' in
      (last, ap (λ o. o >>= act_all h depth deeds) e ∙ e', s'')
