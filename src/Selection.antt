-- ===== src/Selection.antt =====
-- The selection of a job, in view/job-list.js and view/svg-graph.js: both views show the node that
-- the model has as `selected`, and open the embedded flows around it.
pub mod Opened
pub mod Highlighted
pub mod Session
mod Tests
use azkaban_private.Prelude.{
  ℕ, zero, suc, ◌==◌, if◌then◌else◌, Bool, false, true, not, Option, none, some, List, [], ◌∷◌,
  ◌++◌, str_eq, ◌>>=◌, ◌||◌, ◌&&◌,
}
use azkaban_private.Flow.{Ref, Heap}

-- The model's `selected` and `autoPanZoom`, and what the views hold of each node: in the list the
-- class "active", the arrow and the submenu; in the graph whether it is drawn (it has a `gNode`),
-- whether its flow was drawn (`innerG.expandedFlow`), `expanded`, and the class "selected"; and the
-- nodes that were moved to the centre.
pub record Views : Type 0 where
  pub selected : Option Ref
  pub auto_pan_zoom : Bool
  pub active : Ref → Bool
  pub arrow_up : Ref → Bool
  pub submenu_shown : Ref → Bool
  pub drawn : Ref → Bool
  pub flow_drawn : Ref → Bool
  pub expanded : Ref → Bool
  pub marked : Ref → Bool
  pub centered : List Ref

abbrev pub set_flag : Ref → Bool → (Ref → Bool) → Ref → Bool
set_flag r b flag x = if r == x then b else flag x

abbrev pub is_ref : Ref → Option Ref → Bool
is_ref r none = false
is_ref r (some s) = s == r

-- `handleMenuExpand` and `handleMenuCollapse`
abbrev pub handle_menu_expand : Ref → Views → Views
handle_menu_expand r v = record v {
  arrow_up = set_flag r true v.arrow_up;
  submenu_shown = set_flag r true v.submenu_shown;
}

abbrev pub handle_menu_collapse : Ref → Views → Views
handle_menu_collapse r v = record v {
  arrow_up = set_flag r false v.arrow_up;
  submenu_shown = set_flag r false v.submenu_shown;
}

-- `handleToggleMenuExpand`
unfoldable pub handle_toggle_menu_expand : Ref → Views → Views
handle_toggle_menu_expand r v =
    if v.submenu_shown r then handle_menu_collapse r v else handle_menu_expand r v

-- `handleAutoPanZoom`, for a button whose class says what the model has.
abbrev pub handle_auto_pan_zoom : Views → Views
handle_auto_pan_zoom v = record v { auto_pan_zoom = not v.auto_pan_zoom }

abbrev pub contains : Ref → List Ref → Bool
contains r [] = false
contains r (x ∷ xs) = let rest = contains r xs in x == r || rest

abbrev pub has_nodes : List Ref → Bool
has_nodes [] = false
has_nodes (_ ∷ _) = true

abbrev pub deactivate : Option Ref → Views → Views
deactivate none v = v
deactivate (some p) v = record v { active = set_flag p false v.active }

-- What the user does.
pub data Deed : Type 0 where
  click_job : Ref → Deed
  click_graph : Ref → Deed
  toggle_menu : Ref → Deed
  expand : Ref → Deed
  collapse : Ref → Deed
  toggle_pan : Deed

module _ (h : Heap) where
  -- The node that embeds the flow of a node; the data of the whole flow has no type.
  abbrev pub embedding : Ref → Option Ref
  embedding r = elim (h r).parent [
    | none ↦ none
    | some p ↦ if str_eq (h p).type "" then none else some p
  ]

  -- `expandFlow`; the first time the nodes of the flow are drawn. `none` is the TypeError for a node
  -- that is not drawn, and that of calculateBounds for one that embeds no nodes. The sizes and places
  -- are left out.
  unfoldable pub expand_flow : Ref → Views → Option Views
  expand_flow r v =
      let shown = if v.flow_drawn r then v.drawn else λ x. contains x (h r).nodes || v.drawn x in
      if v.drawn r && has_nodes (h r).nodes
      then some (record v {
        expanded = set_flag r true v.expanded;
        flow_drawn = set_flag r true v.flow_drawn;
        drawn = shown;
      })
      else none

  -- `collapseFlow`
  unfoldable pub collapse_flow : Ref → Views → Option Views
  collapse_flow r v =
      if v.drawn r then some (record v { expanded = set_flag r false v.expanded }) else none

  -- `propagateExpansion` of the list and of the graph. The fuel bounds the depth of the calls; `none`
  -- is too little of it, or in the graph a TypeError.
  unfoldable pub propagate_menu : ℕ → Ref → Views → Option Views
  propagate_menu zero r v = none
  propagate_menu (suc fuel) r v = elim (embedding r) [
    | none ↦ some v
    | some p ↦ propagate_menu fuel p v >>= λ w. some (handle_menu_expand p w)
  ]

  unfoldable pub propagate_flow : ℕ → Ref → Views → Option Views
  propagate_flow zero r v = none
  propagate_flow (suc fuel) r v = elim (embedding r) [
    | none ↦ some v
    | some p ↦ propagate_flow fuel p v >>= expand_flow p
  ]

  -- `handleSelectionChange` of the list.
  unfoldable pub handle_selection_change : ℕ → Option Ref → Option Ref → Views → Option Views
  handle_selection_change fuel previous none v = some (deactivate previous v)
  handle_selection_change fuel previous (some c) v =
      let v' = deactivate previous v in
      propagate_menu fuel c (record v' { active = set_flag c true v'.active })

  -- The parts of `changeSelected` of the graph: `none` is the TypeError of removeClass and addClass
  -- for a node that is not drawn.
  unfoldable pub unmark : Option Ref → Views → Option Views
  unmark none v = some v
  unmark (some p) v =
      if v.drawn p then some (record v { marked = set_flag p false v.marked }) else none

  unfoldable pub mark : Ref → Views → Option Views
  mark c v =
      if v.drawn c
      then some (record v {
        marked = set_flag c true v.marked;
        centered = if v.auto_pan_zoom then v.centered ++ c ∷ [] else v.centered;
      })
      else none

  unfoldable pub change_selected : ℕ → Option Ref → Option Ref → Views → Option Views
  change_selected fuel previous none v = unmark previous v
  change_selected fuel previous (some c) v =
      unmark previous v >>= λ w. propagate_flow fuel c w >>= mark c

  -- The model gets a new `selected`, and the handlers of both views are called.
  unfoldable pub select : ℕ → Option Ref → Views → Option Views
  select fuel current v =
      handle_selection_change fuel v.selected current (record v { selected = current })
      >>= change_selected fuel v.selected current

  -- `handleJobClick`, and the handler of a click on a node of the graph, which does the same.
  unfoldable pub click_node : ℕ → Ref → Views → Option Views
  click_node fuel r v = select fuel (if is_ref r v.selected then none else some r) v

  unfoldable pub act : ℕ → Deed → Views → Option Views
  act fuel (click_job r) v = click_node fuel r v
  act fuel (click_graph r) v = click_node fuel r v
  act fuel (toggle_menu r) v = some (handle_toggle_menu_expand r v)
  act fuel (expand r) v = expand_flow r v
  act fuel (collapse r) v = collapse_flow r v
  act fuel toggle_pan v = some (handle_auto_pan_zoom v)

  unfoldable pub act_all : ℕ → List Deed → Views → Option Views
  act_all fuel [] v = some v
  act_all fuel (deed ∷ deeds) v = act fuel deed v >>= act_all fuel deeds
