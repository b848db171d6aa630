-- ===== src/Selection/Tests.antt =====
-- Sessions with the list and the graph of a flow with an embedded flow.
use azkaban_private.Prelude.{
  zero, suc, ◌==◌, ◌≡◌, refl, Bool, false, true, ◌||◌, none, some, List, [], ◌∷◌, arith, subst, All,
  length, ◌<◌,
}
use azkaban_private.Flow.{Ref, Heap, fresh}
use azkaban_private.Selection.{Views, click_job, toggle_menu, act_all, embedding, contains}
use azkaban_private.Selection.Opened.{IsNested, IsPath}
use azkaban_private.Selection.Highlighted.{IsShown}
use azkaban_private.Selection.Session.{act_all-IsShown}

-- The whole flow has the embedded flow at 1, which has the job at 2.
abbrev store : Heap
store zero = fresh "whole" "" [] (1 ∷ [])
store (suc zero) = record (fresh "sub" "flow" [] (2 ∷ [])) { parent = some 0 }
store (suc (suc zero)) = record (fresh "job" "command" [] []) { parent = some 1 }
store (suc (suc (suc r))) = fresh "" "" [] []

abbrev inside : Ref → Bool
inside r = r == 1 || r == 2

abbrev opened : Views
opened = record {
  selected = none;
  auto_pan_zoom = false;
  active = λ r. false;
  arrow_up = λ r. false;
  submenu_shown = λ r. false;
  drawn = λ r. r == 1;
  flow_drawn = λ r. false;
  expanded = λ r. false;
  marked = λ r. false;
  centered = [];
}

store-IsPath :
    (r : Ref)
    → inside r ≡ true
    → (l : List Ref) × IsPath store r l × All (λ p. inside p ≡ true) l × (length l < 2)
store-IsPath zero i = absurd (ground arith)
store-IsPath (suc zero) i = ([], refl, tt, omega arith)
store-IsPath (suc (suc zero)) i = (1 ∷ [], (refl, refl), (refl, tt), omega arith)
store-IsPath (suc (suc (suc r))) i = absurd (ground arith)

store-member :
    (r p : Ref) → inside r ≡ true → embedding store r ≡ some p → contains r (store p).nodes ≡ true
store-member zero p i e = absurd (ground arith)
store-member (suc zero) p i e = cc
store-member (suc (suc zero)) p i e =
    let same : 1 ≡ p = cc in subst (λ q. contains 2 (store q).nodes ≡ true) same refl
store-member (suc (suc (suc r))) p i e = absurd (ground arith)

opened-top : (r : Ref) → inside r ≡ true → embedding store r ≡ none → opened.drawn r ≡ true
opened-top zero i e = absurd (ground arith)
opened-top (suc zero) i e = refl
opened-top (suc (suc zero)) i e = cc
opened-top (suc (suc (suc r))) i e = absurd (ground arith)

store-IsNested : IsNested store inside 2
store-IsNested = record { path = store-IsPath; member = store-member }

opened-IsShown : IsShown store inside 2 opened
opened-IsShown = record {
  list = λ r. refl;
  graph = λ r. refl;
  arrows = λ r. refl;
  drawing = record { top = opened-top; below = λ r p i e f. cc };
  known = λ r e. cc;
}

act_all-IsShown_example :
    (w : Views) × (act_all store 2 (click_job 2 ∷ toggle_menu 1 ∷ click_job 2 ∷ []) opened ≡ some w)
    × IsShown store inside 2 w
act_all-IsShown_example =
    act_all-IsShown store inside 2 (click_job 2 ∷ toggle_menu 1 ∷ click_job 2 ∷ []) opened
      store-IsNested (refl, λ w e. (tt, λ w' e'. (refl, λ w'' e''. tt))) opened-IsShown
