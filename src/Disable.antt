-- ===== src/Disable.antt =====
-- view/flow-execute-dialog.js: which nodes of a flow are disabled, by the menus of the graph in the
-- dialog that executes it, and what is sent to the server.
pub mod Sweep
pub mod Cycle
pub mod Ancestors
pub mod Gather
pub mod Menu
pub mod Finished
pub mod Again
mod Tests
use azkaban_private.Prelude.{
  ℕ, zero, suc, ◌==◌, ◌≡◌, refl, if◌then◌else◌, Bool, false, true, ◌&&◌, ◌||◌, Option, none, some,
  List, [], ◌∷◌, ◌++◌, arith, String, str_eq, lookup, insert, ◌>>=◌,
}
use azkaban_private.Status
use azkaban_private.Status.{Status, is}
use azkaban_private.Flow.{Ref, Links, Edge, Node, Heap, modify, is_flow, links_of}

-- `node.disabled = disable`
abbrev pub with_disabled : Bool → Node → Node
with_disabled d n = record n { disabled = d }

abbrev pub set_disabled : Heap → Ref → Bool → Heap
set_disabled h r d = modify h r (with_disabled d)

-- `node.status == s`; an absent status equals none of them.
abbrev pub has_status : Node → Status → Bool
has_status n s = elim n.status [ none ↦ false | some t ↦ is t s ]

-- What the ladder of `disableFinishedJobs` assigns to one node.
unfoldable pub finish : Node → Node
finish n =
    if has_status n Status.disabled || has_status n Status.skipped
    then record n { status = some Status.ready; disabled = true }
    else if has_status n Status.succeeded || has_status n Status.running
    then record n { disabled = true }
    else if has_status n Status.cancelled
    then record n { status = some Status.ready; disabled = false }
    else record n { disabled = false }

-- The last branch of the ladder, which alone goes on into an embedded flow.
abbrev pub goes_on : Node → Bool
goes_on n =
    if has_status n Status.disabled || has_status n Status.skipped
    then false
    else if has_status n Status.succeeded || has_status n Status.running
    then false
    else if has_status n Status.cancelled
    then false
    else is_flow n

-- A loop over nodes, each handled by a step that may run out of fuel.
unfoldable pub for_nodes : (Ref → Heap → Option Heap) → List Ref → Heap → Option Heap
for_nodes step [] h = some h
for_nodes step (r ∷ rs) h = step r h >>= for_nodes step rs

unfoldable pub disable_finished_node : (List Ref → Heap → Option Heap) → Ref → Heap → Option Heap
disable_finished_node rec r h =
    let h' = modify h r finish in if goes_on (h r) then rec (h' r).nodes h' else some h'

-- `disableFinishedJobs`, for `data.nodes`. The fuel bounds the depth of the embedded flows.
unfoldable pub disable_finished_jobs : ℕ → List Ref → Heap → Option Heap
disable_finished_jobs zero rs h = none
disable_finished_jobs (suc fuel) rs h =
    for_nodes (disable_finished_node (disable_finished_jobs fuel)) rs h

-- `recurseTree` where `recurse` is false or absent.
unfoldable pub set_all : Bool → List Ref → Heap → Heap
set_all d [] h = h
set_all d (r ∷ rs) h = set_all d rs (set_disabled h r d)

-- `recurseTree`: its inner call leaves `recurse` out, so it goes one level down at most.
unfoldable pub recurse_tree : Bool → Bool → List Ref → Heap → Heap
recurse_tree d recurse [] h = h
recurse_tree d recurse (r ∷ rs) h =
    let h' = set_disabled h r d in
    recurse_tree d recurse rs (if is_flow (h' r) && recurse then set_all d (h' r).nodes h' else h')

-- `enableAll` and `disableAll`, for the flow at `d`.
unfoldable pub enable_all : Ref → Heap → Heap
unfolding recurse_tree
enable_all d h = recurse_tree false false (h d).nodes h

unfoldable pub disable_all : Ref → Heap → Heap
unfolding recurse_tree
disable_all d h = recurse_tree true false (h d).nodes h

abbrev pub touch_node : Ref → Bool → Heap → Heap
touch_node r d h = set_disabled h r d

-- The loops of `touchParents` and `touchChildren`.
unfoldable pub set_links : Bool → Links → Heap → Heap
set_links d [] h = h
set_links d ((k, r) ∷ l) h = set_links d l (set_disabled h r d)

unfoldable pub touch_parents : Ref → Bool → Heap → Heap
touch_parents r d h = set_links d (links_of (h r).in_nodes) h

unfoldable pub touch_children : Ref → Bool → Heap → Heap
touch_children r d h = set_links d (links_of (h r).out_nodes) h

-- The loop of `recurseAllAncestors` and `recurseAllDescendents`, with their call of themselves.
unfoldable pub sweep_links : (Ref → Heap → Option Heap) → Bool → Links → Heap → Option Heap
sweep_links rec d [] h = some h
sweep_links rec d ((k, r) ∷ l) h = rec r (set_disabled h r d) >>= sweep_links rec d l

-- Both functions, along `inNodes` or `outNodes`. The fuel bounds the depth of the calls.
unfoldable pub sweep : (Node → Option Links) → Bool → ℕ → Ref → Heap → Option Heap
sweep field d zero r h = none
sweep field d (suc fuel) r h = sweep_links (sweep field d fuel) d (links_of (field (h r))) h

unfoldable pub recurse_all_ancestors : ℕ → Ref → Bool → Heap → Option Heap
recurse_all_ancestors fuel r d h = sweep (λ n. n.in_nodes) d fuel r h

unfoldable pub recurse_all_descendents : ℕ → Ref → Bool → Heap → Option Heap
recurse_all_descendents fuel r d h = sweep (λ n. n.out_nodes) d fuel r h

-- What `gatherDisabledNodes` collects: the id of a disabled node, or the id of an embedded flow
-- with what is disabled in it.
mutual
  pub data Entry : Type 0 where
    job : String → Entry
    flow : String → Entries → Entry

  pub data Entries : Type 0 where
    nil : Entries
    cons : Entry → Entries → Entries

-- An embedded flow is pushed only if something in it is disabled.
abbrev pub flow_entry : String → Entries → Option Entry
flow_entry i nil = none
flow_entry i (cons e es) = some (flow i (cons e es))

-- What the loop's body pushes for one node.
unfoldable pub gather_node : (List Ref → Option Entries) → Heap → Ref → Option (Option Entry)
gather_node rec h r =
    if (h r).disabled
    then some (some (job (h r).id))
    else if is_flow (h r)
    then (rec (h r).nodes >>= λ array. some (flow_entry (h r).id array))
    else some none

abbrev pub push : Option Entry → Entries → Entries
push none rest = rest
push (some e) rest = cons e rest

unfoldable pub gather_list : (List Ref → Option Entries) → Heap → List Ref → Option Entries
gather_list rec h [] = some nil
gather_list rec h (r ∷ rs) =
    gather_node rec h r >>= λ e. gather_list rec h rs >>= λ rest. some (push e rest)

-- `gatherDisabledNodes`, for `data.nodes`.
unfoldable pub gather_disabled_nodes : ℕ → Heap → List Ref → Option Entries
gather_disabled_nodes zero h rs = none
gather_disabled_nodes (suc fuel) h rs = gather_list (gather_disabled_nodes fuel h) h rs

-- What a click on "execute job" gives: the store, or the TypeError for a job that the flow lacks.
pub data Shown : Type 0 where
  shown : Heap → Shown
  type_error out_of_fuel : Shown

abbrev pub shown_or : Option Heap → Shown
shown_or none = out_of_fuel
shown_or (some h) = shown h

-- `showExecuteJob`: disable all nodes, then enable the job and, on demand, its ancestors.
unfoldable pub show_execute_job : ℕ → Ref → String → Bool → Heap → Shown
show_execute_job fuel d job_id with_dep h =
    let h' = disable_all d h in
    elim (lookup job_id (h d).node_map) [
      | none ↦ type_error
      | some r ↦
          let h'' = touch_node r false h' in
          if with_dep then shown_or (recurse_all_ancestors fuel r false h'') else shown h''
    ]
