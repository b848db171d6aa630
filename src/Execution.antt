-- ===== src/Execution.antt =====
-- view/exflow.js: the page of one execution, which asks the server for updates of its graph.
pub mod Update
pub mod Result
pub mod Poll
pub mod Buttons
mod Tests
use azkaban_private.Prelude.{
  ℕ, zero, suc, ◌+◌, ◌==◌, ◌≡◌, refl, if◌then◌else◌, Bool, false, true, ◌&&◌, ◌||◌, not, Option,
  none, some, List, [], ◌∷◌, ◌++◌, lookup,
}
use azkaban_private.Status
use azkaban_private.Status.{Status, is}
use azkaban_private.Flow.{Ref, Links, Node, Heap, Stamp, missing, unset, at_ms, modify}
use azkaban_private.GraphModel.{Outcome, done, type_error, out_of_fuel, and_then}
use azkaban_private.Disable.{has_status}

-- The buttons of the page's head.
pub data Button : Type 0 where
  cancel execute pause resume retry : Button

-- The buttons that `handleFlowStatusChange` shows for the status of the flow; it hides all others.
abbrev pub buttons_shown : Status → List Button
buttons_shown Status.succeeded = execute ∷ []
buttons_shown Status.preparing = cancel ∷ []
buttons_shown Status.failed = execute ∷ []
buttons_shown Status.failed_finishing = cancel ∷ retry ∷ []
buttons_shown Status.running = cancel ∷ pause ∷ []
buttons_shown Status.paused = cancel ∷ resume ∷ []
buttons_shown Status.waiting = cancel ∷ []
buttons_shown Status.killed = execute ∷ []
buttons_shown _ = []

-- The fields that `updateGraph` copies from the update `u` to `n`.
abbrev pub with_update : Node → Node → Node
with_update u n = record n {
  start_time = u.start_time;
  end_time = u.end_time;
  update_time = u.update_time;
  status = u.status;
}

abbrev pub with_changed_node : Ref → Node → Node
with_changed_node d u = record u { changed_node = some d }

-- The assignments of `updateGraph` for one pair of objects.
unfoldable pub assign_update : Ref → Ref → Heap → Heap
assign_update d u h = modify (modify h d (with_update (h u))) u (with_changed_node d)

-- The loop over `update.nodes`: the node of the same id is looked up, and where there is none, the
-- call throws for it.
unfoldable pub update_nodes : (Ref → Ref → Heap → Outcome) → Links → List Ref → Heap → Outcome
update_nodes update node_map [] h = done h
update_nodes update node_map (u ∷ us) h = elim (lookup (h u).id node_map) [
  | none ↦ type_error
  | some old ↦ and_then (update old u h) (update_nodes update node_map us)
]

-- `updateGraph`. The fuel bounds the depth of the embedded flows.
unfoldable pub update_graph : ℕ → Ref → Ref → Heap → Outcome
update_graph zero d u h = out_of_fuel
update_graph (suc fuel) d u h =
    let h' = assign_update d u h in update_nodes (update_graph fuel) (h d).node_map (h' u).nodes h'

-- What a timer of the page runs.
pub data Task : Type 0 where
  updater log_updater final_update : Task

-- `keepRunning`
unfoldable pub keep_running : Status → Bool
keep_running s = not (is s Status.succeeded) && not (is s Status.failed) && not (is s Status.killed)

-- `updaterFunction`, for the status of the graph when it is called: whether it asks for an update,
-- and the timers that it sets. The request is asynchronous, so the status is still the same when
-- it is read again.
unfoldable pub updater_function : Status → Bool × List Task
updater_function s =
    if keep_running s
    then (
      true,
      if is s Status.unknown || is s Status.waiting || is s Status.preparing
          then updater ∷ []
          else if not (is s Status.succeeded) && not (is s Status.failed)
          then updater ∷ []
          else final_update ∷ [],
    )
    else (false, [])

-- `logUpdaterFunction`: it fetches the log in either case.
unfoldable pub log_updater_function : Status → List Task
log_updater_function s = if keep_running s then log_updater ∷ [] else []

-- The page: the status of its graph, the number of updates asked for and not answered, the timers,
-- and how often the log was fetched.
pub record Page : Type 0 where
  pub status : Status
  pub asked : ℕ
  pub timers : List Task
  pub log_fetches : ℕ

-- A timer fires. `updateStatus(0)` is a request as any other.
unfoldable pub run_task : Task → Page → Page
run_task updater p =
    let (asks, set) = updater_function p.status in
    record p { asked = if asks then suc p.asked else p.asked; timers = set ++ p.timers }
run_task log_updater p = record p {
  timers = log_updater_function p.status ++ p.timers;
  log_fetches = suc p.log_fetches;
}
run_task final_update p = record p { asked = suc p.asked }

-- The success of the first request, which runs both functions.
abbrev pub opened : Status → Page
opened s =
    run_task log_updater
      (run_task updater (record { status = s; asked = 0; timers = []; log_fetches = 0 }))

-- An answer without `updateTime` changes nothing; else the flow gets its status.
unfoldable pub answered : Option Status → Page → Page
answered none p = p
answered (some s) p = record p { status = s }
