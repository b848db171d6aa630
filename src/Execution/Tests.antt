-- ===== src/Execution/Tests.antt =====
-- An execution of one job, its updates, and the theorems about its page there.
use azkaban_private.Prelude.{
  ℕ, zero, suc, ◌≡◌, refl, subst, ◌<◌, ◌≤◌, Bool, false, true, Option, none, some, List, [], ◌∷◌,
  arith, String, lookup, All, ◌⊎◌, Bool-cases, inl, inr, str_eq,
}
use azkaban_private.Status.{Status}
use azkaban_private.Flow.{Ref, Heap, fresh}
use azkaban_private.GraphModel.{Outcome, done, type_error}
use azkaban_private.Execution.{
  updater, log_updater, updater_function, log_updater_function, keep_running, Page, run_task,
  opened, answered, update_graph, update_nodes, assign_update,
}
use azkaban_private.Execution.Update.{matched, unmatched, pair_up}
use azkaban_private.Execution.Result.{update_graph_lem, last_for, updated_by}
use azkaban_private.Execution.Poll.{
  Polls, Reachable, at_start, later, fires, answers, Reachable-Polls, Steps, stop, go,
  finished-Steps,
}

-- The flow is at 0 and its job at 1; an update of the flow is at 2, with that of the job at 3.
abbrev running_flow : Heap
running_flow zero = record (fresh "flow" "flow" [] (1 ∷ [])) {
  node_map = ("a", 1) ∷ [];
  status = some Status.running;
}
running_flow (suc zero) = record (fresh "a" "command" [] []) { status = some Status.running }
running_flow (suc (suc zero)) = record (fresh "flow" "flow" [] (3 ∷ [])) {
  status = some Status.succeeded;
}
running_flow (suc (suc (suc zero))) = record (fresh "a" "command" [] []) {
  status = some Status.succeeded;
}
running_flow (suc (suc (suc (suc r)))) = fresh "z" "command" [] []

abbrev mine : Ref → Bool
mine zero = true
mine (suc zero) = true
mine (suc (suc r)) = false

abbrev depth : Ref → ℕ
depth zero = 0
depth (suc zero) = 0
depth (suc (suc zero)) = 1
depth (suc (suc (suc r))) = 0

abbrev status_at : Ref → Outcome → Option Status
status_at r (done h) = (h r).status
status_at r _ = none

job_succeeded : status_at 1 (update_graph 2 0 2 running_flow) ≡ some Status.succeeded
unfolding update_graph update_nodes assign_update lookup
job_succeeded = refl

own :
    (d : Ref) (k : String) (x : Ref)
    → mine d ≡ true
    → lookup k (running_flow d).node_map ≡ some x
    → mine x ≡ true
unfolding lookup
own zero k x m e = elim (Bool-cases (str_eq "a" k)) [
  | inl hit ↦
      let same : some 1 ≡ some x = rw hit at e in
      let one : 1 ≡ x = cc in subst (λ y. mine y ≡ true) one refl
  | inr miss ↦ let no : none ≡ some x = rw miss at e in cc
]
own (suc zero) k x m e = cc
own (suc (suc r)) k x m e = cc

sent :
    (u : Ref)
    → mine u ≡ false
    → All (λ v. (mine v ≡ false) × (depth v < depth u)) (running_flow u).nodes
sent zero m = cc
sent (suc zero) m = tt
sent (suc (suc zero)) m = ((refl, omega arith), tt)
sent (suc (suc (suc zero))) m = tt
sent (suc (suc (suc (suc r)))) m = tt

update_graph_lem_example :
    ((ps : List (Ref × Ref)) × (h' : Heap) × (pair_up 2 running_flow 0 2 ≡ matched ps)
      × (update_graph 2 0 2 running_flow ≡ done h')
      × ((x : Ref)
          → mine x ≡ true
          → h' x ≡ updated_by running_flow (last_for x ps) (running_flow x)))
    ⊎ (pair_up 2 running_flow 0 2 ≡ unmatched) × (update_graph 2 0 2 running_flow ≡ type_error)
update_graph_lem_example =
    update_graph_lem mine running_flow depth (record { own = own; sent = sent }) 2 0 2 refl refl
      (omega arith)

-- The page of a running flow, after the answer that it has succeeded.
abbrev first_page : Page
first_page = opened Status.running

abbrev finished_page : Page
finished_page = answered (some Status.succeeded) (record first_page { asked = 0 })

finished-Reachable : Reachable Status.running finished_page
unfolding run_task updater_function log_updater_function keep_running
finished-Reachable =
    later first_page finished_page at_start (answers 0 (some Status.succeeded) refl (λ e. refl))

finished_status : keep_running finished_page.status ≡ false
unfolding keep_running answered
finished_status = refl

Reachable-Polls_example : Polls finished_page.status finished_page.timers
Reachable-Polls_example = Reachable-Polls Status.running finished_page finished-Reachable

-- The two timers that are left, one after the other.
abbrev after_first : Page
after_first = run_task log_updater (record finished_page { timers = updater ∷ [] })

abbrev after_second : Page
after_second = run_task updater (record after_first { timers = [] })

last-Steps : Steps finished_page 2 after_second
unfolding run_task updater_function log_updater_function keep_running answered
last-Steps =
    go finished_page after_first after_second 1 (fires [] log_updater (updater ∷ []) refl)
      (go after_first after_second after_second 0 (fires [] updater [] refl) (stop after_second))

finished-Steps_example : 2 ≤ 2
finished-Steps_example =
    finished-Steps Status.running finished_page after_second 2 finished-Reachable finished_status
      last-Steps
