-- ===== src/ExecutionList.antt =====
-- updateJobRow and addNodeRow of view/flow-execution-list.js: the rows of the jobs of an execution.
-- A table's body is named by its flow. `now` is the engine's time, and `sort` its sorting of nodes
-- by their start.
pub mod Bodies
pub mod Listed
pub mod Rows
pub mod Session
pub mod Bars
pub mod Placed
mod Tests
use azkaban_private.Prelude.{
  ℕ, zero, suc, ◌==◌, if◌then◌else◌, Bool, true, false, Option, none, some, List, [], ◌∷◌, ◌++◌,
  ◌>>=◌,
}
use azkaban_private.Durations.{Duration, get_duration}
use azkaban_private.Flow.{Ref, Heap, Node, Stamp, missing, unset, at_ms, is_flow}
use azkaban_private.Status.{Status}
use azkaban_private.StatusClasses.{Classes, change_status}

-- `joblistrow`, with the node's status, the dates that are written, the time that it took, the
-- classes of its bar, and whether there is a row for the jobs of a flow below it.
pub record JobRow : Type 0 where
  pub body : Ref
  pub status : Option Status
  pub start_time : Stamp
  pub end_time : Stamp
  pub elapsed : Option Duration
  pub bar : Classes
  pub has_subtable : Bool

-- The rows of the nodes, and the nodes of each body in the order of their rows.
pub record Page : Type 0 where
  pub rows : Ref → Option JobRow
  pub bodies : Ref → List Ref

-- Before the first row.
abbrev pub empty_page : Page
empty_page = record { rows = λ _. none; bodies = λ _. [] }

abbrev pub is_unset : Stamp → Bool
is_unset unset = true
is_unset _ = false

-- `node.changedNode ? node.changedNode : node`
abbrev pub target : Heap → Ref → Ref
target h r = elim (h r).changed_node [ none ↦ r | some changed ↦ changed ]

-- The row of `addNodeRow`.
abbrev pub new_row : Ref → Node → JobRow
new_row body node = record {
  body = body;
  status = none;
  start_time = missing;
  end_time = missing;
  elapsed = none;
  bar = λ _. false;
  has_subtable = is_flow node;
}

-- The call of `addNodeRow`, if the node has no row.
unfoldable pub add_node_row : Heap → Ref → Ref → Page → Page
add_node_row h body r page = elim (page.rows r) [
  | some row ↦ page
  | none ↦ record {
    rows = λ x. if r == x then some (new_row body (h r)) else page.rows x;
    bodies = λ b. if body == b then page.bodies b ++ r ∷ [] else page.bodies b;
  }
]

-- What is written into the row of a node.
abbrev pub write_row : ℕ → Node → JobRow → JobRow
write_row now node row = record row {
  status = node.status;
  start_time = node.start_time;
  end_time = node.end_time;
  elapsed =
      get_duration node.start_time (if is_unset node.end_time then at_ms now else node.end_time);
  bar = change_status node.status row.bar;
}

abbrev pub write_rows : ℕ → Heap → Ref → Page → Page
write_rows now h r page = record page {
  rows = λ x.
      if r == x
      then elim (page.rows x) [ none ↦ none | some row ↦ some (write_row now (h r) row) ]
      else page.rows x;
}

-- A round of the loop, with the recursive call. Without a row for its jobs, a TypeError is thrown at
-- a node that has some: `none`.
unfoldable pub update_node :
    ℕ → Heap → (Ref → List Ref → Page → Option Page) → Ref → Ref → Page → Option Page
update_node now h update body r page = elim (is_unset (h r).start_time) [
  | true ↦ some page
  | false ↦
      let page' = write_rows now h r (add_node_row h body r page) in
      elim (h r).nodes [
        | [] ↦ some page'
        | _ ∷ _ ↦ elim (page'.rows r) [
          | none ↦ none
          | some row ↦ if row.has_subtable then update r (h r).nodes page' else none
        ]
      ]
]

unfoldable pub each_node : (Ref → Page → Option Page) → List Ref → Page → Option Page
each_node step [] page = some page
each_node step (r ∷ nodes) page = step r page >>= each_node step nodes

-- `updateJobRow`, with fuel for how deep flows are nested.
module _ (sort : Heap → List Ref → List Ref) (now : ℕ) (h : Heap) where
  unfoldable pub update_job_row : ℕ → Ref → List Ref → Page → Option Page
  update_job_row zero body nodes page = none
  update_job_row (suc fuel) body nodes page =
      each_node (λ r. update_node now h (update_job_row fuel) body (target h r)) (sort h nodes) page

-- An update, or the graph as it is first drawn: the objects, the time, and the nodes.
pub record Update : Type 0 where
  pub heap : Heap
  pub now : ℕ
  pub nodes : List Ref

-- `renderJobs` and `updateJobs`, as often as they are called; `body` is that of the page's table.
module _ (sort : Heap → List Ref → List Ref) (fuel : ℕ) (body : Ref) where
  unfoldable pub update_jobs : List Update → Page → Option Page
  update_jobs [] page = some page
  update_jobs (u ∷ updates) page =
      update_job_row sort u.now u.heap fuel body u.nodes page >>= update_jobs updates
