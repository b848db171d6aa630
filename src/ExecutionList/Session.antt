-- ===== src/ExecutionList/Session.antt =====
-- The list of view/flow-execution-list.js through all updates of a flow without embedded flows.
use azkaban_private.Prelude.{ℕ, suc, ◌≡◌, refl, some, List, [], ◌∷◌, Memᴰ, All}
use azkaban_private.Flow.{Ref, Heap}
use azkaban_private.ExecutionList.{Page, empty_page, target, Update, update_jobs}
use azkaban_private.ExecutionList.Bodies.{IsListed}
use azkaban_private.ExecutionList.Listed.{empty_page-IsListed, update_jobs-Keeps}
use azkaban_private.ExecutionList.Rows.{KeepsMembers, update_job_row_lem}

-- The nodes of an update embed no flow.
abbrev pub IsFlatUpdate : Update → Type 0
IsFlatUpdate u = (r : Ref) → Memᴰ r u.nodes → (u.heap (target u.heap r)).nodes ≡ []

update_jobs-returns :
    (sort : Heap → List Ref → List Ref) (fuel : ℕ) (body : Ref) (updates : List Update)
    (page : Page)
    → KeepsMembers sort
    → All IsFlatUpdate updates
    → (page' : Page) × (update_jobs sort (suc fuel) body updates page ≡ some page')
unfolding update_jobs
update_jobs-returns sort fuel body [] page keeps flat = (page, refl)
update_jobs-returns sort fuel body (u ∷ updates) page keeps (first, flat) =
    let (page1, run, _) = update_job_row_lem sort u.now fuel u.heap body u.nodes page keeps first in
    let (page2, run') = update_jobs-returns sort fuel body updates page1 keeps flat in
    (page2, rw run run')

-- When the engine's sorting keeps the nodes, the list of a flow without embedded flows can be drawn
-- and updated any number of times; from an empty page, the nodes of a table's body are then exactly
-- those that have a row in it, and none is there twice.
pub update_jobs-IsListed :
    (sort : Heap → List Ref → List Ref) (fuel : ℕ) (body : Ref) (updates : List Update)
    → KeepsMembers sort
    → All IsFlatUpdate updates
    → (page : Page) × (update_jobs sort (suc fuel) body updates empty_page ≡ some page)
      × IsListed page
update_jobs-IsListed sort fuel body updates keeps flat =
    let (page, run) = update_jobs-returns sort fuel body updates empty_page keeps flat in
    (
      page,
      run,
      update_jobs-Keeps sort (suc fuel) body updates empty_page page empty_page-IsListed run,
    )
