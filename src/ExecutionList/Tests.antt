-- ===== src/ExecutionList/Tests.antt =====
-- Runs of the list of jobs of an execution.
use azkaban_private.Prelude.{
  refl, map, ◌*◌, ◌≤◌, ◌-◌, ◌==◌, ◌≡◌, if◌then◌else◌, some, List, [], ◌∷◌, arith,
}
use azkaban_private.Flow.{Ref, Heap, Node, fresh, unset, at_ms}
use azkaban_private.Status.{ready, running, succeeded}
use azkaban_private.ExecutionList.{Page, empty_page, target, update_job_row, Update, update_jobs}
use azkaban_private.Prelude.Signed.{whole, ◌⊕◌}
use azkaban_private.ExecutionList.Bars.{
  Attempt, Bar, span, units, attempt_bars, outer_left_margin, main_bar,
}
use azkaban_private.ExecutionList.Placed.{IsSame, places, StandAt, update_progress_bar-StandAt}
use azkaban_private.ExecutionList.Bodies.{IsListed}
use azkaban_private.ExecutionList.Rows.{KeepsMembers, Updates, update_job_row_lem}
use azkaban_private.ExecutionList.Session.{update_jobs-IsListed}

abbrev job : Node
job = fresh "a" "java" [] []

-- The first job has started and the second has not.
abbrev early : Heap
early r =
    if r == 1
    then record job { status = some running; start_time = at_ms 500; end_time = unset }
    else record job { status = some ready; start_time = unset; end_time = unset }

-- An update for both, whose objects are 3 and 4.
abbrev late : Heap
late r =
    if r == 1
    then record job { status = some succeeded; start_time = at_ms 500; end_time = at_ms 900 }
    else if r == 2
    then record job { status = some running; start_time = at_ms 950; end_time = unset }
    else record job { changed_node = some (r - 2) }

abbrev as_given : Heap → List Ref → List Ref
as_given h nodes = nodes

as_given-KeepsMembers : KeepsMembers as_given
as_given-KeepsMembers h nodes r = ((λ m. m), λ m. m)

abbrev updates : List Update
updates =
    record { heap = early; now = 600; nodes = 1 ∷ 2 ∷ [] }
    ∷ record { heap = late; now = 1000; nodes = 3 ∷ 4 ∷ [] }
    ∷ []

early-flat : (r : Ref) → (early r).nodes ≡ []
early-flat r = ground arith

late-flat : (r : Ref) → (late r).nodes ≡ []
late-flat r = ground arith

update_job_row_lem_example :
    (page' : Page) × (update_job_row as_given 600 early 1 0 (1 ∷ 2 ∷ []) empty_page ≡ some page')
    × Updates 600 early 0 (1 ∷ 2 ∷ []) empty_page page'
update_job_row_lem_example =
    update_job_row_lem as_given 600 0 early 0 (1 ∷ 2 ∷ []) empty_page as_given-KeepsMembers
      (λ r m. early-flat (target early r))

update_jobs-IsListed_example :
    (page : Page) × (update_jobs as_given 1 0 updates empty_page ≡ some page) × IsListed page
update_jobs-IsListed_example =
    update_jobs-IsListed as_given 0 0 updates as_given-KeepsMembers
      ((λ r m. early-flat (target early r)), ((λ r m. late-flat (target late r)), tt))

-- A flow of 1000 milliseconds in 280 pixels, with an embedded flow that started after 300.
abbrev attempts : List Attempt
attempts =
    record { start_time = 400; end_time = 500 } ∷ record { start_time = 550; end_time = 552 } ∷ []

-- The second is drawn with the least width, three pixels.
widths :
    map (λ (bar : Bar). bar.width) (attempt_bars 280 0 1000 (whole 0) attempts) ≡ 28000 ∷ 3000 ∷ []
unfolding attempt_bars
widths = refl

update_progress_bar-StandAt_example :
    IsSame
      (outer_left_margin 280 0 300 ⊕ (main_bar 280 0 1000 300 700 900).margin)
      (units 280 0 700)
    × ((main_bar 280 0 1000 300 700 900).width ≤ 280 * span 280 0 1000)
    × StandAt 280 0 1000
        (units 280 0 300)
        attempts
        (places (outer_left_margin 280 0 300) (attempt_bars 280 0 1000 (whole 0) attempts))
update_progress_bar-StandAt_example =
    update_progress_bar-StandAt 280 0 1000 300 700 900 attempts (omega arith) (omega arith)
