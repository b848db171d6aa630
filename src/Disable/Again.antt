-- ===== src/Disable/Again.antt =====
-- What disableFinishedJobs makes of the statuses of an earlier execution.
mod Tests
use azkaban_private.Prelude.{
  ℕ, suc, ◌<◌, ◌≡◌, refl, sym, ◌∙◌, ap, if◌then◌else◌, Bool, true, false, ◌||◌, Option, none, some,
  List, [], ◌∷◌, ◌++◌, ◌&&◌, not, zero, subst, Memᴰ, arith, Bool-cases, inl, inr,
}
use azkaban_private.Status
use azkaban_private.Status.{Status, is}
use azkaban_private.Flow.{Ref, Node, Heap, is_flow}
use azkaban_private.Disable.{has_status, finish, goes_on, disable_finished_jobs}
use azkaban_private.Disable.Finished.{IsDistinct, visit_list, visited, IsNested, jobs-Handles}

-- A job with such a status is not to run again.
abbrev pub is_done : Option Status → Bool
is_done none = false
is_done (some s) =
    is s Status.disabled || is s Status.skipped || is s Status.succeeded || is s Status.running

abbrev pub is_reset : Option Status → Bool
is_reset none = false
is_reset (some s) = is s Status.disabled || is s Status.skipped || is s Status.cancelled

-- An embedded flow with a status at which its own jobs are looked at: not one of those above.
abbrev pub is_entered : Node → Bool
is_entered n = is_flow n && not (is_done n.status) && not (is_reset n.status)

-- The nodes of a flow and of the embedded flows that are entered, at any depth of so many.
abbrev pub entered_list : Heap → (List Ref → List Ref) → List Ref → List Ref
entered_list h inner [] = []
entered_list h inner (r ∷ rs) =
    r ∷ ((if is_entered (h r) then inner (h r).nodes else []) ++ entered_list h inner rs)

abbrev pub entered : Heap → ℕ → List Ref → List Ref
entered h zero rs = []
entered h (suc depth) rs = entered_list h (entered h depth) rs

-- The node as it is to run again.
abbrev pub again : Node → Node
again n = record n {
  status = if is_reset n.status then some Status.ready else n.status;
  disabled = is_done n.status;
}

finish-again : (n : Node) → finish n ≡ again n
unfolding finish
finish-again n = of_status n.status
  where
    of_status :
        (o : Option Status) → finish (record n { status = o }) ≡ again (record n { status = o })
    of_status none = refl
    of_status (some Status.ready) = refl
    of_status (some Status.preparing) = refl
    of_status (some Status.running) = refl
    of_status (some Status.paused) = refl
    of_status (some Status.succeeded) = refl
    of_status (some Status.killed) = refl
    of_status (some Status.failed) = refl
    of_status (some Status.failed_finishing) = refl
    of_status (some Status.skipped) = refl
    of_status (some Status.disabled) = refl
    of_status (some Status.queued) = refl
    of_status (some Status.failed_succeeded) = refl
    of_status (some Status.cancelled) = refl
    of_status (some Status.unknown) = refl
    of_status (some Status.waiting) = refl

goes_on-is_entered : (n : Node) → goes_on n ≡ is_entered n
goes_on-is_entered n = of_status n.status
  where
    of_status :
        (o : Option Status)
        → goes_on (record n { status = o }) ≡ is_entered (record n { status = o })
    of_status none = ground arith
    of_status (some Status.ready) = ground arith
    of_status (some Status.preparing) = ground arith
    of_status (some Status.running) = ground arith
    of_status (some Status.paused) = ground arith
    of_status (some Status.succeeded) = ground arith
    of_status (some Status.killed) = ground arith
    of_status (some Status.failed) = ground arith
    of_status (some Status.failed_finishing) = ground arith
    of_status (some Status.skipped) = ground arith
    of_status (some Status.disabled) = ground arith
    of_status (some Status.queued) = ground arith
    of_status (some Status.failed_succeeded) = ground arith
    of_status (some Status.cancelled) = ground arith
    of_status (some Status.unknown) = ground arith
    of_status (some Status.waiting) = ground arith

visit_list-entered_list :
    (h : Heap) (visit inner : List Ref → List Ref) (rs : List Ref)
    → ((ns : List Ref) → visit ns ≡ inner ns)
    → visit_list h visit rs ≡ entered_list h inner rs
visit_list-entered_list h visit inner [] same = refl
visit_list-entered_list h visit inner (r ∷ rs) same =
    rw (goes_on-is_entered (h r), same (h r).nodes, visit_list-entered_list h visit inner rs same)
      refl

visited-entered : (h : Heap) (depth : ℕ) (rs : List Ref) → visited h depth rs ≡ entered h depth rs
visited-entered h zero rs = refl
visited-entered h (suc depth) rs =
    visit_list-entered_list h (visited h depth) (entered h depth) rs (visited-entered h depth)

-- With fuel above the nesting, where no node is met twice, disableFinishedJobs returns; each node of the
-- flow, and of its embedded flows at any depth except in those that are DISABLED, SKIPPED, SUCCEEDED,
-- RUNNING or CANCELLED, is disabled exactly if it was DISABLED, SKIPPED, SUCCEEDED or RUNNING, is READY if
-- it was DISABLED, SKIPPED or CANCELLED and has its status otherwise, and nothing else of it and no
-- other node changes.
pub disable_finished_jobs_lem :
    (h : Heap) (rank : Ref → ℕ) (fuel : ℕ) (rs : List Ref)
    → IsNested h rank
    → 0 < fuel
    → ((r : Ref) → Memᴰ r rs → suc (rank r) < fuel)
    → IsDistinct (entered h fuel rs)
    → (h' : Heap) × (disable_finished_jobs fuel rs h ≡ some h')
      × ((x : Ref) → Memᴰ x (entered h fuel rs) → h' x ≡ again (h x))
      × ((x : Ref) → (Memᴰ x (entered h fuel rs) → ⊥) → h' x ≡ h x)
disable_finished_jobs_lem h rank fuel rs nested some_fuel low distinct =
    let same = visited-entered h fuel rs in
    let (h', ran, did, left) =
      jobs-Handles h rank fuel rs h nested some_fuel low (subst IsDistinct (sym same) distinct)
        (λ x m. refl) in
    (
      h',
      ran,
      λ x m. did x (subst (Memᴰ x) (sym same) m) ∙ finish-again (h x),
      λ x n. left x (λ m. n (subst (Memᴰ x) same m)),
    )
