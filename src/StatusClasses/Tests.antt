-- ===== src/StatusClasses/Tests.antt =====
-- Changes of the classes of elements.
use azkaban_private.Prelude.{ℕ, zero, suc, ◌≡◌, refl, true, false, some, [], ◌∷◌, inr, arith}
use mathlib.Core.List.Memᴰ
use azkaban_private.Flow.{Ref, Heap, fresh}
use azkaban_private.Status.{ready, preparing, running, succeeded, is}
use azkaban_private.StatusClasses.{Classes, show_status, change_status, change_statuses}
use azkaban_private.StatusClasses.Shown.{Below, Changes, IsRanked}
use azkaban_private.StatusClasses.Tree.{change_statuses-Changes}

-- From RUNNING to SUCCEEDED.
run_succeeded : change_status (some succeeded) (is running) running ≡ false
unfolding change_status show_status
run_succeeded = refl

-- From PREPARING to RUNNING both classes stay.
run_preparing : change_status (some running) (is preparing) preparing ≡ true
unfolding change_status show_status
run_preparing = refl

-- A flow with a job that has succeeded, whose element shows READY.
abbrev store : Heap
store zero = fresh "flow" "" [] (1 ∷ [])
store (suc r) = record (fresh "job" "command" [] []) { status = some succeeded }

abbrev rank : Ref → ℕ
rank zero = 1
rank (suc r) = 0

store-IsRanked : IsRanked store rank
store-IsRanked zero r m = let e : r ≡ 1 = Memᴰ.eq_of_singleton m in rw e (omega arith)
store-IsRanked (suc d) r m = absurd (Memᴰ.not-nil m)

change_statuses-Changes_example :
    (after : (Ref → Classes)) × (change_statuses store 2 0 (λ r. is ready) ≡ some after)
    × Changes store (Below store 0) (λ r. is ready) after
change_statuses-Changes_example =
    change_statuses-Changes store rank 2 0 (λ r. is ready) store-IsRanked (omega arith)
      (λ x. inr (some ready, λ t. refl, refl))
