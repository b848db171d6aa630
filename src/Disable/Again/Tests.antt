-- ===== src/Disable/Again/Tests.antt =====
-- disableFinishedJobs on a flow that failed in an embedded flow.
use azkaban_private.Prelude.{
  ℕ, zero, suc, ◌<◌, ◌≡◌, refl, some, List, [], ◌∷◌, Memᴰ, arith, inl, inr, All,
}
use mathlib.Core.List.Memᴰ
use azkaban_private.Status
use azkaban_private.Flow.{Ref, Heap, fresh}
use azkaban_private.Disable.{disable_finished_jobs}
use azkaban_private.Disable.Finished.{IsDistinct, IsNested}
use azkaban_private.Disable.Again.{again, entered, disable_finished_jobs_lem}

-- The job 1 has succeeded; the flow 2 has failed, in which 3 has succeeded and 4 has failed.
abbrev store : Heap
store zero = fresh "whole" "flow" [] (1 ∷ 2 ∷ [])
store (suc zero) = record (fresh "a" "command" [] []) { status = some Status.succeeded }
store (suc (suc zero)) = record (fresh "sub" "flow" [] (3 ∷ 4 ∷ [])) { status = some Status.failed }
store (suc (suc (suc zero))) = record (fresh "b" "command" [] []) { status = some Status.succeeded }
store (suc (suc (suc (suc r)))) = record (fresh "c" "command" [] []) { status = some Status.failed }

abbrev rank : Ref → ℕ
rank zero = 2
rank (suc (suc zero)) = 1
rank _ = 0

store-IsNested : IsNested store rank
store-IsNested zero r m = elim (Memᴰ.cases_cons m) [
  | inl e ↦ rw e (omega arith)
  | inr n ↦ let e : r ≡ 2 = Memᴰ.eq_of_singleton n in rw e (omega arith)
]
store-IsNested (suc zero) r m = absurd (Memᴰ.not-nil m)
store-IsNested (suc (suc zero)) r m = elim (Memᴰ.cases_cons m) [
  | inl e ↦ rw e (omega arith)
  | inr n ↦ let e : r ≡ 4 = Memᴰ.eq_of_singleton n in rw e (omega arith)
]
store-IsNested (suc (suc (suc zero))) r m = absurd (Memᴰ.not-nil m)
store-IsNested (suc (suc (suc (suc q)))) r m = absurd (Memᴰ.not-nil m)

comes_to : entered store 3 (1 ∷ 2 ∷ []) ≡ 1 ∷ 2 ∷ 3 ∷ 4 ∷ []
comes_to = refl

not_above : (n : ℕ) (xs : List ℕ) → All (λ x. n < x) xs → Memᴰ n xs → ⊥
not_above n [] high m = Memᴰ.not-nil m
not_above n (x ∷ xs) (high, rest) m = elim (Memᴰ.cases_cons m) [
  | inl e ↦ absurd (omega arith)
  | inr later ↦ not_above n xs rest later
]

all-IsDistinct : IsDistinct (1 ∷ 2 ∷ 3 ∷ 4 ∷ [])
all-IsDistinct = (
  not_above 1 (2 ∷ 3 ∷ 4 ∷ []) (omega arith, (omega arith, (omega arith, tt))),
  (
    not_above 2 (3 ∷ 4 ∷ []) (omega arith, (omega arith, tt)),
    (not_above 3 (4 ∷ []) (omega arith, tt), (not_above 4 [] tt, tt)),
  ),
)

low_nodes : (r : Ref) → Memᴰ r (1 ∷ 2 ∷ []) → suc (rank r) < 3
low_nodes r m = elim (Memᴰ.cases_cons m) [
  | inl e ↦ rw e (omega arith)
  | inr n ↦ let e : r ≡ 2 = Memᴰ.eq_of_singleton n in rw e (omega arith)
]

disable_finished_jobs_lem_example :
    (h' : Heap) × (disable_finished_jobs 3 (1 ∷ 2 ∷ []) store ≡ some h')
    × ((x : Ref) → Memᴰ x (entered store 3 (1 ∷ 2 ∷ [])) → h' x ≡ again (store x))
    × ((x : Ref) → (Memᴰ x (entered store 3 (1 ∷ 2 ∷ [])) → ⊥) → h' x ≡ store x)
disable_finished_jobs_lem_example =
    disable_finished_jobs_lem store rank 3 (1 ∷ 2 ∷ []) store-IsNested (omega arith) low_nodes
      all-IsDistinct
