-- ===== src/FlowPage/Narrow.antt =====
-- The page selection where there are three or four pages.
use azkaban_private.Prelude.{ℕ, ◌≤◌, ◌==◌, ◌≡◌, none, some, arith, Bool-cases, inl, inr}
use azkaban_private.Prelude.Int.{ℤ, pos, negsuc, ◌≤ℤ◌}
use azkaban_private.FlowPage.{PageSelection, selection, drawn, render_pagination, change_page}

-- In a list of three or four pages, the selection for the third or fourth page is drawn, but its
-- first button is enabled and stands for a page before the first; and when that is clicked, the
-- next drawing throws.
render_pagination-narrow :
    (p n : ℕ) (old : PageSelection)
    → 3 ≤ p
    → p ≤ n
    → n ≤ 4
    → (s : PageSelection) × (q : ℤ) × (render_pagination (pos p) n old ≡ some s)
      × (change_page (s.button 1) (pos p) ≡ q)
      × (q ≤ℤ pos 0)
      × ((m : ℕ) → render_pagination q m s ≡ none)
unfolding render_pagination selection change_page
render_pagination-narrow p n old low high small = elim (Bool-cases (p == n)) [
  | inl e ↦ elim (Bool-cases (n == 3)) [
    | inl three ↦
        let s = drawn (negsuc 0) (pos 5) (pos p) n old in
        (s, negsuc 0, ground arith, ground arith, ground arith, λ m. ground arith)
    | inr four ↦
        let s = drawn (pos 0) (pos 5) (pos p) n old in
        (s, pos 0, ground arith, ground arith, ground arith, λ m. ground arith)
  ]
  | inr e ↦
      let s = drawn (pos 0) (pos 4) (pos p) n old in
      (s, pos 0, ground arith, ground arith, ground arith, λ m. ground arith)
]
