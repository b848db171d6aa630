-- ===== src/FlowPage/Pages.antt =====
-- The page selection where there are five pages or more, and what the requests fetch.
use azkaban_private.Prelude.{
  ℕ, ◌+◌, ◌-◌, ◌*◌, ◌/◌, ◌≤◌, ◌<◌, ◌==◌, ◌≡◌, ltb, false, some, arith, Bool-cases, inl, inr, sym,
  subst,
}
use native.Mathlib.Nat.{div-mul-le_self, lt-div-mul-add, le-div_iff_mul-le}
use azkaban_private.Prelude.Int.{pos}
use azkaban_private.FlowPage.{
  PageSelection, total_or, num_pages, selection, drawn, render_pagination, page_request,
}

-- With five pages or more, the five buttons are consecutive pages of the list.
selection_cases :
    (p n : ℕ)
    → 1 ≤ p
    → p ≤ n
    → 5 ≤ n
    → (start position : ℕ) × (selection (pos p) n ≡ (pos start, pos position))
      × (1 ≤ start)
      × (start + 4 ≤ n)
      × (1 ≤ position)
      × (position ≤ 5)
      × (p + 1 ≡ start + position)
unfolding selection
selection_cases p n low high five = elim (Bool-cases (ltb p 3)) [
  | inl a ↦ (1, p, ground arith, omega arith, omega arith, omega arith, ground arith, omega arith)
  | inr a ↦ elim (Bool-cases (p == n)) [
    | inl b ↦
        (n - 4, 5, ground arith, omega arith, omega arith, omega arith, omega arith, ground arith)
    | inr b ↦ elim (Bool-cases (p == n - 1)) [
      | inl c ↦
          (n - 4, 4, ground arith, omega arith, omega arith, omega arith, omega arith, ground arith)
      | inr c ↦ (
        p - 2,
        3,
        ground arith,
        ground arith,
        ground arith,
        omega arith,
        omega arith,
        ground arith,
      )
    ]
  ]
]

-- For a page of a list of five pages or more: the selection is drawn, its five buttons are enabled
-- and stand for five consecutive pages of the list, exactly the button of the page is active, and
-- the buttons for the previous and the next page are enabled exactly if there is one, and lead there.
pub render_pagination-window :
    (p n : ℕ) (old : PageSelection)
    → 1 ≤ p
    → p ≤ n
    → 5 ≤ n
    → (start : ℕ) × (s : PageSelection) × (render_pagination (pos p) n old ≡ some s)
      × (1 ≤ start)
      × (start + 4 ≤ n)
      × ((i : ℕ)
          → 1 ≤ i
          → i ≤ 5
          → ((s.button i).disabled ≡ false)
            × ((s.button i).page ≡ some (pos (start + i - 1)))
            × ((s.button i).active ≡ (start + i - 1 == p)))
      × (s.previous.disabled ≡ (p == 1))
      × (1 < p → s.previous.page ≡ some (pos (p - 1)))
      × (s.next.disabled ≡ (p == n))
      × (s.next.page ≡ some (pos (p + 1)))
unfolding render_pagination
render_pagination-window p n old low high five =
    let (start, position, e, first, last, left, right, sum) = selection_cases p n low high five in
    (
      start,
      drawn (pos start) (pos position) (pos p) n old,
      rw (e, render_pagination) (ground arith),
      first,
      last,
      λ i i_low i_high. (ground arith, ground arith, ground arith),
      ground arith,
      λ more. ground arith,
      ground arith,
      ground arith,
    )

-- A page that the selection counts starts within the list.
page-inside :
    (total size r : ℕ)
    → 0 < size
    → 0 < total
    → r + 1 ≤ num_pages (some total) size
    → r * size < total
page-inside total size r positive some_left counted =
    let all : total_or (some total) ≡ total = ground arith in
    let fits : (r + 1) * size ≤ total + (size - 1) =
      (le-div_iff_mul-le positive).0 (subst (λ t. r + 1 ≤ (t + (size - 1)) / size) all counted) in
    omega arith

-- Every execution is fetched with some page: the execution number `i` of a list of `total` is in the
-- request of a page that the selection counts, and no page that it counts starts beyond the list.
pub page_request-covers :
    (total size i : ℕ)
    → 0 < size
    → i < total
    → ((p : ℕ) × (start : ℕ) × (1 ≤ p)
        × (p ≤ num_pages (some total) size)
        × (page_request (pos p) size ≡ (pos start, size))
        × (start ≤ i)
        × (i < start + size))
      × ((r : ℕ)
          → r + 1 ≤ num_pages (some total) size
          → (page_request (pos (r + 1)) size ≡ (pos (r * size), size)) × (r * size < total))
unfolding page_request
page_request-covers total size i positive inside =
    let low : i / size * size ≤ i = div-mul-le_self i size in
    let high : i < i / size * size + size = lt-div-mul-add positive in
    let longer : (i / size + 1) * size ≤ total + (size - 1) = omega arith in
    let counted : total_or (some total) ≡ total = ground arith in
    (
      (
        i / size + 1,
        i / size * size,
        omega arith,
        subst (λ t. i / size + 1 ≤ (t + (size - 1)) / size) (sym counted)
            ((le-div_iff_mul-le positive).1 longer),
        ground arith,
        low,
        high,
      ),
      λ r within. (ground arith, page-inside total size r positive (omega arith) within),
    )
