-- ===== src/FlowPage/Tests.antt =====
-- Page selections of concrete lists, and the theorems about them there.
use azkaban_private.Prelude.{
  ℕ, ◌+◌, ◌-◌, ◌≤◌, ◌<◌, ◌==◌, ◌≡◌, refl, false, Option, none, some, List, [], ◌∷◌, arith,
}
use azkaban_private.Prelude.Int.{ℤ, pos, negsuc}
use azkaban_private.FlowPage.{PageButton, PageSelection, num_pages, selection, render_pagination}
use azkaban_private.FlowPage.Pages.{render_pagination-window}

abbrev blank : PageSelection
blank =
    let b : PageButton = record { disabled = false; active = false; page = none } in
    record { button = λ i. b; previous = b; next = b }

abbrev pages_of : Option PageSelection → List (Option ℤ)
pages_of none = []
pages_of (some s) =
    (s.button 1).page
    ∷ (s.button 2).page
    ∷ (s.button 3).page
    ∷ (s.button 4).page
    ∷ (s.button 5).page
    ∷ []

middle_page :
    pages_of (render_pagination (pos 6) 9 blank)
    ≡ some (pos 4) ∷ some (pos 5) ∷ some (pos 6) ∷ some (pos 7) ∷ some (pos 8) ∷ []
unfolding render_pagination selection
middle_page = refl

third_of_three :
    pages_of (render_pagination (pos 3) 3 blank)
    ≡ some (negsuc 0) ∷ some (pos 0) ∷ some (pos 1) ∷ some (pos 2) ∷ some (pos 3) ∷ []
unfolding render_pagination selection
third_of_three = refl

seventeen : num_pages (some 17) 16 ≡ 2
seventeen = refl

render_pagination-window_example :
    (start : ℕ) × (s : PageSelection) × (render_pagination (pos 6) 9 blank ≡ some s)
    × (1 ≤ start)
    × (start + 4 ≤ 9)
    × ((i : ℕ)
        → 1 ≤ i
        → i ≤ 5
        → ((s.button i).disabled ≡ false)
          × ((s.button i).page ≡ some (pos (start + i - 1)))
          × ((s.button i).active ≡ (start + i - 1 == 6)))
    × (s.previous.disabled ≡ (6 == 1))
    × (1 < 6 → s.previous.page ≡ some (pos (6 - 1)))
    × (s.next.disabled ≡ (6 == 9))
    × (s.next.page ≡ some (pos (6 + 1)))
render_pagination-window_example =
    render_pagination-window 6 9 blank (omega arith) (omega arith) (omega arith)
