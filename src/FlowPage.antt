-- ===== src/FlowPage.antt =====
-- view/flow.js: the page of a flow, with the pages of its list of executions.
pub mod Pages
pub mod Narrow
mod Tests
use azkaban_private.Prelude.{
  ℕ, suc, ◌+◌, ◌-◌, ◌*◌, ◌/◌, ◌==◌, ltb, leb, if◌then◌else◌, Bool, false, true, ◌&&◌, not, Option,
  none, some, List, [], ◌∷◌,
}
use azkaban_private.Prelude.Int.{ℤ, pos, negsuc, ◌+ℤ◌, ◌-ℤ◌, ltb_ℤ, eqb_ℤ, leb_ℤ, scale}

-- The tabs of the page.
pub data Tab : Type 0 where
  graph executions summary : Tab

abbrev pub tab_number : Tab → ℕ
tab_number graph = 0
tab_number executions = 1
tab_number summary = 2

-- The classes `active` of the links, what is shown, and how often `change:view` was triggered.
pub record Tabs : Type 0 where
  pub active : Tab → Bool
  pub visible : Tab → Bool
  pub view_changes : ℕ

-- `handleGraphLinkClick`, `handleExecutionLinkClick` and `handleSummaryLinkClick`.
unfoldable pub handle_link_click : Tab → Tabs → Tabs
handle_link_click t v = record v {
  active = λ u. tab_number t == tab_number u;
  visible = λ u. tab_number t == tab_number u;
  view_changes = if tab_number t == 1 then suc v.view_changes else v.view_changes;
}

-- One element of the page selection; a page that was never set is absent.
pub record PageButton : Type 0 where
  pub disabled : Bool
  pub active : Bool
  pub page : Option ℤ

-- `#page1` to `#page5` by their number, `#previous` and `#next`.
pub record PageSelection : Type 0 where
  pub button : ℕ → PageButton
  pub previous : PageButton
  pub next : PageButton

-- `total ? total : 1`, where `none` is undefined.
abbrev pub total_or : Option ℕ → ℕ
total_or none = 1
total_or (some n) = if n == 0 then 1 else n

-- `Math.ceil(total / pageSize)`
abbrev pub num_pages : Option ℕ → ℕ → ℕ
num_pages total page_size = (total_or total + (page_size - 1)) / page_size

-- The ladder for the position of the selection: the first page shown and the selected position.
unfoldable pub selection : ℤ → ℕ → ℤ × ℤ
selection page n =
    if ltb_ℤ page (pos 3)
    then (pos 1, page)
    else if eqb_ℤ page (pos n)
    then (pos n -ℤ pos 4, pos 5)
    else if eqb_ℤ page (pos n -ℤ pos 1)
    then (pos n -ℤ pos 4, pos 4)
    else (page -ℤ pos 2, pos 3)

-- What is drawn for a first page and a selected position. A button has its page from the last loop.
abbrev pub drawn : ℤ → ℤ → ℤ → ℕ → PageSelection → PageSelection
drawn start position page n old = record {
  button = λ i. record {
    disabled = ltb n i;
    active = eqb_ℤ (pos i) position;
    page = some (start +ℤ (pos i -ℤ pos 1));
  };
  previous = record {
    disabled = not (ltb_ℤ (pos 1) page);
    active = false;
    page = if ltb_ℤ (pos 1) page then some (page -ℤ pos 1) else old.previous.page;
  };
  next = record {
    disabled = not (ltb_ℤ page (pos n));
    active = false;
    page = some (page +ℤ pos 1);
  };
}

-- `renderPagination`; `none` is the TypeError for a position that no element has.
unfoldable pub render_pagination : ℤ → ℕ → PageSelection → Option PageSelection
render_pagination page n old =
    let (start, position) = selection page n in
    if leb_ℤ (pos 1) position && leb_ℤ position (pos 5)
    then some (drawn start position page n old)
    else none

-- `handleChangePageSelection`: the page after a click on an element.
unfoldable pub change_page : PageButton → ℤ → ℤ
change_page b page = if b.disabled then page else elim b.page [ none ↦ page | some p ↦ p ]

-- The parameters `start` and `length` of the request of `handlePageChange`.
unfoldable pub page_request : ℤ → ℕ → ℤ × ℕ
page_request page page_size = (scale (page -ℤ pos 1) page_size, page_size)

-- `handleChangeView`: the first page is fetched once.
unfoldable pub handle_change_view : Bool → Bool × Bool
handle_change_view initialized = (not initialized, true)
