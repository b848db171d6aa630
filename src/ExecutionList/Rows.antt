-- ===== src/ExecutionList/Rows.antt =====
-- What the rows of view/flow-execution-list.js say after an update of a flow without embedded flows.
use azkaban_private.Prelude.{
  ℕ, suc, ◌==◌, ==_iff, ◌≡◌, ◌↔◌, refl, sym, ap, ◌∙◌, if◌then◌else◌, Bool-cases, true, false,
  Option, Option-cases, none, some, ◌⊎◌, inl, inr, List, [], ◌∷◌, Memᴰ, Memᴰ-cons, arith, subst,
  All,
}
use azkaban_private.Durations.{get_duration}
use azkaban_private.Flow.{Ref, Heap, Node, at_ms}
use azkaban_private.Status.{Status, is}
use azkaban_private.StatusClasses.{Classes, change_status, show_status}
use azkaban_private.ExecutionList.{
  JobRow, Page, is_unset, target, new_row, add_node_row, write_row, write_rows, update_node,
  each_node, update_job_row,
}

-- The class of the status, if there is one.
abbrev pub HasStatus : Option Status → Classes → Type 0
HasStatus none bar = Unit
HasStatus (some s) bar = bar s ≡ true

-- The row says what the node does: its status, as text and as the class of the bar, when it started
-- and ended, and how long it took or has run.
pub record Says (now : ℕ) (node : Node) (row : JobRow) : Type 0 where
  pub status : row.status ≡ node.status
  pub start_time : row.start_time ≡ node.start_time
  pub end_time : row.end_time ≡ node.end_time
  pub elapsed :
      row.elapsed
      ≡ get_duration node.start_time (if is_unset node.end_time then at_ms now else node.end_time)
  pub bar : HasStatus node.status row.bar

change_status-HasStatus :
    (status : Option Status) (bar : Classes) → HasStatus status (change_status status bar)
unfolding change_status show_status
change_status-HasStatus none bar = tt
change_status-HasStatus (some s) bar = elim (Bool-cases (bar s)) [
  | inl has ↦ rw has has
  | inr without ↦ rw without (let z : is s s ≡ true = ground arith in rw z refl)
]

write_row-Says : (now : ℕ) (node : Node) (row : JobRow) → Says now node (write_row now node row)
write_row-Says now node row = record {
  status = refl;
  start_time = refl;
  end_time = refl;
  elapsed = refl;
  bar = change_status-HasStatus node.status row.bar;
}

-- Its row says what it does.
abbrev pub IsShown : ℕ → Heap → Ref → Page → Type 0
IsShown now h r page = (row : JobRow) × (page.rows r ≡ some row) × Says now (h r) row

module _ (now : ℕ) (h : Heap) (body : Ref) where
  add_node_row-has :
      (r : Ref) (page : Page) → (row : JobRow) × ((add_node_row h body r page).rows r ≡ some row)
  unfolding add_node_row
  add_node_row-has r page = elim (Option-cases (page.rows r)) [
    | inr (row, e) ↦ (row, rw (add_node_row, e) e)
    | inl e ↦
        let z : (r == r) ≡ true = ground arith in (new_row body (h r), rw (add_node_row, e, z) refl)
  ]

  add_node_row-other :
      (r x : Ref) (page : Page)
      → (r == x) ≡ false
      → (add_node_row h body r page).rows x ≡ page.rows x
  unfolding add_node_row
  add_node_row-other r x page other = elim (Option-cases (page.rows r)) [
    | inr (row, e) ↦ rw (add_node_row, e) refl
    | inl e ↦ rw (add_node_row, e, other) refl
  ]

  written : Ref → Page → Page
  written r page = write_rows now h r (add_node_row h body r page)

  written-IsShown : (r : Ref) (page : Page) → IsShown now h r (written r page)
  unfolding written
  written-IsShown r page =
      let (row, e) = add_node_row-has r page in
      let z : (r == r) ≡ true = ground arith in
      (write_row now (h r) row, rw (z, e) refl, write_row-Says now (h r) row)

  written-other :
      (r x : Ref) (page : Page) → (r == x) ≡ false → (written r page).rows x ≡ page.rows x
  unfolding written
  written-other r x page other = rw other (add_node_row-other r x page other)

  written-keeps :
      (r x : Ref) (page : Page) → IsShown now h x page → IsShown now h x (written r page)
  written-keeps r x page (row, e, says) = elim (Bool-cases (r == x)) [
    | inl same ↦
        subst (λ (y : Ref). IsShown now h y (written r page)) ((==_iff r x).0 same)
          (written-IsShown r page)
    | inr other ↦ (row, written-other r x page other ∙ e, says)
  ]

  -- It embeds no flow.
  abbrev IsFlat : Ref → Type 0
  IsFlat r = (h (target h r)).nodes ≡ []

  -- What a list of nodes does to the page.
  pub record Updates (nodes : List Ref) (page page' : Page) : Type 0 where
    pub shown :
        (r : Ref)
        → Memᴰ r nodes
        → is_unset (h (target h r)).start_time ≡ false
        → IsShown now h (target h r) page'
    pub kept : (x : Ref) → IsShown now h x page → IsShown now h x page'
    pub others :
        (x : Ref)
        → ((r : Ref)
            → Memᴰ r nodes
            → is_unset (h (target h r)).start_time ≡ false
            → (target h r == x) ≡ false)
        → page'.rows x ≡ page.rows x

  module _ (update : Ref → List Ref → Page → Option Page) where
    abbrev step : Ref → Page → Option Page
    step r = update_node now h update body (target h r)

    step_cases :
        (r : Ref) (page : Page)
        → IsFlat r
        → ((is_unset (h (target h r)).start_time ≡ true) × (step r page ≡ some page))
          ⊎ ((is_unset (h (target h r)).start_time ≡ false)
              × (step r page ≡ some (written (target h r) page)))
    unfolding update_node written
    step_cases r page flat = elim (Bool-cases (is_unset (h (target h r)).start_time)) [
      | inl waits ↦ inl (waits, rw (update_node, waits) refl)
      | inr known ↦ inr (known, rw (update_node, known, flat) refl)
    ]

    each_node_lem :
        (nodes : List Ref) (page : Page)
        → All IsFlat nodes
        → (page' : Page) × (each_node step nodes page ≡ some page') × Updates nodes page page'
    unfolding each_node
    each_node_lem [] page flat = (
      page,
      refl,
      record { shown = λ r m. elim m [ ]; kept = λ x shown. shown; others = λ x apart. refl },
    )
    each_node_lem (r ∷ nodes) page (first, flat) = elim (step_cases r page first) [
      | inl (waits, e) ↦
          let (page', run, updates) = each_node_lem nodes page flat in
          (
            page',
            rw e run,
            record {
              shown = λ x m known. elim ((Memᴰ-cons x r nodes).0 m) [
                | inl same ↦ cc (ap (λ (y : Ref). is_unset (h (target h y)).start_time) same)
                | inr later ↦ updates.shown x later known
              ];
              kept = updates.kept;
              others = λ x apart.
                  updates.others x (λ y m known. apart y ((Memᴰ-cons y r nodes).1 (inr m)) known);
            },
          )
      | inr (known, e) ↦
          let t = target h r in
          let (page', run, updates) = each_node_lem nodes (written t page) flat in
          (
            page',
            rw e run,
            record {
              shown = λ x m known'. elim ((Memᴰ-cons x r nodes).0 m) [
                | inl same ↦
                    subst (λ (y : Ref). IsShown now h (target h y) page') (sym same)
                      (updates.kept t (written-IsShown t page))
                | inr later ↦ updates.shown x later known'
              ];
              kept = λ x shown. updates.kept x (written-keeps t x page shown);
              others = λ x apart.
                  updates.others x (λ y m known'. apart y ((Memᴰ-cons y r nodes).1 (inr m)) known')
                  ∙ written-other t x page (apart r ((Memᴰ-cons r r nodes).1 (inl refl)) known);
            },
          )
    ]

-- The engine's sorting gives the same nodes in some order.
abbrev pub KeepsMembers : (Heap → List Ref → List Ref) → Type 0
KeepsMembers sort = (h : Heap) (nodes : List Ref) (r : Ref) → Memᴰ r (sort h nodes) ↔ Memᴰ r nodes

All-of : {P : Ref → Type 0} → (refs : List Ref) → ((r : Ref) → Memᴰ r refs → P r) → All P refs
All-of [] each = tt
All-of (r ∷ refs) each = (
  each r ((Memᴰ-cons r r refs).1 (inl refl)),
  All-of refs (λ x m. each x ((Memᴰ-cons x r refs).1 (inr m))),
)

-- When the engine's sorting keeps the nodes, updateJobRow returns for nodes that embed no flow, and
-- the page from which it starts may be any. The row of the node, or of the one that it changes, then
-- says for each listed node that has started what this does; the rows of all others, those of listed
-- nodes that have not started among them, are as they were.
pub update_job_row_lem :
    (sort : Heap → List Ref → List Ref) (now fuel : ℕ) (h : Heap) (body : Ref) (nodes : List Ref)
    (page : Page)
    → KeepsMembers sort
    → ((r : Ref) → Memᴰ r nodes → (h (target h r)).nodes ≡ [])
    → (page' : Page) × (update_job_row sort now h (suc fuel) body nodes page ≡ some page')
      × Updates now h body nodes page page'
unfolding update_job_row
update_job_row_lem sort now fuel h body nodes page keeps flat =
    let (page', run, updates) =
      each_node_lem now h body (update_job_row sort now h fuel) (sort h nodes) page
        (All-of (sort h nodes) (λ r m. flat r ((keeps h nodes r).0 m))) in
    (
      page',
      run,
      record {
        shown = λ r m. updates.shown r ((keeps h nodes r).1 m);
        kept = updates.kept;
        others = λ x apart. updates.others x (λ r m known. apart r ((keeps h nodes r).0 m) known);
      },
    )
