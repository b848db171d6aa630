-- ===== src/ExecutionList/Listed.antt =====
-- The rows of view/flow-execution-list.js through all updates.
use azkaban_private.Prelude.{
  ℕ, zero, suc, ◌≡◌, Bool-cases, Option, Option-cases, some, inl, inr, List, List-cases, [], ◌∷◌,
  ◌>>=◌, >>=-eq-some, subst,
}
use azkaban_private.Flow.{Ref, Heap}
use azkaban_private.ExecutionList.{
  Page, is_unset, target, add_node_row, write_rows, update_node, each_node, update_job_row,
  empty_page, Update, update_jobs,
}
use azkaban_private.ExecutionList.Bodies.{IsListed, add_node_row-IsListed, write_rows-IsListed}

pub empty_page-IsListed : IsListed empty_page
empty_page-IsListed = record {
  has_row = λ b r m. elim m [ ];
  in_body = λ r row e. cc;
  once = λ b. tt;
}

-- A step keeps this, if it returns.
abbrev Keeps : (Page → Option Page) → Type 0
Keeps step = (page page' : Page) → IsListed page → step page ≡ some page' → IsListed page'

>>=-Keeps : (f g : Page → Option Page) → Keeps f → Keeps g → Keeps (λ page. f page >>= g)
>>=-Keeps f g keep keep' page page' listed e =
    let (middle, e1, e2) = >>=-eq-some (f page) g e in
    keep' middle page' (keep page middle listed e1) e2

some-Keeps : Keeps (λ page. some page)
some-Keeps page page' listed e = subst IsListed (cc) listed

update_node-Keeps :
    (now : ℕ) (h : Heap) (update : Ref → List Ref → Page → Option Page)
    → ((b : Ref) (nodes : List Ref) → Keeps (update b nodes))
    → (body r : Ref) → Keeps (update_node now h update body r)
unfolding update_node
update_node-Keeps now h update keep body r page page' listed e =
    let written = write_rows now h r (add_node_row h body r page) in
    let after =
      write_rows-IsListed now h r (add_node_row h body r page)
        (add_node_row-IsListed h body r page listed) in
    elim (Bool-cases (is_unset (h r).start_time)) [
      | inl unset ↦ some-Keeps page page' listed (rw (update_node, unset) at e)
      | inr known ↦ elim (List-cases (h r).nodes) [
        | inl flat ↦ some-Keeps written page' after (rw (update_node, known, flat) at e)
        | inr (n, nodes, deep) ↦ elim (Option-cases (written.rows r)) [
          | inl gone ↦ cc (rw (update_node, known, deep, gone) at e)
          | inr (row, there) ↦ elim (Bool-cases row.has_subtable) [
            | inr none_below ↦ cc (rw (update_node, known, deep, there, none_below) at e)
            | inl below ↦
                keep r (h r).nodes written page' after
                  (rw (update_node, known, deep, there, below) at e)
          ]
        ]
      ]
    ]

each_node-Keeps :
    (step : Ref → Page → Option Page)
    → ((r : Ref) → Keeps (step r))
    → (nodes : List Ref) → Keeps (each_node step nodes)
unfolding each_node
each_node-Keeps step keep [] = some-Keeps
each_node-Keeps step keep (r ∷ nodes) = >>=-Keeps _ _ (keep r) (each_node-Keeps step keep nodes)

update_job_row-Keeps :
    (sort : Heap → List Ref → List Ref) (now : ℕ) (h : Heap) (fuel : ℕ) (body : Ref)
    (nodes : List Ref)
    → Keeps (update_job_row sort now h fuel body nodes)
unfolding update_job_row
update_job_row-Keeps sort now h zero body nodes = λ page page' listed e. cc
update_job_row-Keeps sort now h (suc fuel) body nodes =
    each_node-Keeps _
      (λ r.
        update_node-Keeps now h (update_job_row sort now h fuel)
          (update_job_row-Keeps sort now h fuel) body (target h r))
      (sort h nodes)

pub update_jobs-Keeps :
    (sort : Heap → List Ref → List Ref) (fuel : ℕ) (body : Ref) (updates : List Update)
    → Keeps (update_jobs sort fuel body updates)
unfolding update_jobs
update_jobs-Keeps sort fuel body [] = some-Keeps
update_jobs-Keeps sort fuel body (u ∷ updates) =
    >>=-Keeps _ _ (update_job_row-Keeps sort u.now u.heap fuel body u.nodes)
      (update_jobs-Keeps sort fuel body updates)
