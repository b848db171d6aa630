-- ===== src/Execution/Poll.antt =====
-- The timers of an execution's page, under every order of timers and answers.
use azkaban_private.Prelude.{
  ℕ, suc, ◌+◌, ◌≡◌, refl, sym, ◌∙◌, ap, subst, ◌≤◌, false, true, Option, none, some, List, [], ◌∷◌,
  ◌++◌, arith, Bool-cases, inl, inr, ◌⊎◌,
}
use azkaban_private.Status.{Status}
use azkaban_private.Execution.{
  Task, updater, log_updater, final_update, keep_running, updater_function, log_updater_function,
  Page, run_task, opened, answered,
}

-- An answer that the server may give: a flow that has finished has not started again.
abbrev pub Answers : Option Status → Page → Type 0
Answers none p = Unit
Answers (some s) p = keep_running p.status ≡ false → keep_running s ≡ false

-- One thing that happens on the page: a timer fires, or a request is answered.
pub data Step (p : Page) : Page → Type 0 where
  fires :
      (before : List Task) (t : Task) (after : List Task)
      → p.timers ≡ before ++ t ∷ after
      → Step p (run_task t (record p { timers = before ++ after }))
  answers :
      (k : ℕ) (o : Option Status)
      → p.asked ≡ suc k
      → Answers o p
      → Step p (answered o (record p { asked = k }))

pub data Reachable (s : Status) : Page → Type 0 where
  at_start : Reachable s (opened s)
  later : (p q : Page) → Reachable s p → Step p q → Reachable s q

-- How many timers of each kind there are.
abbrev pub updaters : List Task → ℕ
updaters [] = 0
updaters (updater ∷ ts) = suc (updaters ts)
updaters (t ∷ ts) = updaters ts

abbrev pub log_updaters : List Task → ℕ
log_updaters [] = 0
log_updaters (log_updater ∷ ts) = suc (log_updaters ts)
log_updaters (t ∷ ts) = log_updaters ts

abbrev pub final_updates : List Task → ℕ
final_updates [] = 0
final_updates (final_update ∷ ts) = suc (final_updates ts)
final_updates (t ∷ ts) = final_updates ts

counts_split :
    (before : List Task) (t : Task) (after : List Task)
    → (updaters (before ++ t ∷ after) ≡ updaters (t ∷ []) + updaters (before ++ after))
      × (log_updaters (before ++ t ∷ after)
          ≡ log_updaters (t ∷ []) + log_updaters (before ++ after))
      × (final_updates (before ++ t ∷ after)
          ≡ final_updates (t ∷ []) + final_updates (before ++ after))
counts_split [] updater after = (omega arith, omega arith, omega arith)
counts_split [] log_updater after = (omega arith, omega arith, omega arith)
counts_split [] final_update after = (omega arith, omega arith, omega arith)
counts_split (updater ∷ before) t after =
    let (a, b, c) = counts_split before t after in (omega arith, omega arith, omega arith)
counts_split (log_updater ∷ before) t after =
    let (a, b, c) = counts_split before t after in (omega arith, omega arith, omega arith)
counts_split (final_update ∷ before) t after =
    let (a, b, c) = counts_split before t after in (omega arith, omega arith, omega arith)

-- While the flow runs, one timer for the graph and one for the log are set; never more, and the
-- timer for a last update is never set.
abbrev pub Polls : Status → List Task → Type 0
Polls s ts =
    (updaters ts ≤ 1)
    × (log_updaters ts ≤ 1)
    × (final_updates ts ≡ 0)
    × (keep_running s ≡ true → (updaters ts ≡ 1) × (log_updaters ts ≡ 1))

updater_function_cases :
    (s : Status)
    → (keep_running s ≡ true) × (updater_function s ≡ (true, updater ∷ []))
      ⊎ (keep_running s ≡ false) × (updater_function s ≡ (false, []))
unfolding keep_running updater_function
updater_function_cases s = ground arith

run_task-Polls :
    (p : Page) (t : Task) (rest : List Task)
    → updaters p.timers ≡ updaters (t ∷ []) + updaters rest
    → log_updaters p.timers ≡ log_updaters (t ∷ []) + log_updaters rest
    → final_updates p.timers ≡ final_updates (t ∷ []) + final_updates rest
    → Polls p.status p.timers
    → let q = run_task t (record p { timers = rest }) in
      (q.status ≡ p.status) × Polls p.status q.timers
unfolding run_task log_updater_function
run_task-Polls p updater rest a b c (u, l, f, on) = elim (updater_function_cases p.status) [
  | inl (runs, same) ↦ rw same (
    refl,
    (
      omega arith,
      omega arith,
      omega arith,
      λ k. let both = on k in (omega (arith, both.0), omega (arith, both.1)),
    ),
  )
  | inr (ended, same) ↦ rw same (
    refl,
    (omega arith, omega arith, omega arith, λ k. let no : true ≡ false = sym k ∙ ended in cc),
  )
]
run_task-Polls p log_updater rest a b c (u, l, f, on) = elim (Bool-cases (keep_running p.status)) [
  | inl runs ↦ rw runs (
    refl,
    (
      omega arith,
      omega arith,
      omega arith,
      λ k. let both = on runs in (omega (arith, both.0), omega (arith, both.1)),
    ),
  )
  | inr ended ↦ rw ended (refl, (omega arith, omega arith, omega arith, λ k. cc))
]
run_task-Polls p final_update rest a b c (u, l, f, on) = absurd (omega arith)

Step-Polls : (p q : Page) → Step p q → Polls p.status p.timers → Polls q.status q.timers
unfolding answered
Step-Polls p q (fires before t after split) polls =
    let (a, b, c) = counts_split before t after in
    let (same, polls') =
      run_task-Polls p t (before ++ after) (ap updaters split ∙ a) (ap log_updaters split ∙ b)
        (ap final_updates split ∙ c) polls in
    subst (λ s. Polls s (run_task t (record p { timers = before ++ after })).timers) (sym same)
      polls'
Step-Polls p q (answers k none asked may) polls = polls
Step-Polls p q (answers k (some s) asked may) (u, l, f, on) = (
  u,
  l,
  f,
  λ runs. elim (Bool-cases (keep_running p.status)) [
    | inl before ↦ on before
    | inr ended ↦ let no : true ≡ false = sym runs ∙ may ended in cc
  ],
)

opened-Polls : (s : Status) → Polls (opened s).status (opened s).timers
unfolding run_task log_updater_function
opened-Polls s = elim (updater_function_cases s) [
  | inl (runs, same) ↦
      rw (same, runs) (omega arith, omega arith, omega arith, λ k. (omega arith, omega arith))
  | inr (ended, same) ↦ rw (same, ended) (omega arith, omega arith, omega arith, λ k. cc)
]

-- In whatever order timers fire and answers come, if a finished flow never starts again: while the
-- page's status is one of a flow that runs, exactly one timer for the graph and one for the log
-- are set; there is never more than one of each, and the timer for the last update is never set.
pub Reachable-Polls : (s : Status) (p : Page) → Reachable s p → Polls p.status p.timers
Reachable-Polls s _ at_start = opened-Polls s
Reachable-Polls s _ (later q p reached step) = Step-Polls q p step (Reachable-Polls s q reached)

-- The number of timers that a step fires.
abbrev pub fired : {p q : Page} → Step p q → ℕ
fired (fires before t after split) = 1
fired (answers k o asked may) = 0

pub data Steps : Page → ℕ → Page → Type 0 where
  stop : (p : Page) → Steps p 0 p
  go : (p q r : Page) (n : ℕ) (step : Step p q) → Steps q n r → Steps p (fired step + n) r

Step-counts :
    (p q : Page) (step : Step p q)
    → Polls p.status p.timers
    → keep_running p.status ≡ false
    → (keep_running q.status ≡ false)
      × (fired step + (updaters q.timers + log_updaters q.timers)
          ≡ updaters p.timers + log_updaters p.timers)
unfolding run_task log_updater_function answered
Step-counts p _ (fires before updater after split) polls ended =
    let (a, b, c) = counts_split before updater after in
    let ua = ap updaters split ∙ a in
    let ub = ap log_updaters split ∙ b in
    elim (updater_function_cases p.status) [
      | inl (runs, same) ↦ let no : true ≡ false = sym runs ∙ ended in cc
      | inr (quiet, same) ↦ rw same (ended, omega arith)
    ]
Step-counts p _ (fires before log_updater after split) polls ended =
    let (a, b, c) = counts_split before log_updater after in
    let la = ap updaters split ∙ a in
    let lb = ap log_updaters split ∙ b in rw ended (refl, omega arith)
Step-counts p _ (fires before final_update after split) (u, l, f, on) ended =
    let (a, b, c) = counts_split before final_update after in
    let total = ap final_updates split ∙ c in absurd (omega arith)
Step-counts p _ (answers k none asked may) polls ended = (ended, omega arith)
Step-counts p _ (answers k (some s) asked may) polls ended = (may ended, omega arith)

Steps-counts :
    (p q : Page) (n : ℕ)
    → Steps p n q
    → Polls p.status p.timers
    → keep_running p.status ≡ false
    → n + (updaters q.timers + log_updaters q.timers) ≡ updaters p.timers + log_updaters p.timers
Steps-counts p _ _ (stop x) polls ended = omega arith
Steps-counts p _ _ (go x q y n step steps) polls ended =
    let (ended', here) = Step-counts p q step polls ended in
    let rest = Steps-counts q y n steps (Step-Polls p q step polls) ended' in omega arith

-- Once the page knows that the flow has finished, at most two more timers fire, in whatever order
-- timers fire and answers come, if a finished flow never starts again.
pub finished-Steps :
    (s : Status) (p q : Page) (n : ℕ)
    → Reachable s p
    → keep_running p.status ≡ false
    → Steps p n q
    → n ≤ 2
finished-Steps s p q n reached ended steps =
    let polls = Reachable-Polls s p reached in
    let counts = Steps-counts p q n steps polls ended in omega (arith, polls.0, polls.1)
