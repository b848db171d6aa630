-- ===== src/TimeGraph.antt =====
-- view/time-graph.js: the graph of how long the executions of a flow or job took. `now` is the
-- engine's time when the entry at an index is read.
pub mod Hover
pub mod Colors
mod Tests
use azkaban_private.Prelude.{
  ℕ, zero, suc, ◌-◌, ◌==◌, leb, if◌then◌else◌, Bool, true, false, ◌&&◌, ◌||◌, Option, none, some,
  List, [], ◌∷◌, ◌++◌, length, String,
}
use azkaban_private.Prelude.Int.{ℤ, pos, sub_ℕ}
use azkaban_private.Flow.{Stamp, missing, unset, at_ms}
use azkaban_private.Status.{
  Status, is, skipped, succeeded, running, paused, failed, failed_finishing, killed,
}

-- An entry of the series.
pub record Run : Type 0 where
  pub start_time : Stamp
  pub end_time : Stamp
  pub status : Status

-- A point that is passed to Morris.
pub record Sample : Type 0 where
  pub time : ℕ
  pub duration : ℤ

-- `data` and `indexMap`.
pub record Plot : Type 0 where
  pub samples : List Sample
  pub index_map : ℕ → Option ℕ

abbrev pub get_elem? : {A : Type 0} → List A → ℕ → Option A
get_elem? [] i = none
get_elem? (x ∷ xs) zero = some x
get_elem? (x ∷ xs) (suc i) = get_elem? xs i

-- `time == null`
abbrev pub is_missing : Stamp → Bool
is_missing missing = true
is_missing _ = false

-- `time == -1`
abbrev pub is_unset : Stamp → Bool
is_unset unset = true
is_unset _ = false

-- What the loop makes of an entry.
unfoldable pub sample_of : ℕ → Stamp → Stamp → Sample
sample_of now (at_ms start) (at_ms end) = record { time = end; duration = sub_ℕ end start }
sample_of now _ (at_ms end) = record { time = end; duration = pos 0 }
sample_of now _ _ = record { time = now; duration = pos 0 }

abbrev pub add_sample : ℕ → Sample → Plot → Plot
add_sample i sample plot = record {
  samples = plot.samples ++ sample ∷ [];
  index_map = λ time. if time == sample.time then some i else plot.index_map time;
}

abbrev pub empty_plot : Plot
empty_plot = record { samples = []; index_map = λ _. none }

-- What `render` does: it leaves the page as it is, hides the graph, or draws one.
pub data Rendered : Type 0 where
  left hidden : Rendered
  drawn : Plot → Rendered

module _ (now : ℕ → ℕ) where
  -- The loop over the series, from an index on; `none` is the early return.
  unfoldable pub collect : ℕ → List Run → Plot → Option Plot
  collect i [] plot = some plot
  collect i (run ∷ series) plot =
      let waiting = is_unset run.start_time && is_unset run.end_time in
      let sample = sample_of (now i) run.start_time run.end_time in
      let rest = collect (suc i) series (if waiting then plot else add_sample i sample plot) in
      if is_missing run.start_time || is_missing run.end_time then none else rest

  unfoldable pub render : Option (List Run) → Rendered
  render none = left
  render (some series) = elim (collect 0 series empty_plot) [
    | none ↦ left
    | some plot ↦ if length plot.samples == 0 then hidden else drawn plot
  ]

unfoldable pub status_color : Status → String
status_color status =
    if is status skipped
    then "#aaa"
    else if is status succeeded
    then "#4e911e"
    else if is status running
    then "#009fc9"
    else if is status paused
    then "#c92123"
    else if is status failed || is status failed_finishing || is status killed
    then "#cc0000"
    else "#ccc"

-- `lineColorsCallback`, where `none` is a TypeError.
unfoldable pub line_color : List Run → Plot → Bool → ℕ → Option String
line_color series plot false x = some "#000000"
line_color series plot true x = elim (plot.index_map x) [
  | none ↦ none
  | some i ↦ elim (get_elem? series i) [ none ↦ none | some run ↦ some (status_color run.status) ]
]

-- The status that `hoverCallback` shows for an index into the points that Morris has sorted, of
-- which there are `count`; `none` is a TypeError.
unfoldable pub hover_status : List Run → ℕ → ℕ → Option Status
hover_status series count index =
    if leb count index
    then none
    else elim (get_elem? series (count - index - 1)) [ none ↦ none | some run ↦ some run.status ]
