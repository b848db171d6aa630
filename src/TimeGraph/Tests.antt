-- ===== src/TimeGraph/Tests.antt =====
-- Runs of view/time-graph.js.
use azkaban_private.Prelude.{ℕ, ◌+◌, ◌≡◌, refl, some, [], ◌∷◌, length}
use mathlib.Core.List.{reverse}
use azkaban_private.Flow.{unset, at_ms}
use azkaban_private.Status.{preparing, succeeded, failed}
use azkaban_private.TimeGraph.{Run, Plot, get_elem?, sample_of, render, drawn, hover_status}
use azkaban_private.TimeGraph.Hover.{render-hover_status}

abbrev now : ℕ → ℕ
now i = 900 + i

abbrev new_run : Run
new_run = record { start_time = unset; end_time = unset; status = preparing }

abbrev second : Run
second = record { start_time = at_ms 500; end_time = at_ms 700; status = failed }

abbrev first : Run
first = record { start_time = at_ms 100; end_time = at_ms 300; status = succeeded }

-- The run that failed is shown as preparing, and the one that succeeded as failed.
hovers :
    (hover_status (new_run ∷ second ∷ first ∷ []) 2 1 ≡ some preparing)
    × (hover_status (new_run ∷ second ∷ first ∷ []) 2 0 ≡ some failed)
unfolding hover_status
hovers = (refl, refl)

render-hover_status_example :
    (plot : Plot) × (render now (some (new_run ∷ second ∷ first ∷ [])) ≡ drawn plot)
    × (length plot.samples ≡ 2)
    × (get_elem? (reverse plot.samples) 1 ≡ some (sample_of (now 1) (at_ms 500) (at_ms 700)))
    × (hover_status (new_run ∷ second ∷ first ∷ []) 2 1 ≡ some preparing)
render-hover_status_example =
    render-hover_status now (new_run ∷ []) (second ∷ first ∷ []) 0 second new_run ((refl, refl), tt)
      ((refl, refl), ((refl, refl), tt)) refl refl
