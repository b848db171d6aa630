-- ===== src/ExecutionList/Bars.antt =====
-- updateProgressBar of view/flow-execution-list.js: where the bars of a job and of its earlier
-- attempts are drawn. Lengths are in units of which as many make a pixel as the execution has
-- milliseconds, so that a millisecond is as many units as the bar of the flow has pixels.
use azkaban_private.Prelude.{ℕ, ◌-◌, ◌*◌, max, ltb, if◌then◌else◌, List, [], ◌∷◌}
use azkaban_private.Prelude.Signed.{Signed, whole, ◌⊕◌, ◌⊖◌}

pub record Attempt : Type 0 where
  pub start_time : ℕ
  pub end_time : ℕ

-- The margin to the left, and the width.
pub record Bar : Type 0 where
  pub margin : Signed
  pub width : ℕ

abbrev smaller : ℕ → ℕ → ℕ
smaller a b = if ltb a b then a else b

-- What lies between two times. `outer_width` is the width of the flow's bar in pixels.
abbrev pub units : ℕ → ℕ → ℕ → Signed
units outer_width from to = whole (to * outer_width) ⊖ whole (from * outer_width)

-- `outerLeftMargin`, of the bar around those of the jobs of a flow that started at `parent_start`.
unfoldable pub outer_left_margin : ℕ → ℕ → ℕ → Signed
outer_left_margin outer_width flow_start parent_start = units outer_width flow_start parent_start

-- `flow_start` and `flow_last` are the times between which the flow's bar reaches.
module _ (outer_width flow_start flow_last : ℕ) where
  abbrev pub span : ℕ
  span = flow_last - flow_start

  abbrev pub bar_width : ℕ → ℕ → ℕ
  bar_width start last = max ((last - start) * outer_width) (3 * span)

  -- The loop over the earlier attempts, with `offsetLeft`.
  unfoldable pub attempt_bars : Signed → List Attempt → List Bar
  attempt_bars offset_left [] = []
  attempt_bars offset_left (attempt ∷ attempts) =
      let left = units outer_width flow_start attempt.start_time in
      let width = bar_width attempt.start_time attempt.end_time in
      let margin = left ⊖ offset_left in
      record { margin = margin; width = width }
      ∷ attempt_bars (offset_left ⊕ (whole width ⊕ margin)) attempts

  -- The bar of the job, which is no part of the row of the attempts' bars.
  unfoldable pub main_bar : ℕ → ℕ → ℕ → Bar
  main_bar parent_start start last = record {
    margin = whole (start * outer_width - parent_start * outer_width);
    width = smaller (bar_width start last) (outer_width * span);
  }
