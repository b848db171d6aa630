-- ===== src/ExecutionList/Placed.antt =====
-- Where the bars of view/flow-execution-list.js stand in the list.
use azkaban_private.Prelude.{ℕ, ◌+◌, ◌*◌, ◌≤◌, ◌≡◌, List, [], ◌∷◌, arith}
use native.Mathlib.Nat.{mul-le-mul_right}
use azkaban_private.Prelude.Signed.{Signed, whole, ◌⊕◌}
use azkaban_private.ExecutionList.Bars.{
  Attempt, Bar, span, units, attempt_bars, outer_left_margin, main_bar,
}

-- They stand for one number.
abbrev pub IsSame : Signed → Signed → Type 0
IsSame a b = a.plus + b.minus ≡ b.plus + a.minus

-- The left ends of bars that stand side by side, from a place on.
abbrev pub places : Signed → List Bar → List Signed
places from [] = []
places from (bar ∷ bars) =
    let place = from ⊕ bar.margin in place ∷ places (place ⊕ whole bar.width) bars

module _ (outer_width flow_start flow_last : ℕ) where
  -- Each bar stands at the time at which its attempt started, moved by a distance.
  abbrev pub StandAt : Signed → List Attempt → List Signed → Type 0
  StandAt shift [] [] = Unit
  StandAt shift (attempt ∷ attempts) (place ∷ rest) =
      IsSame place (units outer_width flow_start attempt.start_time ⊕ shift)
      × StandAt shift attempts rest
  StandAt shift _ _ = ⊥

  attempt_bars-StandAt :
      (attempts : List Attempt) (shift from offset_left : Signed)
      → IsSame from (offset_left ⊕ shift)
      → StandAt shift attempts
          (places from (attempt_bars outer_width flow_start flow_last offset_left attempts))
  unfolding attempt_bars
  attempt_bars-StandAt [] shift from offset_left same = tt
  attempt_bars-StandAt (attempt ∷ attempts) shift from offset_left same =
      (omega arith, attempt_bars-StandAt attempts shift _ _ (omega arith))

  -- In a flow that starts no earlier than the one whose page it is, and a job of it that starts no
  -- earlier than it: the job's bar stands at the time at which the job started, and is no wider than
  -- the bar of the page's flow. The bars of the job's earlier attempts stand side by side, each
  -- later than the time at which its attempt started, by as much as the flow around the job started
  -- later than the page's: at the right place only where these started together.
  pub update_progress_bar-StandAt :
      (parent_start start last : ℕ) (attempts : List Attempt)
      → flow_start ≤ parent_start
      → parent_start ≤ start
      → let outer = outer_left_margin outer_width flow_start parent_start in
        let main = main_bar outer_width flow_start flow_last parent_start start last in
        IsSame (outer ⊕ main.margin) (units outer_width flow_start start)
        × (main.width ≤ outer_width * span outer_width flow_start flow_last)
        × StandAt
            (units outer_width flow_start parent_start)
            attempts
            (places outer (attempt_bars outer_width flow_start flow_last (whole 0) attempts))
  unfolding outer_left_margin main_bar
  update_progress_bar-StandAt parent_start start last attempts early later =
      let up = mul-le-mul_right outer_width later in
      (
        omega (arith, up),
        ground arith,
        attempt_bars-StandAt attempts (units outer_width flow_start parent_start)
            (units outer_width flow_start parent_start) (whole 0) (omega arith),
      )
