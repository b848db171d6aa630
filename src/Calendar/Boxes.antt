-- ===== src/Calendar/Boxes.antt =====
-- The boxes of view/schedule-svg.js in the rows of a day.
use azkaban_private.Prelude.{ℕ, ◌+◌, ◌*◌, ◌/◌, ◌%◌, ◌≤◌, ◌≡◌, ◌⊎◌, arith}
use azkaban_private.Calendar.Columns.{start_y, delta_y}

-- The box of an item that ends by the end of its day ends within the 24 rows of 40 pixels of the
-- day, or is drawn with the least height, 5 pixels.
box_within :
    (since length : ℕ)
    → since + length ≤ 86400000
    → let y = start_y (since / 3600000) (since % 3600000 / 60000) in
      (y + delta_y length ≤ 24 * 40) ⊎ (delta_y length ≡ 5)
unfolding start_y delta_y
box_within since length within = ground arith
