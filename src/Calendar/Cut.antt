-- ===== src/Calendar/Cut.antt =====
-- What addItem of view/schedule-svg.js adds to each day, where all days have 24 hours.
use azkaban_private.Prelude.{
  ℕ, suc, ◌+◌, ◌-◌, ◌*◌, ◌/◌, ◌%◌, ◌≤◌, ◌<◌, ◌==◌, ◌≡◌, ◌≢◌, Bool-cases, ==_iff, ◌⊎◌, inl, inr,
  ◌++◌, arith,
}
use azkaban_private.Calendar.Columns.{Item}
use azkaban_private.Calendar.{Week, add_item, day_millis, num_days, end_time}
use azkaban_private.Calendar.Pieces.{
  IsRegular, only, day_start, rest_on, part_on, Adds, Adds-same, >>=-Adds, file_item_lem,
  add_item-same, add_item-cut, add_rest_lem,
}

module _ {epoch first_day : ℕ} {midnight : ℕ → ℕ}
    (regular : IsRegular epoch first_day midnight) where
  part-same :
      (item : Item) (i : ℕ)
      → epoch ≤ item.time
      → (item.time ≤ item.stop) ⊎ (first_day + num_days * day_millis ≤ item.time)
      → midnight item.time ≡ midnight item.stop
      → i < num_days
      → only (midnight item.time == day_start first_day i) item ≡ part_on first_day item i
  part-same item i after order same low = ground (
    arith,
    regular.of_time item.time,
    regular.of_time item.stop,
    regular.since_epoch,
    regular.at_midnight,
  )

  part-cut :
      (item : Item) (i : ℕ)
      → epoch ≤ item.time
      → (item.time ≤ item.stop) ⊎ (first_day + num_days * day_millis ≤ item.time)
      → midnight item.time ≢ midnight item.stop
      → i < num_days
      → let next_morning = midnight item.time + day_millis in
        rest_on first_day item next_morning (item.stop - next_morning) i
          ++ only
              (midnight item.time == day_start first_day i)
              (record item { stop = next_morning })
        ≡ part_on first_day item i
  part-cut item i after order other low = ground (
    arith,
    regular.of_time item.time,
    regular.of_time item.stop,
    regular.since_epoch,
    regular.at_midnight,
  )

  -- Where all days have 24 hours, addItem returns at a depth of two calls for an item that does not
  -- end before it starts, or starts after the week: each day of the week then has in addition
  -- exactly the part of the item that falls on it, and nothing if no part does.
  pub add_item_lem :
      (depth : ℕ) (item : Item) (week : Week)
      → epoch ≤ item.time
      → (item.time ≤ item.stop) ⊎ (end_time first_day ≤ item.time)
      → Adds (add_item midnight first_day (suc (suc depth)) item week) week (part_on first_day item)
  add_item_lem depth item week after order =
      let date = midnight item.time in
      let next_morning = date + day_millis in
      let excess = item.stop - next_morning in
      let from_epoch : epoch ≤ date = omega (arith, regular.of_time item.time after) in
      let whole : (date - epoch) % day_millis ≡ 0 =
        omega (arith, regular.of_time item.time after) in
      elim (Bool-cases (date == midnight item.stop)) [
        | inl same ↦ rw (add_item-same midnight first_day (suc depth) item week same) (
            Adds-same _ week _ _ (λ i low. part-same item i after order ((==_iff _ _).0 same) low)
              (file_item_lem regular date item week from_epoch whole))
        | inr other ↦ rw (add_item-cut midnight first_day (suc depth) item week other) (
            Adds-same _ week _ _
              (λ i low. part-cut item i after order (λ same. cc (other, (==_iff _ _).1 same)) low)
              (>>=-Adds _ _ week _ _
                (add_rest_lem regular depth (suc (suc (excess / day_millis))) item next_morning
                  excess week (omega (arith, from_epoch)) (omega (arith, whole, from_epoch))
                  (omega arith))
                (λ week'.
                  file_item_lem regular date (record item { stop = next_morning }) week' from_epoch
                    whole)))
      ]
