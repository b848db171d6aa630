-- ===== src/Calendar/Texts.antt =====
-- The texts of view/schedule-svg.js: hours, periods, and the second line of a tooltip. `text_of` is
-- the engine's text of a number.
use Prim.Native.String.{◌++◌ as join_texts}
use azkaban_private.Prelude.{
  ℕ, ◌+◌, ◌-◌, ◌*◌, ◌/◌, ◌≤◌, ◌<◌, ◌==◌, ltb, if◌then◌else◌, Option, none, some, String, arith,
}
use azkaban_private.Calendar.{hour_millis, day_millis}

-- The days, hours and minutes of `formatReadablePeriod`.
pub record Period : Type 0 where
  pub days : ℕ
  pub hours : ℕ
  pub mins : ℕ

unfoldable pub split_period : ℕ → Period
split_period period =
    let days = period / day_millis in
    let hour = period - days * day_millis in
    let hours = hour / hour_millis in
    let min = hour - hours * hour_millis in
    record { days = days; hours = hours; mins = min / 60000 }

module _ (text_of : ℕ → String) where
  -- `getHourText`
  unfoldable pub get_hour_text : ℕ → String
  get_hour_text hour =
      if hour == 0
      then "12 AM"
      else if ltb hour 12
      then join_texts (text_of hour) " AM"
      else if hour == 12
      then "12 PM"
      else join_texts (text_of (hour - 12)) " PM"

  abbrev plural : ℕ → String → String → String
  plural n one many = if n == 1 then one else join_texts (text_of n) many

  abbrev join_part : ℕ → String → String → String → String
  join_part n one many text =
      if ltb 0 n then join_texts text (join_texts " " (plural n one many)) else text

  -- `formatReadablePeriod`: one day is "24 hours", and the first part may have a space before it.
  unfoldable pub format_readable_period : ℕ → String
  unfolding split_period
  format_readable_period period =
      let p = split_period period in
      let text = if ltb 0 p.days then plural p.days "24 hours" " days" else "" in
      join_part p.mins "1 minute" " minutes" (join_part p.hours "1 hour" " hours" text)

  -- `text[1]` of `handleMouseOver`; `status` is that of an entry of the history.
  unfoldable pub tooltip_line : ℕ → Option ℕ → String
  unfolding format_readable_period
  tooltip_line period history =
      if period == 0
      then elim history [
        | none ↦ ""
        | some status ↦
            if status == 50
            then "SUCCEEDED"
            else if status == 60
            then "KILLED"
            else if status == 70
            then "FAILED"
            else if status == 80
            then "FAILED_FINISHING"
            else if status == 90
            then "SKIPPED"
            else ""
      ]
      else join_texts "Repeat: " (format_readable_period period)

-- The parts are in range and name the minute of the period.
split_period_lem :
    (period : ℕ)
    → let p = split_period period in
      let start = p.days * day_millis + p.hours * hour_millis + p.mins * 60000 in
      (p.hours < 24) × (p.mins < 60) × (start ≤ period) × (period < start + 60000)
unfolding split_period
split_period_lem period = omega arith
