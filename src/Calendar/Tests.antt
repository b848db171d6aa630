-- ===== src/Calendar/Tests.antt =====
-- Runs of view/schedule-svg.js. Time is counted from a midnight, and the week begins on the third
-- day, except where the first day is said to have 25 hours.
use azkaban_private.Prelude.{
  ℕ, ◌+◌, ◌-◌, ◌*◌, ◌/◌, ◌≤◌, ◌<◌, ◌≡◌, ◌≢◌, ◌↔◌, refl, leb, ltb, if◌then◌else◌, Bool, true, false,
  ◌⊎◌, inl, inr, List, [], ◌∷◌, All, length, Memᴰ, Memᴰ-cons, arith,
}
use mathlib.Core.List.{Perm}
use azkaban_private.Calendar.Columns.{
  Item, Filters, columns_of, fill_columns, place, intersect_array, filter_applies, start_y, delta_y,
}
use azkaban_private.Calendar.Columns.Apart.{AreApart, unfiltered, all_items}
use azkaban_private.Calendar.Columns.Fewest.{count, columns_of_lem}
use azkaban_private.Calendar.{
  ok, Entry, Week, empty_week, process_item, process_items, receive, restricted_start, end_time,
  hour_millis, day_millis, num_days,
}
use azkaban_private.Calendar.Pieces.{IsRegular, Adds, part_on}
use azkaban_private.Calendar.Repeats.{IsTime, parts_on, Ascending}
use azkaban_private.Calendar.Scheduled.{process_item-repeats}
use azkaban_private.Calendar.Filed.{IsFiled}
use azkaban_private.Calendar.Received.{AreAnswered, receive-IsFiled}
use azkaban_private.Calendar.LongDay.{IsLong, CrossesLong, process_items-no_return}

abbrev plain : ℕ → ℕ
plain t = t / day_millis * day_millis

abbrev first_day : ℕ
first_day = 2 * day_millis

plain-IsRegular : IsRegular 0 first_day plain
plain-IsRegular = record {
  of_time = λ t after. omega arith;
  since_epoch = omega arith;
  at_midnight = omega arith;
}

abbrev item : ℕ → ℕ → Item
item time stop = record { schedule = 4; project = "p"; flow = "f"; time = time; stop = stop }

-- From the second day, at noon, to 6 o'clock on the fourth.
abbrev long_item : Item
long_item = item (36 * hour_millis) (78 * hour_millis)

cut_days :
    ((λ (i : ℕ). part_on first_day long_item i) 0 ≡ item (48 * hour_millis) (72 * hour_millis) ∷ [])
    × ((λ (i : ℕ). part_on first_day long_item i) 1
        ≡ item (72 * hour_millis) (78 * hour_millis) ∷ [])
cut_days = (refl, refl)

-- A run of two hours at every second noon, from the first day on.
abbrev noon : Entry
noon = record {
  schedule = 4;
  project = "p";
  flow = "f";
  time = 12 * hour_millis;
  length = 2 * hour_millis;
  period = 48 * hour_millis;
}

process_item-repeats_example :
    (times : List ℕ) × Adds
      (process_item plain first_day 2 (80 * hour_millis) noon true empty_week)
      empty_week
      (parts_on first_day noon times)
    × Ascending 0 times
    × ((t : ℕ)
        → Memᴰ t times ↔ (
            IsTime noon (restricted_start first_day (80 * hour_millis) true) t
            × (t < end_time first_day)))
process_item-repeats_example =
    process_item-repeats plain-IsRegular 0 (80 * hour_millis) noon true empty_week (omega arith)
      (omega arith)

-- Every ten minutes.
abbrev often : Entry
often = record noon { period = 600000 }

-- Runs of the history at 1 o'clock.
abbrev ran : Entry
ran = record noon { time = 49 * hour_millis; period = 0 }

abbrev answers : List (List Entry × Bool)
answers = (ran ∷ [], false) ∷ (noon ∷ often ∷ [], true) ∷ []

receive-IsFiled_example :
    (week : Week) × (receive plain first_day 2 (80 * hour_millis) answers empty_week ≡ ok week)
    × ((items : ℕ → List Item) × AreAnswered plain-IsRegular (80 * hour_millis) answers items
        × ((i : ℕ) → i < num_days → week.by_day i ≡ items i))
    × IsFiled plain first_day week
receive-IsFiled_example = receive-IsFiled plain-IsRegular 0 (80 * hour_millis) answers (omega arith)

-- The midnights where the third day has 25 hours.
abbrev after_change : ℕ
after_change = first_day + 25 * hour_millis

abbrev changed : ℕ → ℕ
changed t =
    if ltb t after_change
    then plain (if leb (first_day + day_millis) t then t - hour_millis else t)
    else after_change + (t - after_change) / day_millis * day_millis

changed-IsLong : IsLong changed first_day
changed-IsLong t = (λ e. ground arith, λ (low, high). ground arith)

-- From 11 o'clock in the evening of the long day for two hours.
abbrev late : Entry
late = record noon { time = first_day + 24 * hour_millis; period = 0 }

late-CrossesLong : CrossesLong first_day first_day 0 false late
late-CrossesLong = record {
  single = refl;
  not_before = omega arith;
  in_week = omega arith;
  crosses = omega arith;
}

process_items-no_return_example :
    process_items changed first_day 100 0 (ran ∷ late ∷ []) false empty_week ≢ ok empty_week
process_items-no_return_example =
    process_items-no_return changed first_day first_day changed-IsLong 100 0 (ran ∷ late ∷ []) false
      empty_week empty_week late late-CrossesLong
      ((Memᴰ-cons late ran (late ∷ [])).1 (inr ((Memᴰ-cons late late []).1 (inl refl))))

abbrev none_hidden : Filters
none_hidden = record { projects = []; flows = [] }

abbrev three : List Item
three = item 1 5 ∷ item 2 4 ∷ item 4 9 ∷ []

-- The third fits below the second.
three_columns : columns_of none_hidden three ≡ (item 1 5 ∷ []) ∷ (item 2 4 ∷ item 4 9 ∷ []) ∷ []
unfolding columns_of fill_columns place intersect_array filter_applies
three_columns = refl

columns_of_lem_example :
    All AreApart (columns_of none_hidden three)
    × Perm (all_items (columns_of none_hidden three)) (unfiltered none_hidden three)
    × ((t : ℕ) → count t (unfiltered none_hidden three) ≤ length (columns_of none_hidden three))
    × ((length (columns_of none_hidden three) ≤ 1)
        ⊎ ((t : ℕ) × (length (columns_of none_hidden three)
              ≡ count t (unfiltered none_hidden three))))
columns_of_lem_example = columns_of_lem none_hidden three (omega arith)

-- Two hours from half past ten are all_items from pixel 420 on, 80 pixels high.
a_box : (start_y 10 30 ≡ 420) × (delta_y (2 * hour_millis) ≡ 80)
unfolding start_y delta_y
a_box = (refl, refl)
