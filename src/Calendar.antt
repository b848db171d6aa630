-- ===== src/Calendar.antt =====
-- view/schedule-svg.js: the calendar of a week, with what has run and what is scheduled. Times are
-- in milliseconds. An item holds the end of its time in place of its length, since the length that
-- processItem gives may be negative.
pub mod Columns
pub mod Pieces
pub mod Cut
pub mod Repeats
pub mod Scheduled
pub mod LongDay
pub mod Filed
pub mod Received
pub mod Texts
mod Boxes
mod Tests
use azkaban_private.Prelude.{
  ℕ, zero, suc, ◌+◌, ◌-◌, ◌*◌, ◌/◌, ◌%◌, ◌≤◌, ◌==◌, ◌≡◌, refl, max, leb, ltb, if◌then◌else◌, Bool,
  true, false, ◌&&◌, List, [], ◌∷◌, ◌++◌, String,
}
use azkaban_private.Calendar.Columns.{Item}

-- What a call does: it returns, throws a TypeError, or its calls or rounds go beyond the fuel.
pub data Outcome (A : Type 0) : Type 0 where
  ok : A → Outcome A
  type_error no_end : Outcome A

infixl 5 ◌>>=◌
abbrev pub ◌>>=◌ : {A B : Type 0} → Outcome A → (A → Outcome B) → Outcome B
ok a >>= f = f a
type_error >>= f = type_error
no_end >>= f = no_end

-- A chain that returns has had both of its steps return.
pub both_ok :
    {A B : Type 0} (outcome : Outcome A) (next : A → Outcome B) {last : B}
    → (outcome >>= next) ≡ ok last
    → (value : A) × (outcome ≡ ok value) × (next value ≡ ok last)
both_ok type_error next returned = cc
both_ok no_end next returned = cc
both_ok (ok value) next returned = (value, refl, returned)

abbrev pub hour_millis : ℕ
hour_millis = 3600000

abbrev pub day_millis : ℕ
day_millis = 86400000

abbrev pub num_days : ℕ
num_days = 7

-- An entry that the server sends. Its period is 0 also where the server sends none or a negative
-- one.
pub record Entry : Type 0 where
  pub schedule : ℕ
  pub project : String
  pub flow : String
  pub time : ℕ
  pub length : ℕ
  pub period : ℕ

-- `itemByDay` and `itemByScheduleIdMap`, where an array that is not there yet is empty.
pub record Week : Type 0 where
  pub by_day : ℕ → List Item
  pub by_schedule : ℕ → List Item

abbrev pub empty_week : Week
empty_week = record { by_day = λ _. []; by_schedule = λ _. [] }

-- `arrays[index].push(item)`
abbrev pub push : ℕ → Item → (ℕ → List Item) → ℕ → List Item
push index item arrays i = if i == index then arrays i ++ item ∷ [] else arrays i

-- The loop of addItem over what is left after the first midnight.
unfoldable pub add_rest : (Item → Week → Outcome Week) → Item → ℕ → ℕ → ℕ → Week → Outcome Week
add_rest add item zero next_morning excess week = no_end
add_rest add item (suc rounds) next_morning excess week = elim (ltb 0 excess) [
  | false ↦ ok week
  | true ↦
      let temp_length = if ltb day_millis excess then day_millis else excess in
      add (record item { time = next_morning; stop = next_morning + temp_length }) week
      >>= add_rest add item rounds (next_morning + day_millis) (excess - temp_length)
]

-- The item of an entry that starts at a time.
abbrev pub occurrence : Entry → ℕ → Item
occurrence entry time = record {
  schedule = entry.schedule;
  project = entry.project;
  flow = entry.flow;
  time = time;
  stop = time + entry.length;
}

-- `while (firstTime < restrictedStartTime) firstTime += period`
unfoldable pub catch_up : ℕ → ℕ → ℕ → ℕ → Outcome ℕ
catch_up zero restricted period first_time = no_end
catch_up (suc fuel) restricted period first_time = elim (ltb first_time restricted) [
  | true ↦ catch_up fuel restricted period (first_time + period)
  | false ↦ ok first_time
]

-- The time that processItem starts from, of an entry with a period.
unfoldable pub first_after : Entry → ℕ → Outcome ℕ
first_after entry restricted =
    let periods = (restricted - entry.time) / entry.period in
    catch_up (suc restricted) restricted entry.period (entry.time + entry.period * periods)

abbrev pub end_time : ℕ → ℕ
end_time first_day = first_day + num_days * day_millis

-- `restrictedStartTime`
abbrev pub restricted_start : ℕ → ℕ → Bool → ℕ
restricted_start first_day today scheduled = if scheduled then max first_day today else first_day

-- `midnight` is the local midnight before a time, which the engine's Date tells, and `first_day`
-- that of the first day.
module _ (midnight : ℕ → ℕ) (first_day : ℕ) where
  -- The end of addItem: an index that is not whole has no array.
  unfoldable pub file_item : ℕ → Item → Week → Outcome Week
  file_item start_date item week =
      let since = start_date - first_day in
      if leb first_day start_date && ltb since (num_days * day_millis)
      then (if since % day_millis == 0
          then ok (record {
            by_day = push (since / day_millis) item week.by_day;
            by_schedule = push item.schedule item week.by_schedule;
          })
          else type_error)
      else ok week

  -- `addItem`, with `depth` for the depth of its calls. The second condition of the source compares
  -- a number with a text that is none, and always holds.
  unfoldable pub add_item : ℕ → Item → Week → Outcome Week
  add_item zero item week = no_end
  add_item (suc depth) item week =
      let start_date = midnight item.time in
      elim (start_date == midnight item.stop) [
        | true ↦ file_item start_date item week
        | false ↦
            let next_morning = start_date + day_millis in
            let excess = item.stop - next_morning in
            add_rest (add_item depth) item (suc (suc (excess / day_millis))) next_morning excess
              week
            >>= file_item start_date (record item { stop = next_morning })
      ]

  -- The loop over the times of an entry that repeats.
  unfoldable pub repeat : ℕ → ℕ → Entry → ℕ → Week → Outcome Week
  repeat zero depth entry first_time week = no_end
  repeat (suc fuel) depth entry first_time week = elim (ltb first_time (end_time first_day)) [
    | true ↦
        add_item depth (occurrence entry first_time) week
        >>= repeat fuel depth entry (first_time + entry.period)
    | false ↦ ok week
  ]

  -- `processItem`, where `today` is the time at which the page was opened.
  unfoldable pub process_item : ℕ → ℕ → Entry → Bool → Week → Outcome Week
  process_item depth today entry scheduled week =
      let restricted = restricted_start first_day today scheduled in
      if entry.period == 0
      then (if leb restricted entry.time && ltb entry.time (end_time first_day)
          then add_item depth (occurrence entry entry.time) week
          else ok week)
      else first_after entry restricted >>= λ first_time.
          if leb entry.period hour_millis
          then add_item depth (record (occurrence entry first_time) { stop = end_time first_day })
              week
          else repeat (suc (end_time first_day)) depth entry first_time week

  -- The loop over the entries of an answer.
  unfoldable pub process_items : ℕ → ℕ → List Entry → Bool → Week → Outcome Week
  process_items depth today [] scheduled week = ok week
  process_items depth today (entry ∷ entries) scheduled week =
      process_item depth today entry scheduled week >>= process_items depth today entries scheduled

  -- The answers to the requests in the order in which they come: that for the schedules, and those
  -- for the history of the days, which are not `scheduled`.
  unfoldable pub receive : ℕ → ℕ → List (List Entry × Bool) → Week → Outcome Week
  receive depth today [] week = ok week
  receive depth today ((entries, scheduled) ∷ answers) week =
      process_items depth today entries scheduled week >>= receive depth today answers
