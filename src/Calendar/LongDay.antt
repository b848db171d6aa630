-- ===== src/Calendar/LongDay.antt =====
-- addItem of view/schedule-svg.js on the day of 25 hours at whose end the clock has been put back.
use azkaban_private.Prelude.{
  ℕ, zero, suc, ◌+◌, ◌-◌, ◌*◌, ◌≤◌, ◌<◌, ◌==◌, ==_iff, ◌≡◌, ◌≢◌, ◌↔◌, refl, leb, ltb, if◌then◌else◌,
  Bool, true, false, ◌&&◌, inl, inr, List, [], ◌∷◌, Memᴰ, Memᴰ-cons, arith,
}
use azkaban_private.Calendar.Columns.{Item}
use azkaban_private.Calendar.{
  ok, no_end, Entry, Week, add_rest, add_item, occurrence, process_item, process_items,
  restricted_start, end_time, hour_millis, day_millis, both_ok,
}
use azkaban_private.Calendar.Pieces.{add_item-cut}

-- The times of the day that begins at a midnight are those of 25 hours.
abbrev pub IsLong : (ℕ → ℕ) → ℕ → Type 0
IsLong midnight date = (t : ℕ) → (midnight t ≡ date) ↔ ((date ≤ t) × (t < date + 25 * hour_millis))

-- An item that starts on the long day and ends after it.
abbrev pub Crosses : ℕ → Item → Type 0
Crosses date item =
    (date ≤ item.time)
    × (item.time < date + 25 * hour_millis)
    × (date + 25 * hour_millis ≤ item.stop)

-- An entry without a period whose run starts on the long day, in the week, and ends after it.
pub record CrossesLong (first_day date today : ℕ) (scheduled : Bool) (entry : Entry) : Type 0 where
  pub single : entry.period ≡ 0
  pub not_before : restricted_start first_day today scheduled ≤ entry.time
  pub in_week : entry.time < end_time first_day
  pub crosses : Crosses date (occurrence entry entry.time)

module _ (midnight : ℕ → ℕ) (first_day date : ℕ) (long : IsLong midnight date) where
  add_item-no_end :
      (depth : ℕ) (item : Item) (week : Week)
      → Crosses date item
      → add_item midnight first_day depth item week ≡ no_end
  unfolding add_item add_rest
  add_item-no_end zero item week crosses = refl
  add_item-no_end (suc depth) item week (after, before, over) =
      let start : midnight item.time ≡ date = (long item.time).1 (after, before) in
      let other : (midnight item.time == midnight item.stop) ≡ false =
        ground (arith, (long item.stop).0) in
      let next_morning = midnight item.time + day_millis in
      let excess = item.stop - next_morning in
      let more : ltb 0 excess ≡ true = ground arith in
      let temp_length = if ltb day_millis excess then day_millis else excess in
      let rest =
        add_item-no_end depth
          (record item { time = next_morning; stop = next_morning + temp_length }) week
          (ground arith) in
      rw (add_item-cut midnight first_day depth item week other, add_rest, more, rest) refl

  process_item-no_end :
      (depth today : ℕ) (entry : Entry) (scheduled : Bool) (week : Week)
      → CrossesLong first_day date today scheduled entry
      → process_item midnight first_day depth today entry scheduled week ≡ no_end
  unfolding process_item
  process_item-no_end depth today entry scheduled week c =
      let z : (entry.period == 0) ≡ true = (==_iff _ _).1 c.single in
      let within : (leb (restricted_start first_day today scheduled) entry.time
            && ltb entry.time (end_time first_day))
          ≡ true =
        ground (arith, c.not_before, c.in_week) in
      rw (z, within) (add_item-no_end depth (occurrence entry entry.time) week c.crosses)

  -- If a day of the week has 25 hours, and an answer has an entry without a period that is shown in
  -- the week, starts on that day and ends after it, then the loop over the entries of the answer
  -- never returns, however deep its calls may get.
  pub process_items-no_return :
      (depth today : ℕ) (entries : List Entry) (scheduled : Bool) (week week' : Week)
      (entry : Entry)
      → CrossesLong first_day date today scheduled entry
      → Memᴰ entry entries
      → process_items midnight first_day depth today entries scheduled week ≢ ok week'
  unfolding process_items
  process_items-no_return depth today [] scheduled week week' entry c mem done = elim mem [ ]
  process_items-no_return depth today (e ∷ entries) scheduled week week' entry c mem done =
      let (week1, run, rest) =
        both_ok (process_item midnight first_day depth today e scheduled week) _ done in
      elim ((Memᴰ-cons entry e entries).0 mem) [
        | inl same ↦ cc (process_item-no_end depth today entry scheduled week c)
        | inr later ↦
            process_items-no_return depth today entries scheduled week1 week' entry c later rest
      ]
