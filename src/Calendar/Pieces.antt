-- ===== src/Calendar/Pieces.antt =====
-- How addItem of view/schedule-svg.js cuts an item at midnights, where all days have 24 hours.
use azkaban_private.Prelude.{
  ℕ, zero, suc, ◌+◌, ◌-◌, ◌*◌, ◌/◌, ◌%◌, ◌≤◌, ◌<◌, ◌==◌, ◌≡◌, refl, sym, ap, ◌∙◌, leb, ltb, ltb→lt,
  if◌then◌else◌, Bool, Bool-cases, true, false, ◌&&◌, inl, inr, List, [], ◌∷◌, ◌++◌, arith,
}
use mathlib.Core.List.{append-nil, append_assoc}
use azkaban_private.Calendar.Columns.{Item}
use azkaban_private.Calendar.{
  Outcome, ok, Week, file_item, add_rest, add_item, day_millis, num_days, push, ◌>>=◌,
}

-- Without changes of the clock: midnights are whole days after one midnight, `epoch`, and the first
-- day of the week begins with one.
pub record IsRegular (epoch first_day : ℕ) (midnight : ℕ → ℕ) : Type 0 where
  pub of_time : (t : ℕ) → epoch ≤ t → midnight t ≡ epoch + (t - epoch) / day_millis * day_millis
  pub since_epoch : epoch ≤ first_day
  pub at_midnight : (first_day - epoch) % day_millis ≡ 0

-- A list of one element or none.
abbrev pub only : Bool → Item → List Item
only b item = if b then item ∷ [] else []

-- Each of the days gets these further items, at the end.
abbrev pub Gains : Week → Week → (ℕ → List Item) → Type 0
Gains week week' items = (i : ℕ) → i < num_days → week'.by_day i ≡ week.by_day i ++ items i

-- The call returns, and the days have then got these items.
abbrev pub Adds : Outcome Week → Week → (ℕ → List Item) → Type 0
Adds outcome week items = (week' : Week) × (outcome ≡ ok week') × Gains week week' items

pub >>=-Adds :
    (outcome : Outcome Week) (f : Week → Outcome Week) (week : Week) (items more : ℕ → List Item)
    → Adds outcome week items
    → ((week' : Week) → Adds (f week') week' more)
    → Adds (outcome >>= f) week (λ i. items i ++ more i)
>>=-Adds outcome f week items more (week', e, gains) next =
    let (week'', e', gains') = next week' in
    (week'', rw e e', λ i low. rw (gains' i low, gains i low) (append_assoc (week.by_day i) _ _))

pub Adds-same :
    (outcome : Outcome Week) (week : Week) (items more : ℕ → List Item)
    → ((i : ℕ) → i < num_days → items i ≡ more i)
    → Adds outcome week items
    → Adds outcome week more
Adds-same outcome week items more same (week', e, gains) =
    (week', e, λ i low. gains i low ∙ ap (λ l. week.by_day i ++ l) (same i low))

pub Adds-none : (week : Week) → Adds (ok week) week (λ _. [])
Adds-none week = (week, refl, λ i low. sym (append-nil (week.by_day i)))

abbrev pub day_start : ℕ → ℕ → ℕ
day_start first_day i = first_day + i * day_millis

-- What is left of an item on a day, from a midnight on.
abbrev pub rest_on : ℕ → Item → ℕ → ℕ → ℕ → List Item
rest_on first_day item next_morning excess i =
    let from = day_start first_day i in
    let stop = next_morning + excess in
    let until = if ltb (from + day_millis) stop then from + day_millis else stop in
    only (leb next_morning from && ltb from stop) (record item { time = from; stop = until })

-- The part of an item that falls on a day.
abbrev pub part_on : ℕ → Item → ℕ → List Item
part_on first_day item i =
    let from = day_start first_day i in
    let until = if ltb (from + day_millis) item.stop then from + day_millis else item.stop in
    if leb from item.time
    then only (ltb item.time (from + day_millis)) (record item { stop = until })
    else only (ltb from item.stop) (record item { time = from; stop = until })

push_lem :
    (index : ℕ) (item : Item) (b : Bool) (arrays : ℕ → List Item) (i : ℕ)
    → (i == index) ≡ b
    → push index item arrays i ≡ arrays i ++ only b item
push_lem index item true arrays i e = rw e
push_lem index item false arrays i e = rw e (sym (append-nil (arrays i)))

abbrev filed : ℕ → ℕ → Item → Week → Week
filed first_day date item week = record {
  by_day = push ((date - first_day) / day_millis) item week.by_day;
  by_schedule = push item.schedule item week.by_schedule;
}

module _ (midnight : ℕ → ℕ) (first_day : ℕ) where
  pub add_item-same :
      (depth : ℕ) (item : Item) (week : Week)
      → (midnight item.time == midnight item.stop) ≡ true
      → add_item midnight first_day (suc depth) item week
        ≡ file_item midnight first_day (midnight item.time) item week
  unfolding add_item
  add_item-same depth item week same = rw (add_item, same) refl

  pub add_item-cut :
      (depth : ℕ) (item : Item) (week : Week)
      → (midnight item.time == midnight item.stop) ≡ false
      → let next_morning = midnight item.time + day_millis in
        let excess = item.stop - next_morning in
        add_item midnight first_day (suc depth) item week ≡ (
          add_rest
            (add_item midnight first_day depth)
            item
            (suc (suc (excess / day_millis)))
            next_morning
            excess
            week
          >>= file_item midnight first_day
              (midnight item.time)
              (record item { stop = next_morning }))
  unfolding add_item
  add_item-cut depth item week other = rw (add_item, other) refl

module _ {epoch first_day : ℕ} {midnight : ℕ → ℕ}
    (regular : IsRegular epoch first_day midnight) where
  pub file_item_lem :
      (date : ℕ) (item : Item) (week : Week)
      → epoch ≤ date
      → (date - epoch) % day_millis ≡ 0
      → Adds
          (file_item midnight first_day date item week)
          week
          (λ i. only (date == day_start first_day i) item)
  unfolding file_item
  file_item_lem date item week after whole =
      let since = date - first_day in
      elim (Bool-cases (leb first_day date && ltb since (num_days * day_millis))) [
        | inl within ↦
            let e : ((since % day_millis) == 0) ≡ true =
              ground (arith, regular.since_epoch, regular.at_midnight) in
            (
              filed first_day date item week,
              rw (within, e) refl,
              λ i low.
                  push_lem (since / day_millis) item (date == day_start first_day i) week.by_day i
                    (ground (arith, regular.since_epoch, regular.at_midnight)),
            )
        | inr without ↦ (
          week,
          rw without refl,
          λ i low.
              let e : (date == day_start first_day i) ≡ false = ground arith in
              rw e (sym (append-nil (week.by_day i))),
        )
      ]

  pub midnight_lem : (t : ℕ) → epoch ≤ t → (t - epoch) % day_millis ≡ 0 → midnight t ≡ t
  midnight_lem t after whole = omega (arith, regular.of_time t after)

  piece_lem :
      (depth : ℕ) (item : Item) (week : Week)
      → epoch ≤ item.time
      → (item.time - epoch) % day_millis ≡ 0
      → item.time < item.stop
      → item.stop ≤ item.time + day_millis
      → Adds
          (add_item midnight first_day (suc depth) item week)
          week
          (λ i. only (item.time == day_start first_day i) item)
  unfolding add_rest
  piece_lem depth item week after whole some_length within =
      let m = midnight_lem item.time after whole in
      elim (Bool-cases (midnight item.time == midnight item.stop)) [
        | inl same ↦
            rw (add_item-same midnight first_day depth item week same, m)
              (file_item_lem item.time item week after whole)
        | inr other ↦
            let d : item.stop ≡ item.time + day_millis =
              ground (arith, m, regular.of_time item.stop) in
            let z : ltb 0 (item.stop - (item.time + day_millis)) ≡ false = ground arith in
            rw (add_item-cut midnight first_day depth item week other, m, add_rest, z, ← d)
              (file_item_lem item.time item week after whole)
      ]

  rest_none : (item : Item) (next_morning i : ℕ) → [] ≡ rest_on first_day item next_morning 0 i
  rest_none item next_morning i =
      let e : (leb next_morning (day_start first_day i)
            && ltb (day_start first_day i) (next_morning + 0))
          ≡ false =
        ground arith in
      rw e refl

  rest_split :
      (item : Item) (next_morning excess i : ℕ)
      → epoch ≤ next_morning
      → (next_morning - epoch) % day_millis ≡ 0
      → 0 < excess
      → let temp_length = if ltb day_millis excess then day_millis else excess in
        only
            (next_morning == day_start first_day i)
            (record item { time = next_morning; stop = next_morning + temp_length })
          ++ rest_on first_day item (next_morning + day_millis) (excess - temp_length) i
        ≡ rest_on first_day item next_morning excess i
  rest_split item next_morning excess i after whole more =
      ground (arith, regular.since_epoch, regular.at_midnight)

  pub add_rest_lem :
      (depth rounds : ℕ) (item : Item) (next_morning excess : ℕ) (week : Week)
      → epoch ≤ next_morning
      → (next_morning - epoch) % day_millis ≡ 0
      → excess + day_millis ≤ rounds * day_millis
      → Adds
          (add_rest (add_item midnight first_day (suc depth)) item rounds next_morning excess week)
          week
          (rest_on first_day item next_morning excess)
  unfolding add_rest
  add_rest_lem depth zero item next_morning excess week after whole enough = absurd (omega arith)
  add_rest_lem depth (suc rounds) item next_morning excess week after whole enough =
      elim (Bool-cases (ltb 0 excess)) [
        | inr done ↦
            let z : excess ≡ 0 = ground arith in
            rw (z, add_rest)
              (Adds-same (ok week) week (λ _. []) _ (λ i low. rest_none item next_morning i)
                (Adds-none week))
        | inl more ↦
            let temp_length = if ltb day_millis excess then day_millis else excess in
            let piece : Item = record item {
              time = next_morning;
              stop = next_morning + temp_length;
            } in
            rw (add_rest, more)
              (Adds-same _ week _ _
                (λ i low. rest_split item next_morning excess i after whole (ltb→lt 0 excess more))
                (>>=-Adds (add_item midnight first_day (suc depth) piece week) _ week _ _
                  (piece_lem depth piece week after whole (ground arith) (ground arith))
                  (λ week'.
                    add_rest_lem depth rounds item (next_morning + day_millis)
                      (excess - temp_length) week' (omega arith) (omega arith) (ground arith))))
      ]
