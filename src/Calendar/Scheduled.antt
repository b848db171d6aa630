-- ===== src/Calendar/Scheduled.antt =====
-- What processItem of view/schedule-svg.js adds to the days, where all days have 24 hours.
use azkaban_private.Prelude.{
  ℕ, zero, suc, ◌+◌, ◌-◌, ◌≤◌, ◌<◌, ◌==◌, ==_iff, ◌&&◌, ◌≡◌, refl, ◌↔◌, leb, ltb, ltb→lt,
  if◌then◌else◌, Bool, Bool-cases, true, false, ◌⊎◌, inl, inr, List, [], ◌∷◌, Memᴰ, Memᴰ-cons,
  arith,
}
use azkaban_private.Calendar.{
  Entry, Week, repeat, process_item, restricted_start, occurrence, add_item, end_time, hour_millis,
}
use azkaban_private.Calendar.Columns.{Item}
use azkaban_private.Calendar.Pieces.{IsRegular, part_on, Adds, Adds-none, >>=-Adds}
use azkaban_private.Calendar.Cut.{add_item_lem}
use azkaban_private.Calendar.Repeats.{
  IsTime, IsFirst, first_after_lem, parts_on, Ascending, Ascending-weaker, Follows, Follows-step,
  Follows-first,
}

le_total : (a b : ℕ) → (a ≤ b) ⊎ (b ≤ a)
le_total a b = ground arith

module _ {epoch first_day : ℕ} {midnight : ℕ → ℕ}
    (regular : IsRegular epoch first_day midnight) where
  repeat_lem :
      (fuel depth : ℕ) (entry : Entry) (first_time : ℕ)
      → 0 < entry.period
      → end_time first_day - first_time < fuel
      → epoch ≤ first_time
      → (times : List ℕ) × ((week : Week)
          → Adds
              (repeat midnight first_day fuel (suc (suc depth)) entry first_time week)
              week
              (parts_on first_day entry times))
        × Ascending first_time times
        × ((t : ℕ) → Memᴰ t times ↔ Follows first_time entry.period (end_time first_day) t)
  unfolding repeat
  repeat_lem zero depth entry first_time positive enough after = absurd (omega arith)
  repeat_lem (suc fuel) depth entry first_time positive enough after =
      let end = end_time first_day in
      elim (Bool-cases (ltb first_time end)) [
        | inr done ↦ (
          [],
          λ week. rw (repeat, done) (Adds-none week),
          tt,
          λ t. ((λ m. elim m [ ]), λ (low, (k, e)). absurd (ground arith)),
        )
        | inl more ↦
            let early : first_time < end = ltb→lt first_time end more in
            let next = first_time + entry.period in
            let (times, adds, ascending, exact) =
              repeat_lem fuel depth entry next positive (omega arith) (omega arith) in
            (
              first_time ∷ times,
              λ week.
                  rw (repeat, more)
                    (>>=-Adds
                      (add_item midnight first_day (suc (suc depth)) (occurrence entry first_time)
                        week)
                      _ week _ _
                      (add_item_lem regular depth (occurrence entry first_time) week after
                        (inl (omega arith)))
                      adds),
              (omega arith, Ascending-weaker (suc first_time) next times (omega arith) ascending),
              λ t.
                  let step = Follows-step first_time entry.period end t early in
                  let mem = Memᴰ-cons t first_time times in
                  let (to, from) = exact t in
                  (
                    (λ m.
                        step.1
                          (elim (mem.0 m) [ inl same ↦ inl same | inr later ↦ inr (to later) ])),
                    λ f.
                        mem.1
                          (elim (step.0 f) [ inl same ↦ inl same | inr later ↦ inr (from later) ]),
                  ),
            )
      ]

  -- Where all days have 24 hours, processItem returns for an entry with a period of more than an
  -- hour: it adds the entry at exactly the times, a whole number of periods after the entry's, that
  -- lie in the week and for a schedule not before today, so that an item that starts before the week
  -- is not added even if it runs into it; each day gets in their order the parts of these items that
  -- fall on it.
  pub process_item-repeats :
      (depth today : ℕ) (entry : Entry) (scheduled : Bool) (week : Week)
      → epoch ≤ entry.time
      → hour_millis < entry.period
      → (times : List ℕ) × Adds
          (process_item midnight first_day (suc (suc depth)) today entry scheduled week)
          week
          (parts_on first_day entry times)
        × Ascending 0 times
        × ((t : ℕ)
            → Memᴰ t times ↔ (
                IsTime entry (restricted_start first_day today scheduled) t
                × (t < end_time first_day)))
  unfolding process_item
  process_item-repeats depth today entry scheduled week after long =
      let end = end_time first_day in
      let restricted = restricted_start first_day today scheduled in
      let (first_time, run, is_first) = first_after_lem entry restricted (omega arith) in
      let z : (entry.period == 0) ≡ false = ground arith in
      let l : leb entry.period hour_millis ≡ false = ground arith in
      let (times, adds, ascending, exact) =
        repeat_lem (suc end) depth entry first_time (omega arith) (omega arith)
          (omega (arith, is_first.is_time.1.1)) in
      (
        times,
        rw (z, run, l) (adds week),
        Ascending-weaker 0 first_time times (omega arith) ascending,
        λ t.
            let (to, from) = exact t in
            let (reach, follow) =
              Follows-first entry restricted first_time end t (omega arith) is_first in
            ((λ m. reach (to m)), λ is_time. from (follow is_time)),
      )

  -- Where all days have 24 hours, processItem returns for an entry with a period of at most an hour:
  -- it adds one item, from the first of the entry's times in the week, and for a schedule not before
  -- today, to the end of the week, and each day gets the part of it that falls on it.
  pub process_item-frequent :
      (depth today : ℕ) (entry : Entry) (scheduled : Bool) (week : Week)
      → epoch ≤ entry.time
      → 0 < entry.period
      → entry.period ≤ hour_millis
      → (first_time : ℕ) × IsFirst entry (restricted_start first_day today scheduled) first_time
        × Adds
            (process_item midnight first_day (suc (suc depth)) today entry scheduled week)
            week
            (part_on first_day (record (occurrence entry first_time) { stop = end_time first_day }))
  unfolding process_item
  process_item-frequent depth today entry scheduled week after positive short =
      let end = end_time first_day in
      let restricted = restricted_start first_day today scheduled in
      let (first_time, run, is_first) = first_after_lem entry restricted positive in
      let z : (entry.period == 0) ≡ false = ground arith in
      let l : leb entry.period hour_millis ≡ true = ground arith in
      (
        first_time,
        is_first,
        rw (z, run, l)
            (add_item_lem regular depth (record (occurrence entry first_time) { stop = end }) week
              (omega (arith, is_first.is_time.1.1)) (le_total first_time end)),
      )

  process_item-single :
      (depth today : ℕ) (entry : Entry) (scheduled : Bool) (week : Week)
      → epoch ≤ entry.time
      → entry.period ≡ 0
      → let shown =
          leb (restricted_start first_day today scheduled) entry.time
          && ltb entry.time (end_time first_day) in
        Adds
          (process_item midnight first_day (suc (suc depth)) today entry scheduled week)
          week
          (λ i. if shown then part_on first_day (occurrence entry entry.time) i else [])
  unfolding process_item
  process_item-single depth today entry scheduled week after none_set =
      let shown =
        leb (restricted_start first_day today scheduled) entry.time
        && ltb entry.time (end_time first_day) in
      let z : (entry.period == 0) ≡ true = (==_iff _ _).1 none_set in
      elim (Bool-cases shown) [
        | inl yes_shown ↦
            rw (z, yes_shown)
              (add_item_lem regular depth (occurrence entry entry.time) week after
                (inl (omega arith)))
        | inr not_shown ↦ rw (z, not_shown) (Adds-none week)
      ]

  -- What the days get of one entry, at what time of day it is today.
  abbrev pub IsPartsOf : ℕ → Entry → Bool → (ℕ → List Item) → Type 0
  IsPartsOf today entry scheduled items =
      let restricted = restricted_start first_day today scheduled in
      let end = end_time first_day in
      ((entry.period ≡ 0)
        × ((i : ℕ)
            → items i ≡ (
                if leb restricted entry.time && ltb entry.time end
                then part_on first_day (occurrence entry entry.time) i
                else [])))
      ⊎ (((0 < entry.period)
            × (entry.period ≤ hour_millis)
            × ((first_time : ℕ) × IsFirst entry restricted first_time
                × ((i : ℕ)
                    → items i
                      ≡ part_on first_day (record (occurrence entry first_time) { stop = end }) i)))
          ⊎ ((hour_millis < entry.period)
              × ((times : List ℕ) × Ascending 0 times
                  × ((t : ℕ) → Memᴰ t times ↔ (IsTime entry restricted t × (t < end)))
                  × ((i : ℕ) → items i ≡ parts_on first_day entry times i))))

  -- Whatever the period, processItem returns, and adds the parts of the entry.
  pub process_item-parts :
      (depth today : ℕ) (entry : Entry) (scheduled : Bool) (week : Week)
      → epoch ≤ entry.time
      → (items : ℕ → List Item) × IsPartsOf today entry scheduled items
        × Adds
            (process_item midnight first_day (suc (suc depth)) today entry scheduled week)
            week
            items
  process_item-parts depth today entry scheduled week after =
      elim (Bool-cases (entry.period == 0)) [
        | inl single ↦
            let none_set = (==_iff _ _).0 single in
            (
              _,
              inl (none_set, λ i. refl),
              process_item-single depth today entry scheduled week after none_set,
            )
        | inr periodic ↦ elim (Bool-cases (leb entry.period hour_millis)) [
          | inl short ↦
              let (first_time, is_first, adds) =
                process_item-frequent depth today entry scheduled week after (ground arith)
                  (ground arith) in
              (_, inr (inl (ground arith, ground arith, (first_time, is_first, λ i. refl))), adds)
          | inr long ↦
              let (times, adds, ascending, exact) =
                process_item-repeats depth today entry scheduled week after (ground arith) in
              (_, inr (inr (ground arith, (times, ascending, exact, λ i. refl))), adds)
        ]
      ]
