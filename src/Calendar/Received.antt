-- ===== src/Calendar/Received.antt =====
-- All answers that view/schedule-svg.js takes in, where all days have 24 hours.
use mathlib.Core.List.{append_assoc}
use azkaban_private.Prelude.{ℕ, suc, ◌≤◌, ◌<◌, ◌≡◌, refl, Bool, List, [], ◌∷◌, ◌++◌, All}
use azkaban_private.Calendar.{Entry, Week, empty_week, process_items, receive, ok, num_days}
use azkaban_private.Calendar.Columns.{Item}
use azkaban_private.Calendar.Pieces.{IsRegular, Adds, Adds-none}
use azkaban_private.Calendar.Filed.{IsFiled, empty_week-IsFiled, receive-Keeps}
use azkaban_private.Calendar.Scheduled.{IsPartsOf, process_item-parts}

module _ {epoch first_day : ℕ} {midnight : ℕ → ℕ}
    (regular : IsRegular epoch first_day midnight) where
  -- The parts of the entries of an answer, one entry after the other.
  abbrev pub ArePartsOf : ℕ → List Entry → Bool → (ℕ → List Item) → Type 0
  ArePartsOf today [] scheduled items = (i : ℕ) → items i ≡ []
  ArePartsOf today (entry ∷ entries) scheduled items =
      (first rest : ℕ → List Item) × IsPartsOf regular today entry scheduled first
      × ArePartsOf today entries scheduled rest
      × ((i : ℕ) → items i ≡ first i ++ rest i)

  -- Those of all answers.
  abbrev pub AreAnswered : ℕ → List (List Entry × Bool) → (ℕ → List Item) → Type 0
  AreAnswered today [] items = (i : ℕ) → items i ≡ []
  AreAnswered today ((entries, scheduled) ∷ answers) items =
      (first rest : ℕ → List Item) × ArePartsOf today entries scheduled first
      × AreAnswered today answers rest
      × ((i : ℕ) → items i ≡ first i ++ rest i)

  process_items-parts :
      (depth today : ℕ) (entries : List Entry) (scheduled : Bool) (week : Week)
      → All (λ entry. epoch ≤ entry.time) entries
      → (items : ℕ → List Item) × ArePartsOf today entries scheduled items
        × Adds
            (process_items midnight first_day (suc (suc depth)) today entries scheduled week)
            week
            items
  unfolding process_items
  process_items-parts depth today [] scheduled week after = (λ _. [], λ i. refl, Adds-none week)
  process_items-parts depth today (entry ∷ entries) scheduled week (after, rest) =
      let (first, parts, (week1, run, gains)) =
        process_item-parts regular depth today entry scheduled week after in
      let (more, parts', (week2, run', gains')) =
        process_items-parts depth today entries scheduled week1 rest in
      (
        λ i. first i ++ more i,
        (first, more, parts, parts', λ i. refl),
        (
          week2,
          rw run run',
          λ i low. rw (gains' i low, gains i low) (append_assoc (week.by_day i) (first i) (more i)),
        ),
      )

  receive-parts :
      (depth today : ℕ) (answers : List (List Entry × Bool)) (week : Week)
      → All (λ answer. All (λ entry. epoch ≤ entry.time) answer.0) answers
      → (items : ℕ → List Item) × AreAnswered today answers items
        × Adds (receive midnight first_day (suc (suc depth)) today answers week) week items
  unfolding receive
  receive-parts depth today [] week after = (λ _. [], λ i. refl, Adds-none week)
  receive-parts depth today ((entries, scheduled) ∷ answers) week (after, rest) =
      let (first, parts, (week1, run, gains)) =
        process_items-parts depth today entries scheduled week after in
      let (more, parts', (week2, run', gains')) = receive-parts depth today answers week1 rest in
      (
        λ i. first i ++ more i,
        (first, more, parts, parts', λ i. refl),
        (
          week2,
          rw run run',
          λ i low. rw (gains' i low, gains i low) (append_assoc (week.by_day i) (first i) (more i)),
        ),
      )

  -- Where all days have 24 hours, every sequence of answers is taken in without an error. Then the
  -- array of each day of the week has exactly the parts that fall on the day of the entries of the
  -- answers: of an entry without a period, if its time lies in the week, and for a schedule not
  -- before today; of the one item up to the end of the week of an entry with a period of at most an
  -- hour; and of the entry at each of its times there for a longer period. Each item is in the array
  -- of the day at whose midnight its date begins, and each array of itemByScheduleIdMap holds
  -- exactly the items of its schedule in the arrays of the days.
  pub receive-IsFiled :
      (depth today : ℕ) (answers : List (List Entry × Bool))
      → All (λ answer. All (λ entry. epoch ≤ entry.time) answer.0) answers
      → (week : Week) × (receive midnight first_day (suc (suc depth)) today answers empty_week
          ≡ ok week)
        × ((items : ℕ → List Item) × AreAnswered today answers items
            × ((i : ℕ) → i < num_days → week.by_day i ≡ items i))
        × IsFiled midnight first_day week
  receive-IsFiled depth today answers after =
      let (items, parts, (week, run, gains)) = receive-parts depth today answers empty_week after in
      (
        week,
        run,
        (items, parts, gains),
        receive-Keeps midnight first_day _ today answers empty_week week
            (empty_week-IsFiled midnight first_day) run,
      )
