-- ===== src/Calendar/Filed.antt =====
-- Where view/schedule-svg.js keeps the items of the calendar, whatever the midnights are.
use azkaban_private.Prelude.{
  ℕ, zero, suc, ◌+◌, ◌-◌, ◌*◌, ◌/◌, ◌%◌, ◌<◌, ◌==◌, ==_iff, ◌≡◌, ◌↔◌, refl, sym, ap, subst, ◌∙◌,
  leb, ltb, if◌then◌else◌, Bool, Bool-cases, true, false, ◌&&◌, ◌⊎◌, inl, inr, List, [], ◌∷◌, Memᴰ,
  Memᴰ-last, arith,
}
use azkaban_private.Calendar.Columns.{Item}
use azkaban_private.Calendar.{
  Outcome, ok, Entry, Week, empty_week, push, file_item, add_rest, add_item, repeat, first_after,
  process_item, process_items, receive, end_time, hour_millis, day_millis, num_days, ◌>>=◌, both_ok,
}

mem-push :
    (index i : ℕ) (item x : Item) (arrays : ℕ → List Item)
    → Memᴰ x (push index item arrays i) ↔ (Memᴰ x (arrays i) ⊎ ((i ≡ index) × (x ≡ item)))
mem-push index i item x arrays = elim (Bool-cases (i == index)) [
  | inl here ↦
      let (to, from) = Memᴰ-last x item (arrays i) in
      let e = (==_iff i index).0 here in
      rw here (
        (λ m. elim (to m) [ inl old ↦ inl old | inr new ↦ inr (e, new) ]),
        λ either. elim either [ inl old ↦ from (inl old) | inr (_, new) ↦ from (inr new) ],
      )
  | inr other ↦
      rw other
        ((λ m. inl m), λ either. elim either [ inl old ↦ old | inr (e, _) ↦ absurd (ground arith) ])
]

-- Each item is in the array of the day at whose midnight its date begins, and an array of
-- `itemByScheduleIdMap` has exactly the items of its schedule in the days' arrays.
pub record IsFiled (midnight : ℕ → ℕ) (first_day : ℕ) (week : Week) : Type 0 where
  pub dated :
      (i : ℕ) (x : Item)
      → Memᴰ x (week.by_day i)
      → (i < num_days) × (midnight x.time ≡ first_day + i * day_millis)
  pub indexed :
      (s : ℕ) (x : Item)
      → Memᴰ x (week.by_schedule s) ↔ ((s ≡ x.schedule) × ((i : ℕ) × Memᴰ x (week.by_day i)))

module _ (midnight : ℕ → ℕ) (first_day : ℕ) where
  pub empty_week-IsFiled : IsFiled midnight first_day empty_week
  empty_week-IsFiled = record {
    dated = λ i x m. elim m [ ];
    indexed = λ s x. ((λ m. elim m [ ]), λ (_, (_, m)). elim m [ ]);
  }

  -- A step keeps this, if it returns.
  abbrev pub Keeps : (Week → Outcome Week) → Type 0
  Keeps f =
      (week week' : Week)
      → IsFiled midnight first_day week
      → f week ≡ ok week'
      → IsFiled midnight first_day week'

  ok-Keeps : Keeps (λ week. ok week)
  ok-Keeps week week' filed run = subst (IsFiled midnight first_day) (cc) filed

  >>=-Keeps : (f g : Week → Outcome Week) → Keeps f → Keeps g → Keeps (λ week. f week >>= g)
  >>=-Keeps f g keep keep' week week' filed run =
      let (week1, run1, run2) = both_ok (f week) g run in
      keep' week1 week' (keep week week1 filed run1) run2

  -- A call that may be made or not.
  if-Keeps :
      (b : Bool) (f g : Week → Outcome Week)
      → Keeps f
      → Keeps g
      → Keeps (λ week. if b then f week else g week)
  if-Keeps true f g keep keep' = keep
  if-Keeps false f g keep keep' = keep'

  push-IsFiled :
      (index : ℕ) (item : Item) (week : Week)
      → index < num_days
      → midnight item.time ≡ first_day + index * day_millis
      → IsFiled midnight first_day week
      → IsFiled midnight first_day (record {
        by_day = push index item week.by_day;
        by_schedule = push item.schedule item week.by_schedule;
      })
  push-IsFiled index item week low at_day filed = record {
    dated = λ i x m. elim ((mem-push index i item x week.by_day).0 m) [
      | inl old ↦ filed.dated i x old
      | inr (here, new) ↦ (
        omega arith,
        ap (λ (y : Item). midnight y.time) new
            ∙ at_day
            ∙ ap (λ (n : ℕ). first_day + n * day_millis) (sym here),
      )
    ];
    indexed = λ s x.
        let (split, join) = mem-push item.schedule s item x week.by_schedule in
        let (old_to, old_from) = filed.indexed s x in
        (
          (λ m. elim (split m) [
            | inl old ↦
                let (same, (i, old')) = old_to old in
                (same, (i, (mem-push index i item x week.by_day).1 (inl old')))
            | inr (same, new) ↦ (
              same ∙ ap (λ (y : Item). y.schedule) (sym new),
              (index, (mem-push index index item x week.by_day).1 (inr (refl, new))),
            )
          ]),
          λ (same, (i, m)). elim ((mem-push index i item x week.by_day).0 m) [
            | inl old ↦ join (inl (old_from (same, (i, old))))
            | inr (here, new) ↦ join (inr (same ∙ ap (λ (y : Item). y.schedule) new, new))
          ],
        );
  }

  file_item-Keeps : (item : Item) → Keeps (file_item midnight first_day (midnight item.time) item)
  unfolding file_item
  file_item-Keeps item week week' filed run =
      let since = midnight item.time - first_day in
      let t1 = leb first_day (midnight item.time) && ltb since (num_days * day_millis) in
      elim (Bool-cases t1) [
        | inr without ↦ ok-Keeps week week' filed (rw without at run)
        | inl within ↦ elim (Bool-cases ((since % day_millis) == 0)) [
          | inr part ↦ cc (rw (within, part) at run)
          | inl whole ↦
              ok-Keeps _ week'
                (push-IsFiled (since / day_millis) item week (ground arith) (ground arith) filed)
                (rw (within, whole) at run)
        ]
      ]

  add_rest-Keeps :
      (add : Item → Week → Outcome Week)
      → ((item : Item) → Keeps (add item))
      → (item : Item) (rounds next_morning excess : ℕ)
      → Keeps (add_rest add item rounds next_morning excess)
  unfolding add_rest
  add_rest-Keeps add keep item zero next_morning excess week week' filed run = cc
  add_rest-Keeps add keep item (suc rounds) next_morning excess week week' filed run =
      elim (Bool-cases (ltb 0 excess)) [
        | inr done ↦ ok-Keeps week week' filed (rw (add_rest, done) at run)
        | inl more ↦
            >>=-Keeps _ _ (keep _) (add_rest-Keeps add keep item rounds _ _) week week' filed
              (rw (add_rest, more) at run)
      ]

  add_item-Keeps : (depth : ℕ) (item : Item) → Keeps (add_item midnight first_day depth item)
  unfolding add_item
  add_item-Keeps zero item week week' filed run = cc
  add_item-Keeps (suc depth) item week week' filed run =
      elim (Bool-cases (midnight item.time == midnight item.stop)) [
        | inl same ↦ file_item-Keeps item week week' filed (rw (add_item, same) at run)
        | inr other ↦
            >>=-Keeps _ _
              (add_rest-Keeps (add_item midnight first_day depth) (add_item-Keeps depth) item _ _ _)
              (file_item-Keeps (record item { stop = midnight item.time + day_millis })) week week'
              filed (rw (add_item, other) at run)
      ]

  repeat-Keeps :
      (fuel depth : ℕ) (entry : Entry) (first_time : ℕ)
      → Keeps (repeat midnight first_day fuel depth entry first_time)
  unfolding repeat
  repeat-Keeps zero depth entry first_time week week' filed run = cc
  repeat-Keeps (suc fuel) depth entry first_time week week' filed run =
      elim (Bool-cases (ltb first_time (end_time first_day))) [
        | inr done ↦ ok-Keeps week week' filed (rw (repeat, done) at run)
        | inl more ↦
            >>=-Keeps _ _ (add_item-Keeps depth _) (repeat-Keeps fuel depth entry _) week week'
              filed (rw (repeat, more) at run)
      ]

  process_item-Keeps :
      (depth today : ℕ) (entry : Entry) (scheduled : Bool)
      → Keeps (process_item midnight first_day depth today entry scheduled)
  unfolding process_item
  process_item-Keeps depth today entry scheduled =
      if-Keeps (entry.period == 0) _ _ (if-Keeps _ _ _ (add_item-Keeps depth _) ok-Keeps)
        (λ week week' filed run.
          let (first_time, _, run') = both_ok (first_after entry _) _ run in
          if-Keeps (leb entry.period hour_millis) _ _ (add_item-Keeps depth _)
            (repeat-Keeps _ depth entry first_time) week week' filed run')

  process_items-Keeps :
      (depth today : ℕ) (entries : List Entry) (scheduled : Bool)
      → Keeps (process_items midnight first_day depth today entries scheduled)
  unfolding process_items
  process_items-Keeps depth today [] scheduled = ok-Keeps
  process_items-Keeps depth today (entry ∷ entries) scheduled =
      >>=-Keeps _ _ (process_item-Keeps depth today entry scheduled)
        (process_items-Keeps depth today entries scheduled)

  pub receive-Keeps :
      (depth today : ℕ) (answers : List (List Entry × Bool))
      → Keeps (receive midnight first_day depth today answers)
  unfolding receive
  receive-Keeps depth today [] = ok-Keeps
  receive-Keeps depth today ((entries, scheduled) ∷ answers) =
      >>=-Keeps _ _ (process_items-Keeps depth today entries scheduled)
        (receive-Keeps depth today answers)
