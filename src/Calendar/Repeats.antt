-- ===== src/Calendar/Repeats.antt =====
-- At what times processItem of view/schedule-svg.js adds an entry that has a period.
use azkaban_private.Prelude.{
  ℕ, zero, suc, ◌+◌, ◌-◌, ◌*◌, ◌/◌, ◌≤◌, ◌<◌, ◌≡◌, ◌↔◌, refl, ap, ltb, Bool-cases, ◌⊎◌, inl, inr,
  List, [], ◌∷◌, ◌++◌, arith,
}
use native.Mathlib.Nat.{mul_comm, add-mul, mul-div-le, mul-le-mul_right}
use native.Mathlib.Decide.{dec_lt}
use azkaban_private.Calendar.Columns.{Item}
use azkaban_private.Calendar.{ok, Entry, catch_up, first_after, occurrence}
use azkaban_private.Calendar.Pieces.{part_on}

-- A time of an entry that is not before the start.
abbrev pub IsTime : Entry → ℕ → ℕ → Type 0
IsTime entry restricted t = (restricted ≤ t) × ((k : ℕ) × (t ≡ entry.time + k * entry.period))

-- The first of these times.
pub record IsFirst (entry : Entry) (restricted first_time : ℕ) : Type 0 where
  pub is_time : IsTime entry restricted first_time
  pub first : (t : ℕ) → IsTime entry restricted t → first_time ≤ t

add_period : (k p : ℕ) → suc k * p ≡ p + k * p
add_period k p = grind arith

-- A time that is more than a period back is not the first.
times_apart :
    (time p k m restricted : ℕ)
    → time + k * p < restricted + p
    → restricted ≤ time + m * p
    → k * p ≤ m * p
times_apart time p k m restricted low high = elim (dec_lt m k) [
  | yes less ↦ absurd (omega (arith, mul-le-mul_right p less, add_period m p))
  | no more ↦ mul-le-mul_right p (omega arith)
]

module _ (entry : Entry) (restricted : ℕ) where
  catch_up_lem :
      (fuel first_time : ℕ)
      → 0 < entry.period
      → restricted - first_time < fuel
      → ((k : ℕ) × (first_time ≡ entry.time + k * entry.period))
      → (first_time ≡ entry.time) ⊎ (first_time < restricted + entry.period)
      → (t : ℕ) × (catch_up fuel restricted entry.period first_time ≡ ok t)
        × IsTime entry restricted t
        × ((t ≡ entry.time) ⊎ (t < restricted + entry.period))
  unfolding catch_up
  catch_up_lem zero first_time positive enough steps near = absurd (omega arith)
  catch_up_lem (suc fuel) first_time positive enough (k, e) near =
      elim (Bool-cases (ltb first_time restricted)) [
        | inl early ↦
            let (t, run, is_time, near') =
              catch_up_lem fuel (first_time + entry.period) positive (ground arith)
                (suc k, omega (arith, add_period k entry.period)) (inr (ground arith)) in
            (t, rw (catch_up, early) run, is_time, near')
        | inr late ↦ (first_time, rw (catch_up, late) refl, (ground arith, (k, e)), near)
      ]

  pub first_after_lem :
      0 < entry.period
      → (t : ℕ) × (first_after entry restricted ≡ ok t) × IsFirst entry restricted t
  unfolding first_after
  first_after_lem positive =
      let periods = (restricted - entry.time) / entry.period in
      let jump = entry.time + entry.period * periods in
      let (t, run, is_time, near) =
        catch_up_lem (suc restricted) jump positive (omega arith)
          (periods, omega (arith, mul_comm entry.period periods))
          (ground (arith, mul-div-le (restricted - entry.time) entry.period)) in
      (
        t,
        run,
        record {
          is_time = is_time;
          first = λ other (later, (m, e)).
              let (_, (k, e')) = is_time in
              elim near [
                | inl same ↦ omega arith
                | inr close ↦ omega (
                  arith,
                  times_apart entry.time entry.period k m restricted (omega arith) (omega arith),
                )
              ];
        },
      )

-- The parts of an entry on a day that starts at these times.
abbrev pub parts_on : ℕ → Entry → List ℕ → ℕ → List Item
parts_on first_day entry [] i = []
parts_on first_day entry (t ∷ times) i =
    part_on first_day (occurrence entry t) i ++ parts_on first_day entry times i

-- Each is greater than the one before, and the first at least the bound.
abbrev pub Ascending : ℕ → List ℕ → Type 0
Ascending low [] = Unit
Ascending low (t ∷ times) = (low ≤ t) × Ascending (suc t) times

pub Ascending-weaker :
    (low low' : ℕ) (times : List ℕ) → low ≤ low' → Ascending low' times → Ascending low times
Ascending-weaker low low' [] lower up = tt
Ascending-weaker low low' (t ∷ times) lower (first, up) = (omega arith, up)

times_le : (k m p : ℕ) → 0 < p → k * p ≤ m * p → k ≤ m
times_le k m p positive low = elim (dec_lt m k) [
  | yes less ↦ absurd (omega (arith, mul-le-mul_right p less, add_period m p))
  | no more ↦ omega arith
]

ℕ-cases : (k : ℕ) → (k ≡ 0) ⊎ ((k' : ℕ) × (k ≡ suc k'))
ℕ-cases zero = inl refl
ℕ-cases (suc k) = inr (k, refl)

-- A time a number of periods later, and before the end.
abbrev pub Follows : ℕ → ℕ → ℕ → ℕ → Type 0
Follows first_time period end t = (t < end) × ((k : ℕ) × (t ≡ first_time + k * period))

pub Follows-step :
    (first_time period end t : ℕ)
    → first_time < end
    → Follows first_time period end t
      ↔ ((t ≡ first_time) ⊎ Follows (first_time + period) period end t)
Follows-step first_time period end t early = (
  λ (low, (k, e)). elim (ℕ-cases k) [
    | inl z ↦ inl (omega (arith, ap (λ (n : ℕ). n * period) z))
    | inr (k', e') ↦
        inr (low, (k', omega (arith, ap (λ (n : ℕ). n * period) e', add_period k' period)))
  ],
  λ either. elim either [
    | inl same ↦ (omega arith, (0, omega arith))
    | inr (low, (k, e)) ↦ (low, (suc k, omega (arith, add_period k period)))
  ],
)

pub Follows-first :
    (entry : Entry) (restricted first_time end t : ℕ)
    → 0 < entry.period
    → IsFirst entry restricted first_time
    → Follows first_time entry.period end t ↔ (IsTime entry restricted t × (t < end))
Follows-first entry restricted first_time end t positive is_first =
    let (late, (k, e)) = is_first.is_time in
    (
      λ (low, (n, e')). ((omega arith, (k + n, omega (arith, add-mul k n entry.period))), low),
      λ ((later, (m, e')), low).
          let after = is_first.first t (later, (m, e')) in
          let more = times_le k m entry.period positive (omega arith) in
          (
            low,
            (
              m - k,
              omega (
                arith,
                add-mul k (m - k) entry.period,
                ap (λ (n : ℕ). n * entry.period) (split k m more),
              ),
            ),
          ),
    )
  where
    split : (k m : ℕ) → k ≤ m → m ≡ k + (m - k)
    split k m more = omega arith
