-- ===== src/Durations/Fields.antt =====
-- What the fields of a formatted duration say of it.
use azkaban_private.Prelude.{
  ℕ, ◌+◌, ◌-◌, ◌*◌, ◌/◌, ◌%◌, ◌≤◌, ◌<◌, ltb→lt, ◌≡◌, refl, ◌==◌, ltb, false, ◌||◌, Option, none,
  some, arith, Bool-cases, inl, inr, ◌⊎◌,
}
use azkaban_private.Flow.{Stamp, missing, unset, at_ms}
use azkaban_private.Durations.{
  Duration, fraction, seconds, minutes, hours, days, format_duration, get_duration,
}

-- The least number of milliseconds that a formatted duration can stand for, and the first one
-- beyond.
abbrev pub least : Duration → ℕ
least (fraction diff digits) = diff
least (seconds s) = s * 1000
least (minutes m s) = (m * 60 + s) * 1000
least (hours h m s) = ((h * 60 + m) * 60 + s) * 1000
least (days d h m) = ((d * 24 + h) * 60 + m) * 60000

abbrev pub beyond : Duration → ℕ
beyond (fraction diff digits) = diff + 1
beyond (seconds s) = least (seconds s) + 1000
beyond (minutes m s) = least (minutes m s) + 1000
beyond (hours h m s) = least (hours h m s) + 1000
beyond (days d h m) = least (days d h m) + 60000

-- Every field but the first is below what the next greater unit holds, and the first is not 0
-- where there are several.
abbrev pub IsNormal : Duration → Type 0
IsNormal (fraction diff digits) = diff < 60000
IsNormal (seconds s) = s < 60
IsNormal (minutes m s) = (1 ≤ m) × (m < 60) × (s < 60)
IsNormal (hours h m s) = (1 ≤ h) × (h < 24) × (m < 60) × (s < 60)
IsNormal (days d h m) = (1 ≤ d) × (h < 24) × (m < 60)

abbrev Fits : Duration → ℕ → Type 0
Fits t diff = IsNormal t × (least t ≤ diff) × (diff < beyond t)

ge : (a b : ℕ) → ltb a b ≡ false → b ≤ a
ge a b e = ground arith

short_lem :
    (diff : ℕ)
    → diff / 1000 < 60
    → (o : Option ℕ)
    → Fits (elim o [ none ↦ seconds (diff / 1000) | some digits ↦ fraction diff digits ]) diff
short_lem diff low none = (low, omega arith, omega arith)
short_lem diff low (some digits) = (omega arith, omega arith, omega arith)

minutes_lem :
    (diff : ℕ)
    → 60 ≤ diff / 1000
    → diff / 1000 / 60 < 60
    → Fits (minutes (diff / 1000 / 60) (diff / 1000 % 60)) diff
minutes_lem diff low high = ((omega arith, high, omega arith), omega arith, omega arith)

hours_lem :
    (diff : ℕ)
    → 60 ≤ diff / 1000 / 60
    → diff / 1000 / 60 / 60 < 24
    → Fits (hours (diff / 1000 / 60 / 60) (diff / 1000 / 60 % 60) (diff / 1000 % 60)) diff
hours_lem diff low high = ((omega arith, high, omega arith, omega arith), omega arith, omega arith)

days_lem :
    (diff : ℕ)
    → 24 ≤ diff / 1000 / 60 / 60
    → Fits
        (days (diff / 1000 / 60 / 60 / 24) (diff / 1000 / 60 / 60 % 24) (diff / 1000 / 60 % 60))
        diff
days_lem diff low = ((omega arith, omega arith, omega arith), omega arith, omega arith)

-- The fields that `formatDuration` gives are in range, and they determine the duration to the
-- second below a day and to the minute from a day on.
pub format_duration-IsNormal :
    (diff : ℕ) (sig : Option ℕ)
    → IsNormal (format_duration diff sig)
      × (least (format_duration diff sig) ≤ diff)
      × (diff < beyond (format_duration diff sig))
unfolding format_duration
format_duration-IsNormal diff sig =
    let s = diff / 1000 in
    let mins = s / 60 in
    let hrs = mins / 60 in
    elim (Bool-cases (ltb s 60)) [
      | inl short ↦ rw short (short_lem diff (ltb→lt s 60 short) sig)
      | inr second ↦ elim (Bool-cases (ltb mins 60)) [
        | inl short ↦ rw (second, short) (minutes_lem diff (ge s 60 second) (ltb→lt mins 60 short))
        | inr minute ↦ elim (Bool-cases (ltb hrs 24)) [
          | inl short ↦
              rw (second, minute, short) (hours_lem diff (ge mins 60 minute) (ltb→lt hrs 24 short))
          | inr hour ↦ rw (second, minute, hour) (days_lem diff (ge hrs 24 hour))
        ]
      ]
    ]

-- A text for a duration is given exactly if something began after the time 0 and had ended, no
-- earlier than it began; otherwise it is "-". Then its fields stand for the time between.
pub get_duration_cases :
    (start end : Stamp)
    → ((a : ℕ) × (b : ℕ) × (start ≡ at_ms a)
        × (end ≡ at_ms b)
        × (0 < a)
        × (a ≤ b)
        × ((t : Duration) × (get_duration start end ≡ some t)
            × IsNormal t
            × (least t ≤ b - a)
            × (b - a < beyond t)))
      ⊎ (get_duration start end ≡ none)
        × ¬ ((a : ℕ) × (b : ℕ) × (start ≡ at_ms a) × (end ≡ at_ms b) × (0 < a) × (a ≤ b))
unfolding get_duration
get_duration_cases (at_ms a) (at_ms b) = elim (Bool-cases (a == 0 || ltb b a)) [
  | inl bad ↦ inr (
    rw bad refl,
    λ w.
        let same_start : a ≡ w.0 = cc (w.2) in
        let same_end : b ≡ w.1 = cc (w.3) in ground (arith, w.4, w.5),
  )
  | inr good ↦
      let (normal, low, high) = format_duration-IsNormal (b - a) none in
      inl (
        a,
        b,
        refl,
        refl,
        ground arith,
        ground arith,
        (format_duration (b - a) none, rw good refl, normal, low, high),
      )
]
get_duration_cases missing end = inr (refl, λ w. cc (w.2))
get_duration_cases unset end = inr (refl, λ w. cc (w.2))
get_duration_cases (at_ms a) missing = inr (refl, λ w. cc (w.3))
get_duration_cases (at_ms a) unset = inr (refl, λ w. cc (w.3))
