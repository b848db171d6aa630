-- ===== src/Durations.antt =====
-- util/date.js: how long something took, and times of day, as texts.
pub mod Fields
mod Tests
use Prim.Native.String.{◌++◌ as join_texts}
use azkaban_private.Prelude.{
  ℕ, ◌+◌, ◌-◌, ◌/◌, ◌%◌, ◌==◌, ◌≡◌, ltb, if◌then◌else◌, Bool, false, true, ◌||◌, Option, none, some,
  List, [], ◌∷◌, String,
}
use azkaban_private.Flow.{Stamp, missing, unset, at_ms}

-- The shapes of the texts that `formatDuration` returns.
pub data Duration : Type 0 where
  -- Milliseconds, and the digits after the point.
  fraction : ℕ → ℕ → Duration
  seconds : ℕ → Duration
  minutes : ℕ → ℕ → Duration
  hours : ℕ → ℕ → ℕ → Duration
  days : ℕ → ℕ → ℕ → Duration

-- `formatDuration`, where `none` is a `millisecSig` that reads as false.
unfoldable pub format_duration : ℕ → Option ℕ → Duration
format_duration diff millisec_sig =
    let s = diff / 1000 in
    let mins = s / 60 in
    let hrs = mins / 60 in
    if ltb s 60
    then elim millisec_sig [ none ↦ seconds s | some digits ↦ fraction diff digits ]
    else if ltb mins 60
    then minutes mins (s % 60)
    else if ltb hrs 24
    then hours hrs (mins % 60) (s % 60)
    else days (hrs / 24) (hrs % 24) (mins % 60)

-- `getDuration`, where `none` is the text "-". A start of 0 reads as false, and an end of -1 is
-- before every start.
unfoldable pub get_duration : Stamp → Stamp → Option Duration
get_duration (at_ms start) (at_ms end) =
    if start == 0 || ltb end start then none else some (format_duration (end - start) none)
get_duration _ _ = none

-- The texts. `text_of` is the engine's text of a number, and `to_fixed` that of a number of
-- thousandths with some digits after the point.
module _ (text_of : ℕ → String) (to_fixed : ℕ → ℕ → String) where
  abbrev all_of : List String → String
  all_of [] = ""
  all_of (s ∷ rest) = join_texts s (all_of rest)

  unfoldable pub duration_text : Duration → String
  duration_text (fraction diff digits) = all_of (to_fixed diff digits ∷ " s" ∷ [])
  duration_text (seconds s) = all_of (text_of s ∷ " sec" ∷ [])
  duration_text (minutes m s) = all_of (text_of m ∷ "m " ∷ text_of s ∷ "s" ∷ [])
  duration_text (hours h m s) = all_of (text_of h ∷ "h " ∷ text_of m ∷ "m " ∷ text_of s ∷ "s" ∷ [])
  duration_text (days d h m) = all_of (text_of d ∷ "d " ∷ text_of h ∷ "h " ∷ text_of m ∷ "m" ∷ [])

  -- `getTwoDigitStr`, as the text that it is joined as.
  abbrev pub two_digits : ℕ → String
  two_digits value = if ltb value 10 then join_texts "0" (text_of value) else text_of value

  -- `getHourMinSec`, of the hours, minutes and seconds of a date.
  unfoldable pub hour_min_sec : ℕ → ℕ → ℕ → String
  hour_min_sec h m s = all_of (two_digits h ∷ ":" ∷ two_digits m ∷ " " ∷ two_digits s ∷ "s" ∷ [])

  -- `getDateFormat`; a date counts its months from 0.
  unfoldable pub date_format : ℕ → ℕ → ℕ → ℕ → ℕ → ℕ → String
  date_format year month day h m s = all_of (
      text_of year
      ∷ "-"
      ∷ two_digits (month + 1)
      ∷ "-"
      ∷ two_digits day
      ∷ "  "
      ∷ two_digits h
      ∷ ":"
      ∷ two_digits m
      ∷ " "
      ∷ two_digits s
      ∷ "s"
      ∷ [])
