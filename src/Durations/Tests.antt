-- ===== src/Durations/Tests.antt =====
-- Durations and dates as texts, and the theorems about them at concrete times.
use azkaban_private.Prelude.{ℕ, ◌≡◌, refl, none, String, if◌then◌else◌, ◌==◌}
use azkaban_private.Durations.{format_duration, duration_text, hour_min_sec, date_format}

-- The texts of the numbers that the tests need.
abbrev digits : ℕ → String
digits n =
    if n == 1
    then "1"
    else if n == 2
    then "2"
    else if n == 3
    then "3"
    else if n == 2012
    then "2012"
    else "?"

abbrev thousandths : ℕ → ℕ → String
thousandths n k = "?"

an_hour : duration_text digits thousandths (format_duration 3723004 none) ≡ "1h 2m 3s"
unfolding format_duration duration_text
an_hour = refl

two_days : duration_text digits thousandths (format_duration 176580000 none) ≡ "2d 1h 3m"
unfolding format_duration duration_text
two_days = refl

clock : hour_min_sec digits thousandths 1 2 3 ≡ "01:02 03s"
unfolding hour_min_sec
clock = refl

a_date : date_format digits thousandths 2012 0 2 3 2 1 ≡ "2012-01-02  03:02 01s"
unfolding date_format
a_date = refl
