-- ===== src/ConfigEngine/Dates.antt =====
-- The calendar date of an instant: datetime.date() in UTC, by the algorithm of Python's datetime.
use event_platform_backend.Prelude.{
  ℕ, ◌+◌, ◌-◌, ◌*◌, ◌/◌, ◌%◌, Bool, ◌&&◌, ◌||◌, not, List, [], ◌∷◌, ◌==◌, ltb, if◌then◌else◌,
}
use event_platform_backend.ConfigEngine.Rules.{Date}

-- The microseconds of a day.
abbrev pub day_length : ℕ
day_length = 86400000000

abbrev pub month_lengths : Bool → List ℕ
month_lengths leap =
    31 ∷ (if leap then 29 else 28) ∷ 31 ∷ 30 ∷ 31 ∷ 30 ∷ 31 ∷ 31 ∷ 30 ∷ 31 ∷ 30 ∷ 31 ∷ []

-- The month and the day of the n-th day, from 0, of months of these lengths that begin with month m.
abbrev pub month_and_day : ℕ → List ℕ → ℕ → ℕ × ℕ
month_and_day m [] n = (m, n + 1)
month_and_day m (l ∷ ls) n =
    let later : ℕ × ℕ = month_and_day (m + 1) ls (n - l) in if ltb n l then (m, n + 1) else later

abbrev date_in : ℕ → ℕ × ℕ → Date
date_in y md = record { year = y; month = md.0; day = md.1 }

-- The date of the n-th day, from 0, of the calendar that begins with the year 1. The days of 400
-- years, of a century, of 4 years and of a year are split off one after the other.
unfoldable pub date_of_day : ℕ → Date
date_of_day n =
    let a = n % 146097 in
    let b = a % 36524 in
    let c = b % 1461 in
    let centuries = a / 36524 in
    let fours = b / 1461 in
    let ones = c / 365 in
    let year = n / 146097 * 400 + centuries * 100 + fours * 4 + ones + 1 in
    if ones == 4 || centuries == 4
    then record { year = year - 1; month = 12; day = 31 }
    else date_in year (
        month_and_day 1 (month_lengths (ones == 3 && (not (fours == 24) || centuries == 3)))
          (c % 365))

unfoldable pub date_of : ℕ → Date
unfolding date_of_day
date_of t = date_of_day (t / day_length)
