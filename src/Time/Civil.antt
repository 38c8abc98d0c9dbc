-- ===== src/Time/Civil.antt =====
-- The date that `getlocaltime_safe` of source/common/timeut.h computes, against a count of the days.
use libclogger.Prelude.{
  if◌then◌else◌, ◌||◌, ◌==◌, ◌^◌, ℕ, zero, suc, ◌+◌, ◌-◌, ◌*◌, ◌/◌, ◌%◌, ◌≤◌, ◌<◌, ◌≡◌, Option,
  none, some, List, [], ◌∷◌, length,
}
use libclogger.Time.{Tm, year_is_leapyear}

-- the days of the first `n` years from `year` on
unfoldable pub days_of_years : ℕ → ℕ → ℕ
days_of_years year zero = 0
days_of_years year (suc n) = 365 + year_is_leapyear year + days_of_years (year + 1) n

-- the days of the first `n` months
unfoldable pub days_of_months : List ℕ → ℕ → ℕ
days_of_months months zero = 0
days_of_months [] (suc n) = 0
days_of_months (m ∷ months) (suc n) = m + days_of_months months n

unfoldable pub month_length : List ℕ → ℕ → ℕ
month_length [] n = 0
month_length (m ∷ months) zero = m
month_length (m ∷ months) (suc n) = month_length months n

-- the year that a day is in, and its place in it
abbrev InYear : ℕ → ℕ → Option (ℕ × ℕ) → Type 0
InYear year days none = ⊥
InYear year days (some (found, yday)) =
    (n : ℕ) × (found ≡ year + n)
    × (days ≡ days_of_years year n + yday)
    × (yday < 365 + year_is_leapyear found)

abbrev InMonth : List ℕ → ℕ → ℕ → Option (ℕ × ℕ) → Type 0
InMonth months mon days none = ⊥
InMonth months mon days (some (found, rest)) =
    (n : ℕ) × (found ≡ mon + n)
    × (n < length months)
    × (days ≡ days_of_months months n + rest)
    × (rest < month_length months n)

-- The Gregorian calendar, without the code's rule and tables: the days before the first of January of `year`, counted
-- from the year 1, with a leap day in each fourth year but not in each hundredth, save each four-hundredth.
abbrev pub days_before_year : ℕ → ℕ
days_before_year year = 365 * year + (year - 1) / 4 + (year - 1) / 400 - (year - 1) / 100

abbrev pub year_length : ℕ → ℕ
year_length year = days_before_year (year + 1) - days_before_year year

-- Thirty days hath September, April, June and November, all the rest have thirty-one, and February has
-- what is left of the year.
abbrev pub gregorian_month : ℕ → ℕ → ℕ
gregorian_month year mon =
    if mon == 1
    then year_length year - 337
    else if mon == 3 || (mon == 5 || (mon == 8 || mon == 10))
    then 30
    else 31

-- the days of the first `n` months of the year
unfoldable pub days_before_month : ℕ → ℕ → ℕ
days_before_month year zero = 0
days_before_month year (suc n) = days_before_month year n + gregorian_month year n

-- The fields are those of `local` seconds from the start of 1970 on: the days of the years and of the
-- months before, the day of the month and the time of day make up the time, and each is in its range.
abbrev pub Civil : ℕ → Option Tm → Type 0
Civil local none = ⊥
Civil local (some tm) =
    let year = tm.tm_year + 1900 in
    let days = days_before_year year - days_before_year 1970 + tm.tm_yday in
    (local ≡ days * 86400 + tm.tm_hour * 3600 + tm.tm_min * 60 + tm.tm_sec)
    × (tm.tm_hour < 24)
    × (tm.tm_min < 60)
    × (tm.tm_sec < 60)
    × (1970 ≤ year)
    × (year < 2 ^ 31)
    × (tm.tm_yday < year_length year)
    × (tm.tm_yday + 1 ≡ days_before_month year tm.tm_mon + tm.tm_mday)
    × (tm.tm_mon < 12)
    × (1 ≤ tm.tm_mday)
    × (tm.tm_mday ≤ gregorian_month year tm.tm_mon)
    × (tm.tm_wday ≡ (days + 4) % 7)
