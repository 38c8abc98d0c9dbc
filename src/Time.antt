-- ===== src/Time.antt =====
-- `getlocaltime_safe` of source/common/timeut.h: the date and the time of day of a number of seconds.
pub mod Civil
mod Tests
use libclogger.Prelude.{
  ℕ, zero, suc, ◌+◌, ◌-◌, ◌*◌, ◌/◌, ◌%◌, Bool, true, false, Option, none, some, List, [], ◌∷◌, leb,
  ltb, ◌==◌, if◌then◌else◌,
}

-- `struct tm`
pub record Tm : Type 0 where
  pub tm_sec : ℕ
  pub tm_min : ℕ
  pub tm_hour : ℕ
  pub tm_mday : ℕ
  pub tm_mon : ℕ
  pub tm_year : ℕ
  pub tm_wday : ℕ
  pub tm_yday : ℕ
  pub tm_isdst : ℕ

-- `YEAR_IS_LEAPYEAR`
unfoldable pub year_is_leapyear : ℕ → ℕ
year_is_leapyear year =
    if year % 4 == 0 then if year % 100 == 0 then if year % 400 == 0 then 1 else 0 else 1 else 0

abbrev pub mean_mdays : List ℕ
mean_mdays = 31 ∷ 28 ∷ 31 ∷ 30 ∷ 31 ∷ 30 ∷ 31 ∷ 31 ∷ 30 ∷ 31 ∷ 30 ∷ 31 ∷ []

abbrev pub leap_mdays : List ℕ
leap_mdays = 31 ∷ 29 ∷ 31 ∷ 30 ∷ 31 ∷ 30 ∷ 31 ∷ 31 ∷ 30 ∷ 31 ∷ 30 ∷ 31 ∷ []

-- the days of the months of a year
unfoldable pub mdays : ℕ → List ℕ
mdays year = if year_is_leapyear year == 0 then mean_mdays else leap_mdays

-- the loop over the years: the year and the days that are left, none without fuel
unfoldable pub year_loop : ℕ → ℕ → ℕ → Option (ℕ × ℕ)
year_loop zero year days = none
year_loop (suc fuel) year days =
    let days_this_year = 365 + year_is_leapyear year in
    let later = year_loop fuel (year + 1) (days - days_this_year) in
    if ltb days days_this_year then some (year, days) else later

-- the loop over the months from `mon` on: the month and the days that are left, none behind the table
unfoldable pub month_loop : List ℕ → ℕ → ℕ → Option (ℕ × ℕ)
month_loop [] mon days = none
month_loop (m ∷ months) mon days =
    let later = month_loop months (mon + 1) (days - m) in
    if leb m days then later else some (mon, days)

-- The fields of a time, with what the loops found.
unfoldable pub fill_tm : ℕ → ℕ → ℕ × ℕ → ℕ × ℕ → Tm
fill_tm dst t (year, yday) (mon, days) =
    let seconds = t % 86400 in
    record {
      tm_sec = seconds % 3600 % 60;
      tm_min = seconds % 3600 / 60;
      tm_hour = seconds / 3600;
      tm_mday = days + 1;
      tm_mon = mon;
      tm_year = year - 1900;
      tm_wday = (t / 86400 + 4) % 7;
      tm_yday = yday;
      tm_isdst = dst;
    }

unfoldable pub fill_month : ℕ → ℕ → ℕ × ℕ → Option (ℕ × ℕ) → Option Tm
fill_month dst t date none = none
fill_month dst t date (some month) = some (fill_tm dst t date month)

unfoldable pub find_month : ℕ → ℕ → Option (ℕ × ℕ) → Option Tm
find_month dst t none = none
find_month dst t (some (year, yday)) =
    fill_month dst t (year, yday) (month_loop (mdays year) 0 yday)

-- `getlocaltime_safe` of `t` seconds, with the zone `tz` of `west - east` seconds: for times from 1970 on
unfoldable pub getlocaltime_safe : ℕ → ℕ → ℕ → ℕ → Option Tm
getlocaltime_safe t west east dst =
    let local = t + east + 3600 * dst - west in
    find_month dst local (year_loop (local / 86400 + 1) 1970 (local / 86400))
