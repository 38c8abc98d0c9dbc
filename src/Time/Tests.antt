-- ===== src/Time/Tests.antt =====
-- Dates that `getlocaltime_safe` of source/common/timeut.h computes.
use libclogger.Prelude.{◌≡◌, refl, some}
use libclogger.Time.{
  year_is_leapyear, mdays, year_loop, month_loop, fill_tm, fill_month, find_month,
  getlocaltime_safe,
}
use libclogger.Time.Civil.{Civil}

-- 2024-02-29 12:34:56 in UTC, a Thursday
leap_day :
    getlocaltime_safe 1709210096 0 0 0
    ≡ some (record {
      tm_sec = 56;
      tm_min = 34;
      tm_hour = 12;
      tm_mday = 29;
      tm_mon = 1;
      tm_year = 124;
      tm_wday = 4;
      tm_yday = 59;
      tm_isdst = 0;
    })
unfolding getlocaltime_safe find_month fill_month fill_tm year_loop month_loop mdays
    year_is_leapyear
leap_day = refl
