-- ===== src/Time/Tests.antt =====
-- A leap day, the day after it, and the theorems at two dates.
use txos.Base.{◌+◌, ◌-◌, ◌*◌, ◌%◌, ◌≡◌, refl, arith}
use txos.Stdlib.{word}
use txos.Time.{TimeVal, day, hour, minute, time_read, get_yday, mktime}
use txos.Time.Calendar.{days_before_year, days_before_month}
use txos.Time.Laws.{since_1970, extra_day, get_yday_lem, mktime_lem}

-- 2024-05-06 07:08:09
abbrev spring : TimeVal
spring = record {
  tm_sec = 9;
  tm_min = 8;
  tm_hour = 7;
  tm_mday = 6;
  tm_mon = 5;
  tm_year = 24;
  tm_wday = 1;
  tm_yday = 0;
  century = 20;
}

-- 1970-01-01 00:00:00
mktime_epoch :
    mktime (record {
      tm_sec = 0;
      tm_min = 0;
      tm_hour = 0;
      tm_mday = 1;
      tm_mon = 1;
      tm_year = 70;
      tm_wday = 4;
      tm_yday = 0;
      century = 19;
    })
    ≡ 0
unfolding mktime
mktime_epoch = refl

-- 31 March and 1 April of 2023 are two days apart for the code.
mktime_april :
    mktime (record spring { tm_year = 23; tm_mon = 4; tm_mday = 1 })
    ≡ mktime (record spring { tm_year = 23; tm_mon = 3; tm_mday = 31 }) + 2 * day
unfolding mktime
mktime_april = refl

time_read_yday :
    (time_read
      (record spring { tm_sec = 0x59; tm_mon = 0x12; tm_mday = 0x31; tm_year = 0x24 })).tm_yday
    ≡ 367
unfolding time_read
time_read_yday = refl

get_yday_lem_example :
    get_yday spring ≡ days_before_month (1970 + since_1970 24) 4 + 6 + extra_day 5
get_yday_lem_example = get_yday_lem spring 4 (omega arith) refl (omega arith)

mktime_lem_example :
    mktime spring
    ≡ ((days_before_year (since_1970 24)
            + days_before_month (1970 + since_1970 24) 4
            + (6 - 1)
            + extra_day 5)
          * day
        + 7 * hour
        + 8 * minute
        + 9)
      % word
mktime_lem_example = mktime_lem spring 4 (omega arith) refl (omega arith) (omega arith)
