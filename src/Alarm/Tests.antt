-- ===== src/Alarm/Tests.antt =====
-- An alarm past midnight.
use txos.Base.{◌≡◌, refl, arith, ok, [], ◌∷◌}
use txos.Stdlib.{bin_to_bcd}
use txos.Time.{TimeVal}
use txos.Alarm.{set_alarm}
use txos.Alarm.Laws.{IsTime}

-- 23:59:50
abbrev late : TimeVal
late = record {
  tm_sec = 50;
  tm_min = 59;
  tm_hour = 23;
  tm_mday = 1;
  tm_mon = 1;
  tm_year = 24;
  tm_wday = 1;
  tm_yday = 1;
  century = 20;
}

late-IsTime : IsTime late
late-IsTime = record { seconds = omega arith; minutes = omega arith; hours = omega arith }

-- 25 seconds later it is 00:00:15.
set_alarm_midnight : set_alarm late 25 ≡ ok ((1, 0x15) ∷ (3, 0) ∷ (5, 0) ∷ (0x0b, 0x22) ∷ [])
unfolding set_alarm bin_to_bcd
set_alarm_midnight = refl
