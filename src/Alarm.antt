-- ===== src/Alarm.antt =====
-- src/kernel/rtc.c: the alarm of the CMOS clock. The time that `time_read` gives is an argument, the
-- result the writes to the clock's registers, in order. `assert` of `bin_to_bcd` may halt.
pub mod Laws
mod Tests
use txos.Base.{ℕ, ◌+◌, ◌/◌, ◌%◌, List, [], ◌∷◌, Outcome, ok, ◌>>=◌, leb, if◌then◌else◌}
use txos.Stdlib.{bin_to_bcd}
use txos.Time.{TimeVal}

-- the time of the alarm, `secs` seconds from `time`
unfoldable pub alarm_time : TimeVal → ℕ → TimeVal
alarm_time time secs =
    let sec = secs % 60 in
    let min = secs / 60 % 60 in
    let hour = secs / 60 / 60 in
    let tm_sec = time.tm_sec + sec in
    let tm_min = if leb 60 tm_sec then time.tm_min + 1 else time.tm_min in
    let tm_sec = if leb 60 tm_sec then tm_sec % 60 else tm_sec in
    let tm_min = tm_min + min in
    let tm_hour = if leb 60 tm_min then time.tm_hour + 1 else time.tm_hour in
    let tm_min = if leb 60 tm_min then tm_min % 60 else tm_min in
    let tm_hour = tm_hour + hour in
    let tm_hour = if leb 24 tm_hour then tm_hour % 24 else tm_hour in
    record time { tm_sec = tm_sec; tm_min = tm_min; tm_hour = tm_hour }

-- `CMOS_RTC_SECOND`, `CMOS_RTC_MINUTE`, `CMOS_RTC_HOUR` and `CMOS_RTC_B`
abbrev pub cmos_rtc_second : ℕ
cmos_rtc_second = 0x01

abbrev pub cmos_rtc_minute : ℕ
cmos_rtc_minute = 0x03

abbrev pub cmos_rtc_hour : ℕ
cmos_rtc_hour = 0x05

abbrev pub cmos_rtc_b : ℕ
cmos_rtc_b = 0x0b

-- Each pair is a register and the byte that `cmos_write` puts there.
unfoldable pub set_alarm : TimeVal → ℕ → Outcome (List (ℕ × ℕ))
unfolding alarm_time
set_alarm time secs = do
  let alarm = alarm_time time secs
  second ← bin_to_bcd alarm.tm_sec
  minute ← bin_to_bcd alarm.tm_min
  hour ← bin_to_bcd alarm.tm_hour
  ok (
      (cmos_rtc_second, second)
      ∷ (cmos_rtc_minute, minute)
      ∷ (cmos_rtc_hour, hour)
      ∷ (cmos_rtc_b, 0x22)
      ∷ [])
