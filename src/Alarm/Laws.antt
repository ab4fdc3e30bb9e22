-- ===== src/Alarm/Laws.antt =====
-- The alarm is the time of day plus the seconds, modulo a day.
use txos.Base.{ℕ, ◌+◌, ◌*◌, ◌%◌, ◌<◌, ◌≡◌, refl, arith, ok, [], ◌∷◌}
use txos.Stdlib.{bcd_to_bin}
use txos.Stdlib.Laws.{bin_to_bcd-bcd_to_bin}
use txos.Time.{TimeVal, day, hour, minute}
use txos.Alarm.{alarm_time, set_alarm, cmos_rtc_second, cmos_rtc_minute, cmos_rtc_hour, cmos_rtc_b}

-- the seconds since midnight
abbrev pub second_of_day : TimeVal → ℕ
second_of_day time = time.tm_hour * hour + time.tm_min * minute + time.tm_sec

-- a time of day
pub record IsTime (time : TimeVal) : Type 0 where
  pub seconds : time.tm_sec < 60
  pub minutes : time.tm_min < 60
  pub hours : time.tm_hour < 24

alarm_time-IsTime : (time : TimeVal) (secs : ℕ) → IsTime time → IsTime (alarm_time time secs)
unfolding alarm_time
alarm_time-IsTime time secs v = record {
  seconds = ground (arith, v.seconds);
  minutes = ground (arith, v.minutes);
  hours = ground arith;
}

alarm_time-second_of_day :
    (time : TimeVal) (secs : ℕ)
    → IsTime time
    → second_of_day (alarm_time time secs) ≡ (second_of_day time + secs) % day
unfolding alarm_time
alarm_time-second_of_day time secs v = ground (arith, v.seconds, v.minutes, v.hours)

-- For a time of day `set_alarm` gets by the assertions of `bin_to_bcd`, and the three BCD bytes that it
-- writes, read back, are the time of day `secs` seconds later, past midnight too.
pub set_alarm_lem :
    (time : TimeVal) (secs : ℕ)
    → IsTime time
    → (s m h : ℕ) × (set_alarm time secs
        ≡ ok (
            (cmos_rtc_second, s)
            ∷ (cmos_rtc_minute, m)
            ∷ (cmos_rtc_hour, h)
            ∷ (cmos_rtc_b, 0x22)
            ∷ []))
      × (bcd_to_bin h * hour + bcd_to_bin m * minute + bcd_to_bin s
          ≡ (second_of_day time + secs) % day)
unfolding set_alarm
set_alarm_lem time secs v =
    let alarm = alarm_time time secs in
    let v' = alarm_time-IsTime time secs v in
    let (s, s_ok, _, s_back) = bin_to_bcd-bcd_to_bin alarm.tm_sec (omega (arith, v'.seconds)) in
    let (m, m_ok, _, m_back) = bin_to_bcd-bcd_to_bin alarm.tm_min (omega (arith, v'.minutes)) in
    let (h, h_ok, _, h_back) = bin_to_bcd-bcd_to_bin alarm.tm_hour (omega (arith, v'.hours)) in
    (
      s,
      m,
      h,
      rw (s_ok, m_ok, h_ok) refl,
      rw (s_back, m_back, h_back) (alarm_time-second_of_day time secs v),
    )
