-- ===== src/Time/Laws.antt =====
-- `mktime` and `get_yday` against the calendar.
use txos.Base.{
  ℕ, suc, ◌+◌, ◌-◌, ◌*◌, ◌/◌, ◌%◌, ◌≤◌, ◌<◌, ◌≡◌, refl, Bool, true, false, ◌&&◌, arith, ◌==◌, ltb,
  leb, if◌then◌else◌, get_or, ◌∙◌, ap, tabulated, tabulated_case, ==_iff,
}
use txos.Stdlib.{word}
use txos.Time.{TimeVal, day, hour, minute, year_seconds, month, is_leap, ad_year, get_yday, mktime}
use txos.Time.Calendar.{days_before_year, days_before_month}

-- the years since 1970 that a two-digit year stands for: 1970 to 2069
abbrev pub since_1970 : ℕ → ℕ
since_1970 year = if leb 70 year then year - 70 else year + 30

-- the day that the table adds from April on
abbrev pub extra_day : ℕ → ℕ
extra_day mon = if leb 4 mon then 1 else 0

-- the days of the year before a month, as the code computes them
abbrev code_days : ℕ → ℕ → ℕ
code_days year mon = get_or month mon 0 + (if is_leap (ad_year year) && ltb 2 mon then 1 else 0)

abbrev agrees : ℕ → ℕ → Bool
agrees year m =
    code_days year (suc m) == days_before_month (1970 + since_1970 year) m + extra_day (suc m)

month_table : tabulated (λ year. tabulated (agrees year) 12) 100 ≡ true
unfolding tabulated is_leap ad_year days_before_month
month_table = refl

code_days-calendar :
    (year m : ℕ)
    → year < 100
    → m < 12
    → code_days year (suc m) ≡ days_before_month (1970 + since_1970 year) m + extra_day (suc m)
code_days-calendar year m hy hm =
    (==_iff _ _).0 (
      tabulated_case (agrees year) hm
        (tabulated_case (λ y. tabulated (agrees y) 12) hy month_table))

year_table : tabulated (λ n. n * 365 + (n + 1) / 4 == days_before_year n) 100 ≡ true
unfolding tabulated days_before_year
year_table = refl

code_years-calendar : (n : ℕ) → n < 100 → n * 365 + (n + 1) / 4 ≡ days_before_year n
code_years-calendar n h =
    (==_iff _ _).0 (tabulated_case (λ n. n * 365 + (n + 1) / 4 == days_before_year n) h year_table)

-- For a two-digit year and a month of 1 to 12 `get_yday` is the day of the year, and one more from
-- April on.
pub get_yday_lem :
    (time : TimeVal) (m : ℕ)
    → time.tm_year < 100
    → time.tm_mon ≡ suc m
    → m < 12
    → get_yday time
      ≡ days_before_month (1970 + since_1970 time.tm_year) m + time.tm_mday + extra_day time.tm_mon
unfolding get_yday
get_yday_lem time m hy e hm = rw e (ground (arith, code_days-calendar time.tm_year m hy hm))

-- The word keeps each partial sum, so one reduction at the end gives the same.
wrapped :
    (a b c d e f g h : ℕ)
    → ((((((((a % word + b) % word + c) % word + d) % word + e) % word + f) % word + g) % word) + h)
        % word
      ≡ (a + b + c + d + e + f + g + h) % word
wrapped a b c d e f g h = omega arith

-- The additions of `mktime` at numbers: `y` years, `t` days from the table, and one on a leap day.
added : ℕ → ℕ → Bool → ℕ → ℕ → ℕ → ℕ → ℕ
added y t leap mday hours minutes seconds =
    let res = y * year_seconds % word in
    let res = (res + (y + 1) / 4 * day) % word in
    let res = (res + t * day) % word in
    let res = if leap then (res + day) % word else res in
    let res = (res + (mday + word - 1) * day) % word in
    let res = (res + hours * hour) % word in
    let res = (res + minutes * minute) % word in (res + seconds) % word

added_lem :
    (y t : ℕ) (leap : Bool) (mday hours minutes seconds : ℕ)
    → 1 ≤ mday
    → added y t leap mday hours minutes seconds
      ≡ ((y * 365 + (y + 1) / 4 + (t + (if leap then 1 else 0)) + (mday - 1)) * day
          + hours * hour
          + minutes * minute
          + seconds)
        % word
unfolding added
added_lem y t true mday hours minutes seconds h = omega (arith)
added_lem y t false mday hours minutes seconds h = omega (arith)

years_same : (year : ℕ) → (if leb 70 year then year - 70 else year + 100 - 70) ≡ since_1970 year
years_same year = ground arith

since_1970-lt : (year : ℕ) → year < 100 → since_1970 year < 100
since_1970-lt year h = ground arith

mktime-added :
    (time : TimeVal)
    → mktime time
      ≡ added
          (since_1970 time.tm_year)
          (get_or month time.tm_mon 0)
          (is_leap (ad_year time.tm_year) && ltb 2 time.tm_mon)
          time.tm_mday
          time.tm_hour
          time.tm_min
          time.tm_sec
unfolding mktime added
mktime-added time = rw (years_same time.tm_year) refl

days_lem :
    (time : TimeVal) (m : ℕ)
    → time.tm_year < 100
    → time.tm_mon ≡ suc m
    → m < 12
    → let y = since_1970 time.tm_year in
      y * 365 + (y + 1) / 4 + code_days time.tm_year time.tm_mon + (time.tm_mday - 1)
      ≡ days_before_year y
        + days_before_month (1970 + y) m
        + (time.tm_mday - 1)
        + extra_day time.tm_mon
days_lem time m hy e hm = rw e (
    omega (
      arith,
      code_years-calendar (since_1970 time.tm_year) (since_1970-lt time.tm_year hy),
      code_days-calendar time.tm_year m hy hm,
    ))

-- For a two-digit year, a month of 1 to 12 and a day of 1 at least, `mktime` gives the seconds from
-- 1970 to the date by the calendar, modulo 2^32, but from April on those of the day after.
pub mktime_lem :
    (time : TimeVal) (m : ℕ)
    → time.tm_year < 100
    → time.tm_mon ≡ suc m
    → m < 12
    → 1 ≤ time.tm_mday
    → let year = since_1970 time.tm_year in
      let days = days_before_year year + days_before_month (1970 + year) m + (time.tm_mday - 1) in
      mktime time
      ≡ ((days + extra_day time.tm_mon) * day
          + time.tm_hour * hour
          + time.tm_min * minute
          + time.tm_sec)
        % word
mktime_lem time m hy e hm hd =
    mktime-added time
    ∙ added_lem (since_1970 time.tm_year) (get_or month time.tm_mon 0)
        (is_leap (ad_year time.tm_year) && ltb 2 time.tm_mon) time.tm_mday time.tm_hour time.tm_min
        time.tm_sec hd
    ∙ ap (λ days. (days * day + time.tm_hour * hour + time.tm_min * minute + time.tm_sec) % word)
        (days_lem time m hy e hm)
