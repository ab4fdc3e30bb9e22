-- ===== src/Time.antt =====
-- src/kernel/time.c: the seconds since 1970 of a date that the CMOS clock gives. The fields are the
-- clock's two-digit numbers, which the code holds as `int`s; a `time_t` is a 32-bit word.
pub mod Calendar
pub mod Laws
mod Tests
use txos.Base.{
  ℕ, ◌+◌, ◌-◌, ◌*◌, ◌/◌, ◌%◌, Bool, not, ◌&&◌, ◌||◌, List, [], ◌∷◌, ◌==◌, ltb, leb, if◌then◌else◌,
  get_or,
}
use txos.Stdlib.{word, bcd_to_bin}

-- `MINUTE`, `HOUR`, `DAY` and `YEAR`
abbrev pub minute : ℕ
minute = 60

abbrev pub hour : ℕ
hour = 60 * minute

abbrev pub day : ℕ
day = 24 * hour

abbrev pub year_seconds : ℕ
year_seconds = 365 * day

-- the days before each month, as the table of the source has them
abbrev pub month : List ℕ
month =
    0
    ∷ 0
    ∷ 31
    ∷ (31 + 28)
    ∷ (31 + 29 + 31)
    ∷ (31 + 29 + 31 + 30)
    ∷ (31 + 29 + 31 + 30 + 31)
    ∷ (31 + 29 + 31 + 30 + 31 + 30)
    ∷ (31 + 29 + 31 + 30 + 31 + 30 + 31)
    ∷ (31 + 29 + 31 + 30 + 31 + 30 + 31 + 31)
    ∷ (31 + 29 + 31 + 30 + 31 + 30 + 31 + 31 + 30)
    ∷ (31 + 29 + 31 + 30 + 31 + 30 + 31 + 31 + 30 + 31)
    ∷ (31 + 29 + 31 + 30 + 31 + 30 + 31 + 31 + 30 + 31 + 30)
    ∷ []

-- `time_val`, but for `tm_isdst`, which is always -1
pub record TimeVal : Type 0 where
  pub tm_sec : ℕ
  pub tm_min : ℕ
  pub tm_hour : ℕ
  pub tm_mday : ℕ
  pub tm_mon : ℕ
  pub tm_year : ℕ
  pub tm_wday : ℕ
  pub tm_yday : ℕ
  pub century : ℕ

unfoldable pub is_leap : ℕ → Bool
is_leap year = year % 4 == 0 && not (year % 100 == 0) || year % 400 == 0

unfoldable pub ad_year : ℕ → ℕ
ad_year year = if leb 70 year then 1900 + year else 2000 + year

unfoldable pub get_yday : TimeVal → ℕ
unfolding is_leap ad_year
get_yday time =
    let res = get_or month time.tm_mon 0 + time.tm_mday in
    let year = ad_year time.tm_year in if is_leap year && ltb 2 time.tm_mon then res + 1 else res

-- `time_read` on the bytes that `time_read_bcd` has left in the structure
unfoldable pub time_read : TimeVal → TimeVal
unfolding get_yday bcd_to_bin
time_read time =
    let read = record time {
      tm_sec = bcd_to_bin time.tm_sec;
      tm_min = bcd_to_bin time.tm_min;
      tm_hour = bcd_to_bin time.tm_hour;
      tm_mday = bcd_to_bin time.tm_mday;
      tm_mon = bcd_to_bin time.tm_mon;
      tm_year = bcd_to_bin time.tm_year;
      tm_wday = bcd_to_bin time.tm_wday;
      century = bcd_to_bin time.century;
    } in
    record read { tm_yday = get_yday read }

-- Each `res +=` is on a 32-bit word. From 2039 on `year * YEAR` is above 2^31, which C leaves undefined for the
-- signed product; here it is taken as the word that the processor gives.
unfoldable pub mktime : TimeVal → ℕ
unfolding is_leap ad_year
mktime time =
    let year = if leb 70 time.tm_year then time.tm_year - 70 else time.tm_year + 100 - 70 in
    let res = year * year_seconds % word in
    let res = (res + (year + 1) / 4 * day) % word in
    let res = (res + get_or month time.tm_mon 0 * day) % word in
    let res =
      if is_leap (ad_year time.tm_year) && ltb 2 time.tm_mon then (res + day) % word else res in
    let res = (res + (time.tm_mday + word - 1) * day) % word in
    let res = (res + time.tm_hour * hour) % word in
    let res = (res + time.tm_min * minute) % word in (res + time.tm_sec) % word
