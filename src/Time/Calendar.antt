-- ===== src/Time/Calendar.antt =====
-- The Gregorian calendar from 1970 on, by the lengths of its years and months.
use txos.Base.{ℕ, zero, suc, ◌+◌, ◌%◌, Bool, true, false, [], ◌∷◌, ◌==◌, if◌then◌else◌, get_or}

abbrev pub leap_year : ℕ → Bool
leap_year year = if year % 400 == 0 then true else if year % 100 == 0 then false else year % 4 == 0

abbrev pub days_of_year : ℕ → ℕ
days_of_year year = if leap_year year then 366 else 365

abbrev pub days_of_month : ℕ → ℕ → ℕ
days_of_month year month =
    get_or
      (0
        ∷ 31
        ∷ (if leap_year year then 29 else 28)
        ∷ 31
        ∷ 30
        ∷ 31
        ∷ 30
        ∷ 31
        ∷ 31
        ∷ 30
        ∷ 31
        ∷ 30
        ∷ 31
        ∷ [])
      month 0

-- the days from 1970-01-01 to the first of January of 1970 + `n`
unfoldable pub days_before_year : ℕ → ℕ
days_before_year zero = 0
days_before_year (suc n) = days_before_year n + days_of_year (1970 + n)

-- the days of a year before the month 1 + `n`
unfoldable pub days_before_month : ℕ → ℕ → ℕ
days_before_month year zero = 0
days_before_month year (suc n) = days_before_month year n + days_of_month year (suc n)
