-- ===== src/Time/Civil.antt =====
-- What domain/timeframes.py uses of the calendar in Python's `datetime`: the fields of an instant,
-- the instant of fields, the first instant of a month. A month is numbered `year * 12 + month - 1`.
pub mod Months
pub mod Reading
pub mod Roundtrip
use signapse_mdg.Base.{
  ℕ, zero, suc, ◌+◌, ◌-◌, ◌*◌, ◌/◌, ◌%◌, Bool, ◌&&◌, ◌||◌, not, Result, ok, err, value_error, ltb,
  leb, ◌==◌, nat_eq, min, if◌then◌else◌,
}
use signapse_mdg.Time.{day}

-- `calendar.isleap`
unfoldable pub is_leap : ℕ → Bool
is_leap year = (year % 4 == 0) && (not (year % 100 == 0) || (year % 400 == 0))

-- `calendar.monthrange(year, month)[1]`
unfoldable pub days_in_month : ℕ → ℕ → ℕ
unfolding is_leap
days_in_month year month =
    if month == 2
    then (if is_leap year then 29 else 28)
    else if month == 4 || month == 6 || month == 9 || month == 11
    then 30
    else 31

-- The days before the year, which is at least 1.
unfoldable pub days_before_year : ℕ → ℕ
days_before_year year = (year - 1) * 365 + (year - 1) / 4 - (year - 1) / 100 + (year - 1) / 400

-- The days of the year before its month, from 1.
unfoldable pub days_before_month : ℕ → ℕ → ℕ
unfolding days_in_month
days_before_month year zero = 0
days_before_month year (suc zero) = 0
days_before_month year (suc (suc k)) = days_before_month year (suc k) + days_in_month year (suc k)

pub record Fields : Type 0 where
  pub year : ℕ
  pub month : ℕ
  pub day_of_month : ℕ
  pub time_of_day : ℕ

-- The first year from `year` on that ends after day `n`. The start is a lower bound, so that a few
-- rounds do.
unfoldable pub year_loop : ℕ → ℕ → ℕ → ℕ
unfolding days_before_year
year_loop zero n year = year
year_loop (suc fuel) n year =
    let later = year_loop fuel n (suc year) in
    if ltb n (days_before_year (suc year)) then year else later

unfoldable pub month_loop : ℕ → ℕ → ℕ → ℕ → ℕ
unfolding days_before_month
month_loop zero year n month = month
month_loop (suc fuel) year n month =
    let later = month_loop fuel year n (suc month) in
    if ltb n (days_before_month year (suc month)) then month else later

-- `value.year`, `value.month`, `value.day`, and the time of day
unfoldable pub fields : ℕ → Fields
unfolding year_loop month_loop
fields t =
    let n = t / day in
    let year = year_loop n n (n / 366 + 1) in
    let rest = n - days_before_year year in
    let month = month_loop 11 year rest 1 in
    record {
      year = year;
      month = month;
      day_of_month = rest - days_before_month year month + 1;
      time_of_day = t % day;
    }

-- `datetime(year, month, day)` at a time of day; the caller's month and day are in range.
unfoldable pub instant : ℕ → ℕ → ℕ → ℕ → Result ℕ
unfolding days_before_year days_before_month
instant year month day_of_month time_of_day =
    if leb 1 year && leb year 9999
    then ok (
        (days_before_year year + days_before_month year month + day_of_month - 1) * day
        + time_of_day)
    else err value_error

-- The first instant of a month.
unfoldable pub month_instant : ℕ → ℕ
unfolding days_before_year days_before_month
month_instant index =
    (days_before_year (index / 12) + days_before_month (index / 12) (suc (index % 12))) * day
