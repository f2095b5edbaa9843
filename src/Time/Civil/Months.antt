-- ===== src/Time/Civil/Months.antt =====
-- Months follow one another without gap.
use signapse_mdg.Base.{ℕ, suc, ◌+◌, ◌*◌, ◌/◌, ◌%◌, ◌≤◌, ◌<◌, ◌≡◌, arith, dec_lt, if◌then◌else◌}
use signapse_mdg.Time.{day}
use signapse_mdg.Time.Civil.{
  is_leap, days_in_month, days_before_year, days_before_month, month_instant,
}

abbrev pub year_length : ℕ → ℕ
year_length year = days_before_month year 13

pub year_length_lem : (year : ℕ) → year_length year ≡ (if is_leap year then 366 else 365)
unfolding days_before_month
year_length_lem year = ground arith

leap_step :
    (year : ℕ)
    → 0 < year
    → days_before_year (suc year) ≡ days_before_year year + (if is_leap year then 366 else 365)
unfolding days_before_year is_leap
leap_step year pos = ground arith

pub days_before_year-suc :
    (year : ℕ) → 0 < year → days_before_year (suc year) ≡ days_before_year year + year_length year
unfolding days_before_year
days_before_year-suc year pos = rw year_length_lem (leap_step year pos)

pub month_length_pos : (year month : ℕ) → 0 < days_in_month year month
unfolding days_in_month
month_length_pos year month = ground arith

-- The next month begins when this one ends.
pub month_instant-suc :
    (index : ℕ)
    → 12 ≤ index
    → month_instant (suc index)
      ≡ month_instant index + days_in_month (index / 12) (suc (index % 12)) * day
unfolding month_instant
month_instant-suc index low = elim (dec_lt (index % 12) 11) [
  | yes within ↦
      let same_year : suc index / 12 ≡ index / 12 = omega arith in
      let next_month : suc index % 12 ≡ suc (index % 12) = omega arith in
      rw (same_year, next_month) (unfold days_before_month in omega arith)
  | no december ↦
      let next_year : suc index / 12 ≡ suc (index / 12) = omega arith in
      let january : suc index % 12 ≡ 0 = omega arith in
      let last_month : index % 12 ≡ 11 = omega arith in
      rw (next_year, january, last_month, days_before_year-suc (index / 12) (omega arith))
        (unfold days_before_month in omega arith)
]
