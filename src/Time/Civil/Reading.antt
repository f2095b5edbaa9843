-- ===== src/Time/Civil/Reading.antt =====
-- The fields of an instant are those of the day that it falls in, and give the instant back.
use signapse_mdg.Base.{
  ℕ, zero, suc, ◌+◌, ◌-◌, ◌*◌, ◌/◌, ◌≤◌, ◌<◌, ◌≡◌, arith, ltb, Bool-cases, inl, inr,
}
use signapse_mdg.Time.{day}
use signapse_mdg.Time.Civil.{days_before_year, days_before_month, year_loop, month_loop, fields}
use signapse_mdg.Time.Civil.Months.{days_before_year-suc}

year_growth : (year : ℕ) → 0 < year → 365 * (year - 1) ≤ days_before_year year
unfolding days_before_year
year_growth year pos = omega arith

year_start : (n : ℕ) → days_before_year (n / 366 + 1) ≤ n
unfolding days_before_year
year_start n = omega arith

year_loop_lem :
    (fuel n year : ℕ)
    → days_before_year year ≤ n
    → n < days_before_year (suc (year + fuel))
    → (days_before_year (year_loop fuel n year) ≤ n)
      × (n < days_before_year (suc (year_loop fuel n year)))
      × (year ≤ year_loop fuel n year)
unfolding year_loop
year_loop_lem zero n year low high =
    let same : year + 0 ≡ year = omega arith in (low, rw same at high, omega arith)
year_loop_lem (suc fuel) n year low high =
    let shift : year + suc fuel ≡ suc year + fuel = omega arith in
    elim (Bool-cases (ltb n (days_before_year (suc year)))) [
      | inl here ↦ rw here (low, ground arith, omega arith)
      | inr on ↦
          let ih = year_loop_lem fuel n (suc year) (ground arith) (rw shift at high) in
          rw on (ih.0, ih.1, omega arith)
    ]

month_loop_lem :
    (fuel year n month : ℕ)
    → days_before_month year month ≤ n
    → n < days_before_month year (suc (month + fuel))
    → (days_before_month year (month_loop fuel year n month) ≤ n)
      × (n < days_before_month year (suc (month_loop fuel year n month)))
      × (month ≤ month_loop fuel year n month)
      × (month_loop fuel year n month ≤ month + fuel)
unfolding month_loop
month_loop_lem zero year n month low high =
    let same : month + 0 ≡ month = omega arith in (low, rw same at high, omega arith, omega arith)
month_loop_lem (suc fuel) year n month low high =
    let shift : month + suc fuel ≡ suc month + fuel = omega arith in
    elim (Bool-cases (ltb n (days_before_month year (suc month)))) [
      | inl here ↦ rw here (low, ground arith, omega arith, omega arith)
      | inr on ↦
          let ih = month_loop_lem fuel year n (suc month) (ground arith) (rw shift at high) in
          rw on (ih.0, ih.1, omega arith, omega arith)
    ]

-- Day `n`, counted from 0001-01-01, lies in this year and month.
pub record InMonth (n year month : ℕ) : Type 0 where
  pub year_low : days_before_year year ≤ n
  pub year_high : n < days_before_year (suc year)
  pub year_pos : 1 ≤ year
  pub month_low : days_before_month year month ≤ n - days_before_year year
  pub month_high : n - days_before_year year < days_before_month year (suc month)
  pub month_pos : 1 ≤ month
  pub month_le : month ≤ 12

pub fields-InMonth : (t : ℕ) → InMonth (t / day) (fields t).year (fields t).month
unfolding fields
fields-InMonth t =
    let n = t / day in
    let (yl, yh, yp) = year_loop_lem n n (n / 366 + 1) (year_start n) (enough n) in
    let y = year_loop n n (n / 366 + 1) in
    let grow = days_before_year-suc y (omega arith) in
    let (ml, mh, mp, mt) = month_loop_lem 11 y (n - days_before_year y) 1 (low y _) (omega arith) in
    record {
      year_low = yl;
      year_high = yh;
      year_pos = omega arith;
      month_low = ml;
      month_high = mh;
      month_pos = mp;
      month_le = mt;
    }
  where
    enough : (n : ℕ) → n < days_before_year (suc (n / 366 + 1 + n))
    enough n = ground (arith, year_growth (suc (n / 366 + 1 + n)))

    low : (y n : ℕ) → days_before_month y 1 ≤ n
    low y n = unfold days_before_month in omega arith
