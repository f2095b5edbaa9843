-- ===== src/Time/Timeframe/Months.antt =====
-- The months of an instant: where its month begins, and the next one.
use signapse_mdg.Base.{
  ℕ, zero, suc, ◌+◌, ◌-◌, ◌*◌, ◌/◌, ◌%◌, ◌≤◌, ◌<◌, ◌≡◌, refl, ap, min, ok, arith,
}
use signapse_mdg.Time.{day, max_instant}
use signapse_mdg.Time.Civil.{
  days_in_month, days_before_year, days_before_month, month_instant, fields, instant,
}
use signapse_mdg.Time.Civil.Months.{month_instant-suc, month_length_pos}
use signapse_mdg.Time.Civil.Reading.{InMonth, fields-InMonth}
use signapse_mdg.Time.Civil.Roundtrip.{year_le_max, instant_fits, fields-instant}
use signapse_mdg.Time.Timeframe.{pos, negsuc, add_month, month_start}

-- `value.year * 12 + value.month - 1`
abbrev pub month_of : ℕ → ℕ
month_of t = (fields t).year * 12 + (fields t).month - 1

-- The year and month of a month's number.
month_instant_parts :
    (year month : ℕ)
    → (1 ≤ month) × (month ≤ 12)
    → month_instant (year * 12 + month - 1)
      ≡ (days_before_year year + days_before_month year month) * day
unfolding month_instant
month_instant_parts year month months =
    let y : (year * 12 + month - 1) / 12 ≡ year = omega arith in
    let m : suc ((year * 12 + month - 1) % 12) ≡ month = omega arith in rw (y, m)

month_end :
    (n year month : ℕ)
    → InMonth n year month
    → n < days_before_year year + days_before_month year month + days_in_month year month
month_end n year zero p = absurd (omega (arith, p.month_pos))
month_end n year (suc k) p =
    let next : days_before_month year (suc (suc k))
        ≡ days_before_month year (suc k) + days_in_month year (suc k) =
      (unfold days_before_month in refl) in
    omega (arith, p.month_high, p.year_low)

-- An instant lies in its month.
pub month_of_lem :
    (t : ℕ)
    → (12 ≤ month_of t) × (month_instant (month_of t) ≤ t) × (t < month_instant (suc (month_of t)))
month_of_lem t =
    let f = fields t in
    let p = fields-InMonth t in
    let low : 12 ≤ month_of t = omega (arith, p.year_pos, p.month_pos) in
    let start = month_instant_parts f.year f.month (p.month_pos, p.month_le) in
    let y : (f.year * 12 + f.month - 1) / 12 ≡ f.year = omega (arith, p.month_pos, p.month_le) in
    let m : suc ((f.year * 12 + f.month - 1) % 12) ≡ f.month =
      omega (arith, p.month_pos, p.month_le) in
    let end = month_end (t / day) f.year f.month p in
    let next = (rw (y, m) at (month_instant-suc (month_of t) low)) in
    (low, omega (arith, p.month_low, p.year_low), omega arith)

-- `_month_start` is the first instant of the month.
pub month_start_lem : (t : ℕ) → t ≤ max_instant → month_start t ≡ ok (month_instant (month_of t))
unfolding month_start
month_start_lem t fits =
    let f = fields t in
    let p = fields-InMonth t in
    let last_year = year_le_max (t / day) f.year p.year_low (omega arith) in
    let start = month_instant_parts f.year f.month (p.month_pos, p.month_le) in
    rw (instant_fits f.year f.month 1 0 p.year_pos last_year) (ap ok (omega arith))

first_of_month :
    (index : ℕ)
    → 12 ≤ index
    → index < 120000
    → instant (index / 12) (index % 12 + 1) 1 0 ≡ ok (month_instant index)
unfolding month_instant
first_of_month index low high =
    let m : index % 12 + 1 ≡ suc (index % 12) = omega arith in
    rw (m, instant_fits (index / 12) (suc (index % 12)) 1 0 (omega arith) (omega arith))
      (ap ok (omega arith))

-- The fields of the first instant of a month in range.
fields-month_instant :
    (index : ℕ)
    → 12 ≤ index
    → index < 120000
    → fields (month_instant index)
      ≡ record { year = index / 12; month = suc (index % 12); day_of_month = 1; time_of_day = 0 }
fields-month_instant index low high =
    let m : index % 12 + 1 ≡ suc (index % 12) = omega arith in
    fields-instant (index / 12) (suc (index % 12)) 1 0 (month_instant index)
      (omega arith, omega arith) (omega arith, omega arith)
      (omega arith, month_length_pos (index / 12) (suc (index % 12))) (omega arith)
      (rw m at (first_of_month index low high))

pub month_of-month_instant :
    (index : ℕ) → 12 ≤ index → index < 120000 → month_of (month_instant index) ≡ index
month_of-month_instant index low high = rw (fields-month_instant index low high) (omega arith)

-- From the first instant of a month to the next one, within the years 1 to 9999.
pub add_month-month_instant :
    (index : ℕ)
    → 12 ≤ index
    → suc index < 120000
    → add_month (month_instant index) (pos 1) ≡ ok (month_instant (suc index))
unfolding add_month
add_month-month_instant index low high =
    let same : index / 12 * 12 + suc (index % 12) - 1 + 1 ≡ suc index = omega arith in
    let clipped : min 1 (days_in_month (suc index / 12) (suc index % 12 + 1)) ≡ 1 =
      omega (arith, month_length_pos (suc index / 12) (suc index % 12 + 1)) in
    rw (fields-month_instant index low (omega arith), same, clipped)
      (first_of_month (suc index) (omega arith) high)

pub add_month_back :
    (index : ℕ)
    → 12 ≤ index
    → suc index < 120000
    → add_month (month_instant (suc index)) (negsuc 0) ≡ ok (month_instant index)
unfolding add_month
add_month_back index low high =
    let same : suc index / 12 * 12 + suc (suc index % 12) - 1 - 1 ≡ index = omega arith in
    let clipped : min 1 (days_in_month (index / 12) (index % 12 + 1)) ≡ 1 =
      omega (arith, month_length_pos (index / 12) (index % 12 + 1)) in
    rw (fields-month_instant (suc index) (omega arith) high, same, clipped)
      (first_of_month index low (omega arith))
