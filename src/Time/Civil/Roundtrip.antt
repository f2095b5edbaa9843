-- ===== src/Time/Civil/Roundtrip.antt =====
-- Reading an instant's fields and building an instant from fields are inverse to each other.
use signapse_mdg.Base.{
  ℕ, zero, suc, ◌+◌, ◌-◌, ◌*◌, ◌/◌, ◌%◌, ◌≤◌, ◌<◌, ◌≡◌, refl, ok, arith, ap, dec_lt, le→leb, ◌∙◌,
}
use signapse_mdg.Time.{day, max_instant}
use signapse_mdg.Time.Civil.{
  Fields, days_in_month, days_before_year, days_before_month, fields, instant,
}
use signapse_mdg.Time.Civil.Months.{days_before_year-suc}
use signapse_mdg.Time.Civil.Reading.{InMonth, fields-InMonth}

days_before_year_mono : (k a : ℕ) → days_before_year a ≤ days_before_year (a + k)
unfolding days_before_year
days_before_year_mono k a = omega arith

days_before_month_mono : (year k a : ℕ) → days_before_month year a ≤ days_before_month year (a + k)
days_before_month_mono year zero a = let same : a + 0 ≡ a = omega arith in rw same (omega arith)
days_before_month_mono year (suc k) a =
    let shift : a + suc k ≡ suc (a + k) = omega arith in
    rw shift (omega (arith, days_before_month_mono year k a, step (a + k)))
  where
    step : (m : ℕ) → days_before_month year m ≤ days_before_month year (suc m)
    step zero = unfold days_before_month in omega arith
    step (suc m) = unfold days_before_month in omega arith

-- Two numbers whose half-open intervals share a point are one.
same_interval :
    (f : ℕ → ℕ) (mono : (k a : ℕ) → f a ≤ f (a + k)) (n a b : ℕ)
    → f a ≤ n
    → n < f (suc a)
    → f b ≤ n
    → n < f (suc b)
    → a ≡ b
same_interval f mono n a b la ha lb hb = elim (dec_lt a b) [
  | yes p ↦
      let e : suc a + (b - suc a) ≡ b = omega arith in
      absurd (omega (arith, rw e at (mono (b - suc a) (suc a))))
  | no p ↦ elim (dec_lt b a) [
    | yes q ↦
        let e : suc b + (a - suc b) ≡ a = omega arith in
        absurd (omega (arith, rw e at (mono (a - suc b) (suc b))))
    | no q ↦ omega arith
  ]
]

InMonth-unique : (n y m y' m' : ℕ) → InMonth n y m → InMonth n y' m' → (y ≡ y') × (m ≡ m')
InMonth-unique n y m y' m' p q =
    let ye =
      same_interval days_before_year days_before_year_mono n y y' p.year_low p.year_high q.year_low
        q.year_high in
    let q' : InMonth n y m' = rw ye q in
    (
      ye,
      same_interval (days_before_month y) (days_before_month_mono y) (n - days_before_year y) m m'
          p.month_low p.month_high q'.month_low q'.month_high,
    )

pub year_le_max : (n year : ℕ) → days_before_year year ≤ n → n < 3652059 → year ≤ 9999
unfolding days_before_year
year_le_max n year low high = omega arith

pub fields-day :
    (t : ℕ)
    → (fields t).day_of_month
      ≡ t / day
        - days_before_year (fields t).year
        - days_before_month (fields t).year (fields t).month
        + 1
unfolding fields
fields-day t = refl

fields_time : (t : ℕ) → (fields t).time_of_day ≡ t % day
unfolding fields
fields_time t = refl

fields_ext :
    (a b : Fields)
    → a.year ≡ b.year
    → a.month ≡ b.month
    → a.day_of_month ≡ b.day_of_month
    → a.time_of_day ≡ b.time_of_day
    → a ≡ b
fields_ext a b p q r s = ground arith

instant-eq-ok :
    (year month day_of_month time_of_day t : ℕ)
    → instant year month day_of_month time_of_day ≡ ok t
    → (t
        ≡ (days_before_year year + days_before_month year month + day_of_month - 1) * day
          + time_of_day)
      × (1 ≤ year)
      × (year ≤ 9999)
unfolding instant
instant-eq-ok year month day_of_month time_of_day t h = ground arith

date-InMonth :
    (n year month day_of_month : ℕ)
    → (1 ≤ year) × (year ≤ 9999)
    → (1 ≤ month) × (month ≤ 12)
    → (1 ≤ day_of_month) × (day_of_month ≤ days_in_month year month)
    → n ≡ days_before_year year + days_before_month year month + day_of_month - 1
    → InMonth n year month
date-InMonth n year zero day_of_month years months days e = absurd (omega arith)
date-InMonth n year (suc k) day_of_month years months days e =
    let next : days_before_month year (suc (suc k))
        ≡ days_before_month year (suc k) + days_in_month year (suc k) =
      (unfold days_before_month in refl) in
    let rest : suc (suc k) + (11 - k) ≡ 13 = omega arith in
    let within = (rw rest at (days_before_month_mono year (11 - k) (suc (suc k)))) in
    let after = days_before_year-suc year years.0 in
    record {
      year_low = omega arith;
      year_high = omega arith;
      year_pos = years.0;
      month_low = omega arith;
      month_high = omega arith;
      month_pos = months.0;
      month_le = months.1;
    }

days_before :
    (t y m : ℕ)
    → InMonth (t / day) y m
    → (d : ℕ) → d ≡ t / day - days_before_year y - days_before_month y m + 1
    → days_before_year y + days_before_month y m + d - 1 ≡ t / day
days_before t y m p d e = omega (arith, p.year_low, p.month_low)

-- The fields of a datetime give it back.
pub instant-fields :
    (t : ℕ)
    → t ≤ max_instant
    → let f = fields t in instant f.year f.month f.day_of_month f.time_of_day ≡ ok t
unfolding instant
instant-fields t fits =
    let f = fields t in
    let p = fields-InMonth t in
    let last_year = year_le_max (t / day) f.year p.year_low (omega arith) in
    let whole = days_before t f.year f.month p (fields t).day_of_month (fields-day t) in
    rw (le→leb 1 f.year p.year_pos, le→leb f.year 9999 last_year)
      (ap ok (rw (whole, fields_time t) (omega arith)))

-- A valid date and time of day is read back from its instant.
pub fields-instant :
    (year month day_of_month time_of_day t : ℕ)
    → (1 ≤ year) × (year ≤ 9999)
    → (1 ≤ month) × (month ≤ 12)
    → (1 ≤ day_of_month) × (day_of_month ≤ days_in_month year month)
    → time_of_day < day
    → instant year month day_of_month time_of_day ≡ ok t
    → fields t ≡ record {
      year = year;
      month = month;
      day_of_month = day_of_month;
      time_of_day = time_of_day;
    }
fields-instant year month day_of_month time_of_day t years months days times h =
    let (at, _, _) = instant-eq-ok year month day_of_month time_of_day t h in
    let n = t / day in
    let day_is : n ≡ days_before_year year + days_before_month year month + day_of_month - 1 =
      omega arith in
    let time_is : t % day ≡ time_of_day = omega arith in
    let inside = date-InMonth n year month day_of_month years months days day_is in
    let (same_year, same_month) =
      InMonth-unique n (fields t).year (fields t).month year month (fields-InMonth t) inside in
    let same_day = fields-day t in
    fields_ext (fields t) _ same_year same_month
      (rw (same_year, same_month) at same_day ∙ omega arith) (fields_time t ∙ time_is)

pub instant_fits :
    (year month day_of_month time_of_day : ℕ)
    → 1 ≤ year
    → year ≤ 9999
    → instant year month day_of_month time_of_day
      ≡ ok (
          (days_before_year year + days_before_month year month + day_of_month - 1) * day
          + time_of_day)
unfolding instant
instant_fits year month day_of_month time_of_day low high =
    rw (le→leb 1 year low, le→leb year 9999 high)
