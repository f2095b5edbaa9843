-- ===== src/Time/Timeframe.antt =====
-- The timeframes and months of domain/timeframes.py. A shift of months is a signed number.
pub mod Months
pub mod Opens
use signapse_mdg.Base.{
  ℕ, zero, suc, ◌+◌, ◌-◌, ◌*◌, ◌/◌, ◌%◌, Bool, true, false, ◌&&◌, Option, String, List, [], ◌∷◌,
  Result, ok, out_of_fuel, err, ◌>>=◌, Dict, lookup, string_eq, nat_eq, ◌==◌, ltb, leb, min, length,
  if◌then◌else◌,
}
use signapse_mdg.Time.{epoch, minute, day, millisecond, max_instant, add_time, sub_time}
use signapse_mdg.Time.Civil.{days_in_month, fields, instant}

-- `negsuc n` is -(n + 1).
pub data ℤ : Type 0 where
  pos : ℕ → ℤ
  negsuc : ℕ → ℤ

pub record Timeframe : Type 0 where
  pub value : String
  pub duration : ℕ
  pub provider_interval : String
  pub calendar_month : Bool

abbrev fixed : String → ℕ → String × Timeframe
fixed value minutes = (
  value,
  record {
    value = value;
    duration = minutes * minute;
    provider_interval = value;
    calendar_month = false;
  },
)

-- `TIMEFRAMES`
unfoldable pub timeframes : Dict String Timeframe
timeframes =
    fixed "1m" 1
    ∷ fixed "5m" 5
    ∷ fixed "15m" 15
    ∷ fixed "30m" 30
    ∷ fixed "1h" 60
    ∷ fixed "4h" 240
    ∷ fixed "1d" 1440
    ∷ fixed "1w" 10080
    ∷ (
      "1mo",
      record {
        value = "1mo";
        duration = 31 * day;
        provider_interval = "1mo";
        calendar_month = true;
      },
    )
    ∷ []

unfoldable pub get_timeframe : String → Option Timeframe
unfolding timeframes lookup
get_timeframe value = lookup value timeframes

-- `value.year * 12 + value.month - 1 + months`; what is below 0 is below year 1 too.
abbrev shift_index : ℕ → ℤ → ℕ
shift_index index (pos n) = index + n
shift_index index (negsuc n) = index - suc n

unfoldable pub add_month : ℕ → ℤ → Result ℕ
add_month value months =
    let f = fields value in
    let month_index = shift_index (f.year * 12 + f.month - 1) months in
    let year = month_index / 12 in
    let month = month_index % 12 + 1 in
    instant year month (min f.day_of_month (days_in_month year month)) f.time_of_day

-- `_month_start`
unfoldable pub month_start : ℕ → Result ℕ
month_start value = let f = fields value in instant f.year f.month 1 0

-- The loop of `month_opens`.
unfoldable pub month_loop : ℕ → ℕ → ℕ → Result (List ℕ)
month_loop zero end cursor = err out_of_fuel
month_loop (suc fuel) end cursor =
    let rest = (do
      next ← add_month cursor (pos 1)
      opens ← month_loop fuel end next
      ok (cursor ∷ opens)) in
    if ltb cursor end then rest else ok []

unfoldable pub month_opens : ℕ → ℕ → Result (List ℕ)
month_opens start end = do
  cursor ← month_start start
  first ← (if ltb cursor start then add_month cursor (pos 1) else ok cursor)
  month_loop (suc end) end first

-- What `is_aligned` sees of its argument: none, the UTC offset zero, or another one.
pub data Zone : Type 0 where
  naive utc elsewhere : Zone

-- Python's `%` of a signed duration: the distance from the epoch, modulo the duration.
abbrev since_epoch : ℕ → ℕ → ℕ
since_epoch value duration =
    if leb epoch value
    then (value - epoch) % duration
    else (duration - (epoch - value) % duration) % duration

unfoldable pub is_aligned : Zone → ℕ → Timeframe → Bool
is_aligned naive value timeframe = false
is_aligned elsewhere value timeframe = false
is_aligned utc value timeframe =
    let f = fields value in
    if timeframe.calendar_month
    then f.day_of_month == 1 && f.time_of_day == 0
    else since_epoch value timeframe.duration == 0

-- `int((end - start) / timeframe.duration)` rounds toward zero; an `end` before the start gives a
-- number that is not positive, here with its sign.
unfoldable pub expected_candle_count : ℕ → ℕ → Timeframe → Result ℤ
expected_candle_count start end timeframe =
    if timeframe.calendar_month
    then (do opens ← month_opens start end; ok (pos (length opens)))
    else ok (
        if leb start end
        then pos ((end - start) / timeframe.duration)
        else negate ((start - end) / timeframe.duration))
  where
    negate : ℕ → ℤ
    negate zero = pos 0
    negate (suc n) = negsuc n

unfoldable pub candle_close_time : ℕ → Timeframe → Result ℕ
candle_close_time open_time timeframe = do
  end ←
      (if timeframe.calendar_month
        then add_month open_time (pos 1)
        else add_time open_time timeframe.duration)
  sub_time end millisecond

unfoldable pub last_open_before : ℕ → Timeframe → Result ℕ
last_open_before end timeframe =
    if timeframe.calendar_month
    then (do
      start ← month_start end
      if leb end start then add_month start (negsuc 0) else ok start)
    else sub_time end timeframe.duration
