-- ===== src/Time.antt =====
-- domain/timeframes.py over instants. An aware datetime is the number of microseconds since
-- 0001-01-01T00:00:00 UTC, the least value of Python's `datetime`; sums and differences that leave
-- its range raise OverflowError.
pub mod Timeframe
pub mod Civil
use signapse_mdg.Base.{
  ℕ, ◌+◌, ◌-◌, ◌*◌, ◌≤◌, ◌≡◌, Result, ok, err, overflow_error, arith, leb, if◌then◌else◌,
}

abbrev pub microsecond : ℕ
microsecond = 1

abbrev pub millisecond : ℕ
millisecond = 1000

abbrev pub second : ℕ
second = 1000 * millisecond

abbrev pub minute : ℕ
minute = 60 * second

abbrev pub hour : ℕ
hour = 60 * minute

abbrev pub day : ℕ
day = 24 * hour

-- 1970-01-01T00:00:00 UTC, after 719162 days.
abbrev pub epoch : ℕ
epoch = 719162 * day

-- 9999-12-31T23:59:59.999999, the greatest `datetime`.
abbrev pub max_instant : ℕ
max_instant = 3652059 * day - 1

-- `value + delta`
unfoldable pub add_time : ℕ → ℕ → Result ℕ
add_time value delta =
    if leb (value + delta) max_instant then ok (value + delta) else err overflow_error

-- `value - delta`
unfoldable pub sub_time : ℕ → ℕ → Result ℕ
sub_time value delta = if leb delta value then ok (value - delta) else err overflow_error

pub add_time-eq-ok :
    (value delta t : ℕ) → add_time value delta ≡ ok t → (t ≡ value + delta) × (t ≤ max_instant)
unfolding add_time
add_time-eq-ok value delta t h = ground arith

pub add_time_fits :
    (value delta : ℕ) → value + delta ≤ max_instant → add_time value delta ≡ ok (value + delta)
unfolding add_time
add_time_fits value delta h = ground arith

pub sub_time-eq-ok : (value delta t : ℕ) → sub_time value delta ≡ ok t → t + delta ≡ value
unfolding sub_time
sub_time-eq-ok value delta t h = ground arith
