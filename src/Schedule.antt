-- ===== src/Schedule.antt =====
-- domain/candle_schedules.py: the two schedules behind the protocol `CandleSchedule`.
pub mod Sections
pub mod Fixed
pub mod Month
use signapse_mdg.Base.{
  ℕ, ◌*◌, Bool, ◌&&◌, ◌||◌, false, List, [], ◌∷◌, Option, none, some, Result, String, ◌==◌,
  string_eq, contains, if◌then◌else◌,
}
use signapse_mdg.Time.{minute, day}
use signapse_mdg.Time.Timeframe.{Timeframe, pos, add_month}
use signapse_mdg.Symbols.{SupportedSymbol}
use signapse_mdg.Schedule.Sections.{ProviderFetchSection}
use signapse_mdg.Schedule.Sections
use signapse_mdg.Schedule.Fixed.{FixedOffset, Policy}
use signapse_mdg.Schedule.Fixed
use signapse_mdg.Schedule.Month

pub data CandleSchedule : Type 0 where
  fixed_offset : FixedOffset → CandleSchedule
  calendar_month : CandleSchedule

unfoldable pub expected_opens : CandleSchedule → ℕ → ℕ → Policy → String → Result (List ℕ)
expected_opens (fixed_offset s) start end policy timeframe =
    Fixed.expected_opens s start end policy timeframe
expected_opens calendar_month start end policy timeframe =
    Month.expected_opens start end policy timeframe

unfoldable pub latest_opens : CandleSchedule → ℕ → ℕ → Policy → String → Result (List ℕ)
latest_opens (fixed_offset s) end limit policy timeframe =
    Fixed.latest_opens s end limit policy timeframe
latest_opens calendar_month end limit policy timeframe =
    Month.latest_opens end limit policy timeframe

unfoldable pub next_opens : CandleSchedule → ℕ → ℕ → Policy → String → Result (List ℕ)
next_opens (fixed_offset s) start limit policy timeframe =
    Fixed.next_opens s start limit policy timeframe
next_opens calendar_month start limit policy timeframe =
    Month.next_opens start limit policy timeframe

unfoldable pub end_after : CandleSchedule → ℕ → Result ℕ
end_after (fixed_offset s) open_time = Fixed.end_after s open_time
end_after calendar_month open_time = Month.end_after open_time

unfoldable pub missing_sections :
    CandleSchedule → List ℕ → List ℕ → Result (List ProviderFetchSection)
missing_sections schedule = Sections.missing_sections (end_after schedule)

-- The symbols and calendars whose hourly candles open at half past the hour.
abbrev twelvedata_offset_hourly_symbols : List String
twelvedata_offset_hourly_symbols = "WTI" ∷ "SPY" ∷ "QQQ" ∷ []

abbrev yfinance_offset_hourly_calendars : List String
yfinance_offset_hourly_calendars = "NYSE" ∷ []

abbrev in_calendars : Option String → Bool
in_calendars none = false
in_calendars (some name) = contains yfinance_offset_hourly_calendars name

abbrev hourly_offset : SupportedSymbol → Timeframe → Bool
hourly_offset symbol timeframe =
    (symbol.provider == "TWELVE_DATA"
      && contains twelvedata_offset_hourly_symbols symbol.provider_symbol
      && timeframe.value == "1h")
    || (symbol.provider == "YFINANCE"
        && in_calendars symbol.calendar_name
        && timeframe.value == "1h")

unfoldable pub get_candle_schedule : SupportedSymbol → Timeframe → CandleSchedule
get_candle_schedule symbol timeframe =
    let offset = if hourly_offset symbol timeframe then 30 * minute else 0 in
    let offset' = if timeframe.value == "1w" then 4 * day else offset in
    if timeframe.calendar_month
    then calendar_month
    else fixed_offset (record { duration = timeframe.duration; offset = offset' })
