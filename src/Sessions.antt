-- ===== src/Sessions.antt =====
-- domain/market_sessions.py. Weekdays count from Monday, 0; the year 1 begins on one. Dates are day
-- numbers from 0001-01-01. The time zone database and the library `pandas_market_calendars` are a
-- parameter: the wall clock of New York, which calendars exist, and their sessions of a year.
-- Every test returns: what `astimezone`, sums of dates at the two ends of the range of `datetime`, or a
-- calendar outside the dates of pandas raise is left out.
pub mod Week
use signapse_mdg.Base.{
  ℕ, zero, suc, ◌+◌, ◌-◌, ◌*◌, ◌/◌, ◌%◌, Bool, true, false, ◌&&◌, ◌||◌, not, List, [], ◌∷◌, ◌++◌,
  Option, none, some, String, string_eq, nat_eq, ◌==◌, contains, any, keep, ltb, leb, if◌then◌else◌,
}
use signapse_mdg.Time.{day, hour, minute}
use signapse_mdg.Time.Civil.{fields, days_before_year, days_before_month}
use signapse_mdg.Symbols.{SupportedSymbol}

pub record CalendarSession : Type 0 where
  pub session_date : ℕ
  pub market_open : ℕ
  pub market_close : ℕ
  pub break_start : Option ℕ
  pub break_end : Option ℕ

pub record Calendars : Type 0 where
  pub new_york : ℕ → ℕ
  pub calendar_exists : String → Bool
  pub year_sessions : String → ℕ → List CalendarSession

abbrev pub weekday : ℕ → ℕ
weekday t = t / day % 7

abbrev pub time_of : ℕ → ℕ
time_of t = t % day

abbrev pub forex_session_boundary : ℕ
forex_session_boundary = 17 * hour

abbrev pub etf_session_open : ℕ
etf_session_open = 9 * hour + 30 * minute

abbrev pub etf_session_close : ℕ
etf_session_close = 16 * hour

abbrev pub wti_session_reopen : ℕ
wti_session_reopen = 18 * hour

abbrev pub wti_session_close : ℕ
wti_session_close = 17 * hour

abbrev pub coarse_timeframes : List String
coarse_timeframes = "1d" ∷ "1w" ∷ []

-- `is_eligible` below the daily timeframes, on the wall clock of New York.
unfoldable pub forex_open : ℕ → Bool
forex_open local =
    if ltb (weekday local) 4
    then true
    else if weekday local == 4
    then ltb (time_of local) forex_session_boundary
    else if weekday local == 5
    then false
    else leb forex_session_boundary (time_of local)

unfoldable pub etf_open : ℕ → Bool
etf_open local =
    ltb (weekday local) 5
    && (leb etf_session_open (time_of local) && ltb (time_of local) etf_session_close)

unfoldable pub wti_open : ℕ → Bool
wti_open local =
    if weekday local == 5
    then false
    else if weekday local == 6
    then leb wti_session_reopen (time_of local)
    else if weekday local == 4
    then ltb (time_of local) wti_session_close
    else ltb (time_of local) wti_session_close || leb wti_session_reopen (time_of local)

-- The policies share their tests of the coarse timeframes.
unfoldable pub by_timeframe : (ℕ → Bool) → ℕ → ℕ → String → Bool
by_timeframe intraday local open_time timeframe =
    if timeframe == "1mo"
    then true
    else if contains coarse_timeframes timeframe
    then ltb (weekday open_time) 5
    else intraday local

-- Years `year`, `year + 1`, …, as many as `count`.
abbrev sessions_of_years : (ℕ → List CalendarSession) → ℕ → ℕ → ℕ → ℕ → List CalendarSession
sessions_of_years of_year start end zero year = []
sessions_of_years of_year start end (suc count) year =
    keep (λ s. leb start s.session_date && leb s.session_date end) (of_year year)
    ++ sessions_of_years of_year start end count (suc year)

abbrev pub year_of : ℕ → ℕ
year_of date = (fields (date * day)).year

-- `_calendar_sessions`
unfoldable pub calendar_sessions : Calendars → String → ℕ → ℕ → List CalendarSession
calendar_sessions c name start end =
    if ltb end start
    then []
    else sessions_of_years (c.year_sessions name) start end (year_of end + 1 - year_of start)
        (year_of start)

abbrev pub in_break : ℕ → Option ℕ → Option ℕ → Bool
in_break t (some start) (some end) = leb start t && ltb t end
in_break t (some start) none = false
in_break t none end = false

abbrev pub in_session : ℕ → CalendarSession → Bool
in_session t s =
    (leb s.market_open t && ltb t s.market_close) && not (in_break t s.break_start s.break_end)

abbrev pub some_session : List CalendarSession → Bool
some_session [] = false
some_session (s ∷ sessions) = true

-- `PandasMarketCalendarSessionPolicy.is_eligible`, for dates whose neighbours are in the range of `date`; the day
-- before the first one is the first one.
unfoldable pub calendar_open : Calendars → String → ℕ → String → Bool
unfolding calendar_sessions
calendar_open c name t timeframe =
    let date = t / day in
    let f = fields t in
    let next_year = f.year + (if f.month == 12 then 1 else 0) in
    let next_month = days_before_year next_year + days_before_month next_year (f.month % 12 + 1) in
    if timeframe == "1d"
    then any (λ s. s.session_date == date) (calendar_sessions c name date date)
    else if timeframe == "1w"
    then some_session (calendar_sessions c name date (date + 6))
    else if timeframe == "1mo"
    then some_session (calendar_sessions c name date (next_month - 1))
    else any (in_session t) (calendar_sessions c name (date - 1) (date + 1))

pub data SessionPolicy : Type 0 where
  always_open forex_weekly us_etf_regular wti_energy : SessionPolicy
  pandas_market_calendar : String → SessionPolicy

unfoldable pub is_eligible : Calendars → SessionPolicy → ℕ → String → Bool
unfolding by_timeframe
is_eligible c always_open t timeframe = true
is_eligible c forex_weekly t timeframe = by_timeframe forex_open (c.new_york t) t timeframe
is_eligible c us_etf_regular t timeframe = by_timeframe etf_open (c.new_york t) t timeframe
is_eligible c wti_energy t timeframe = by_timeframe wti_open (c.new_york t) t timeframe
is_eligible c (pandas_market_calendar name) t timeframe = calendar_open c name t timeframe

unfoldable pub get_market_session_policy_for_asset_class : String → SessionPolicy
get_market_session_policy_for_asset_class asset_class =
    if asset_class == "FOREX"
    then forex_weekly
    else if asset_class == "ETF"
    then us_etf_regular
    else always_open

abbrev is_text : Option String → String → Bool
is_text none value = false
is_text (some text) value = text == value

-- The tests on a calendar of `pandas_market_calendars`, whose name is not empty.
abbrev named_calendar : Calendars → SupportedSymbol → String → SessionPolicy → SessionPolicy
named_calendar c symbol name otherwise =
    if name == ""
    then otherwise
    else if name == "FOREX" || symbol.symbol == "XAU/USD"
    then forex_weekly
    else if c.calendar_exists name
    then pandas_market_calendar name
    else otherwise

abbrev by_calendar : Calendars → SupportedSymbol → Option String → SessionPolicy → SessionPolicy
by_calendar c symbol none otherwise = otherwise
by_calendar c symbol (some name) otherwise = named_calendar c symbol name otherwise

unfoldable pub get_market_session_policy : Calendars → SupportedSymbol → SessionPolicy
unfolding get_market_session_policy_for_asset_class
get_market_session_policy c symbol =
    let by_symbol =
      if symbol.symbol == "WTI"
      then wti_energy
      else get_market_session_policy_for_asset_class symbol.asset_class in
    if is_text symbol.calendar_source "internal" && is_text symbol.calendar_name "24/7"
    then always_open
    else if is_text symbol.calendar_source "pandas_market_calendars"
    then by_calendar c symbol symbol.calendar_name by_symbol
    else by_symbol
