-- ===== src/CandleApi.antt =====
-- `CandleService.get_candles` of services/candles.py, from the symbol's name to the answer: the parts of the
-- candle service and the count queries put together. `single_flight` only orders the requests of one key.
pub mod Answer
use signapse_mdg.Base.{ℕ, Option, none, some, String, Result, ok, err, Error, candle_request}
use signapse_mdg.Symbols.{SupportedSymbol}
use signapse_mdg.Sessions.{Calendars, get_market_session_policy, is_eligible}
use signapse_mdg.Time.Timeframe.{Timeframe, get_timeframe}
use signapse_mdg.Schedule.{get_candle_schedule}
use signapse_mdg.Candles.{CandleRequest, CandleResult}
use signapse_mdg.Gateway.{Repository, CandleProvider, Exec, pure, raise, lift, ◌>>=◌, ◌>>◌}
use signapse_mdg.CandleService.{Context, resolve_symbol, get_by_plan}
use signapse_mdg.CandleCount.{execute}

pub record Settings : Type 0 where
  pub max_candles : ℕ
  pub scan_budget : ℕ
  pub ttl : ℕ

-- The session policy and the schedule that `_get_candles` looks up.
unfoldable pub context_of : Calendars → ℕ → CandleRequest → SupportedSymbol → Timeframe → Context
unfolding get_market_session_policy is_eligible get_candle_schedule
context_of calendars now request symbol timeframe = record {
  request = request;
  symbol = symbol;
  timeframe = timeframe;
  policy = is_eligible calendars (get_market_session_policy calendars symbol);
  schedule = get_candle_schedule symbol timeframe;
  now = now;
}

abbrev pub timeframe_or : Option Timeframe → Result Timeframe
timeframe_or none = err (candle_request "UNSUPPORTED_TIMEFRAME")
timeframe_or (some timeframe) = ok timeframe

module _ {S : Type 0} (repo : Repository S) (provider : CandleProvider) where
  abbrev pub resolved_or : CandleRequest → Option SupportedSymbol → Exec S SupportedSymbol
  resolved_or request none = resolve_symbol repo provider request.symbol request.provider
  resolved_or request (some symbol) = pure symbol

  -- Requests for a number of candles go to the count queries.
  abbrev pub by_count : Settings → Context → Option ℕ → Exec S CandleResult
  by_count s c none = get_by_plan repo provider s.max_candles s.ttl c
  by_count s c (some count) = execute repo provider s.max_candles s.scan_budget s.ttl c

  unfoldable pub get_candles :
      Calendars → Settings → ℕ → CandleRequest → Option SupportedSymbol → Exec S CandleResult
  unfolding context_of resolve_symbol get_by_plan execute get_timeframe
  get_candles calendars s now request resolved_symbol = do
    symbol ← resolved_or request resolved_symbol
    timeframe ← lift (timeframe_or (get_timeframe request.timeframe))
    by_count s (context_of calendars now request symbol timeframe) request.count
