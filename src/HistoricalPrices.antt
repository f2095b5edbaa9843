-- ===== src/HistoricalPrices.antt =====
-- services/historical_prices.py, over the operations of the candle service that it calls.
pub mod Latest
pub mod Service
pub mod Wired
use signapse_mdg.Base.{
  ℕ, ◌+◌, ◌-◌, ◌%◌, Bool, true, false, ◌&&◌, Option, none, some, List, [], ◌∷◌, String, string_eq,
  ◌==◌, ltb, leb, Error, candle_request, historical_price_not_found, Result, ok, err, if◌then◌else◌,
}
use signapse_mdg.Base
use signapse_mdg.Time.{minute, add_time}
use signapse_mdg.Symbols.{SupportedSymbol}
use signapse_mdg.Candles.{Candle, CandleRequest, CandleResult, Decimal, backward}
use signapse_mdg.Requests.{Parsers, parse_utc, text_of}
use signapse_mdg.Gateway.{Exec, pure, raise, lift, ◌>>=◌, ◌>>◌}

abbrev pub historical_price_resolutions : List String
historical_price_resolutions = "1m" ∷ "5m" ∷ "1h" ∷ "1d" ∷ []

pub record HistoricalPriceRequest : Type 0 where
  pub symbol : String
  pub at : ℕ
  pub provider : Option String

pub record HistoricalPriceResult : Type 0 where
  pub symbol : String
  pub price : Decimal
  pub priced_at : ℕ
  pub price_display_decimals : ℕ
  pub resolution : String

unfoldable pub parse_historical_price_request :
    Parsers → Option String → Option String → Option String → Result HistoricalPriceRequest
unfolding parse_utc
parse_historical_price_request parsers raw_symbol raw_at raw_provider =
    if text_of raw_symbol == ""
    then err (candle_request "UNSUPPORTED_SYMBOL")
    else Base.◌>>=◌ (parse_utc parsers raw_at)
        (λ at. ok (record { symbol = text_of raw_symbol; at = at; provider = raw_provider }))

unfoldable pub historical_price_window : ℕ → Result (ℕ × ℕ)
historical_price_window at =
    Base.◌>>=◌ (add_time (at - at % minute) minute) (λ end. ok (at - at % minute, end))

-- What the service calls of the candle service.
pub record CandleOperations (S : Type 0) : Type 0 where
  pub resolve_symbol : String → Option String → Exec S SupportedSymbol
  pub get_candles : CandleRequest → Option SupportedSymbol → Exec S CandleResult

abbrev pub eligible : ℕ → Candle → Bool
eligible at candle = candle.complete && leb candle.close_time at

-- `max(…, key=open_time)`: the first of the greatest.
abbrev pub latest_of : Candle → List Candle → Candle
latest_of best [] = best
latest_of best (c ∷ more) = latest_of (if ltb best.open_time c.open_time then c else best) more

abbrev pub latest_or_none : List Candle → Option Candle
latest_or_none [] = none
latest_or_none (c ∷ more) = some (latest_of c more)

-- The eligible candle that opened last.
unfoldable pub latest_eligible : ℕ → List Candle → Option Candle
latest_eligible at candles = latest_or_none (Base.keep (eligible at) candles)

abbrev pub request_for : HistoricalPriceRequest → String → CandleRequest
request_for request resolution = record {
  symbol = request.symbol;
  timeframe = resolution;
  start = request.at;
  end = request.at;
  limit = some 2;
  count_direction = some backward;
  provider = request.provider;
  count = none;
}

abbrev pub priced_by : CandleResult → String → Candle → HistoricalPriceResult
priced_by result resolution candle = record {
  symbol = result.symbol;
  price = candle.close;
  priced_at = candle.open_time;
  price_display_decimals = result.price_display_decimals;
  resolution = resolution;
}

module _ {S : Type 0} (candles : CandleOperations S) where
  abbrev pub priced_or :
      CandleResult
      → String
      → Option Candle
      → Exec S HistoricalPriceResult
      → Exec S HistoricalPriceResult
  priced_or result resolution none rest = rest
  priced_or result resolution (some candle) rest = pure (priced_by result resolution candle)

  -- The loop over the resolutions.
  unfoldable pub try_resolutions :
      HistoricalPriceRequest → SupportedSymbol → List String → Exec S HistoricalPriceResult
  unfolding latest_eligible
  try_resolutions request symbol [] = raise historical_price_not_found
  try_resolutions request symbol (resolution ∷ more) = do
    result ← candles.get_candles (request_for request resolution) (some symbol)
    priced_or result resolution (latest_eligible request.at result.candles)
        (try_resolutions request symbol more)

  -- `now` is the clock's reading.
  unfoldable pub get_historical_price : ℕ → HistoricalPriceRequest → Exec S HistoricalPriceResult
  unfolding try_resolutions
  get_historical_price now request = do
    (if ltb now request.at then raise (candle_request "INVALID_TIME_RANGE") else pure tt)
    symbol ← candles.resolve_symbol request.symbol request.provider
    try_resolutions request symbol historical_price_resolutions
