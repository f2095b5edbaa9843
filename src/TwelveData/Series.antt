-- ===== src/TwelveData/Series.antt =====
-- The candles of providers/twelvedata_market_data.py: a time series and what becomes of it.
use signapse_mdg.Base.{
  ℕ, Bool, true, false, not, ◌||◌, Option, none, some, List, [], ◌∷◌, String, string_eq, nat_eq,
  contains, ltb, leb, Dict, lookup, Error, provider_unavailable, Result, ok, err, ◌>>=◌,
  if◌then◌else◌,
}
use signapse_mdg.Time.Timeframe.{pos, Timeframe, candle_close_time, get_timeframe, last_open_before}
use signapse_mdg.Symbols.{SupportedSymbol}
use signapse_mdg.Candles.{Candle, Decimal}
use signapse_mdg.Database.{sorted_by, opens_before}
use signapse_mdg.Normalization.{RawValue, DecimalParser, parse_decimal, decimal_ltb}
use signapse_mdg.Binance.{need, check, max_decimal, min_decimal, invalid}
use signapse_mdg.Keys.{Pool}
use signapse_mdg.TwelveData.{Attempt, RetryReadings, with_key_retry}

-- A row of a time series. A time is none where it is not understood, a volume where it is not given.
pub record SeriesRow : Type 0 where
  pub datetime : Option ℕ
  pub opening : RawValue
  pub high : RawValue
  pub low : RawValue
  pub close : RawValue
  pub volume : Option RawValue

pub record RowPrices : Type 0 where
  pub opening : Decimal
  pub high : Decimal
  pub low : Decimal
  pub close : Decimal
  pub volume : Decimal

abbrev row_volume : DecimalParser → Option RawValue → Option Decimal
row_volume decimal none = some (record { coefficient = pos 0; exponent = pos 0 })
row_volume decimal (some value) = parse_decimal decimal false false false value

abbrev pub row_prices : DecimalParser → SeriesRow → Result RowPrices
row_prices decimal row = do
  opening ← need (parse_decimal decimal true false false row.opening)
  high ← need (parse_decimal decimal true false false row.high)
  low ← need (parse_decimal decimal true false false row.low)
  close ← need (parse_decimal decimal true false false row.close)
  volume ← need (row_volume decimal row.volume)
  priced ←
      check (
        decimal_ltb high (max_decimal opening close) || decimal_ltb (min_decimal opening close) low)
  ok (record { opening = opening; high = high; low = low; close = close; volume = volume })

abbrev pub row_candle : SupportedSymbol → String → ℕ → ℕ → RowPrices → Candle
row_candle symbol timeframe open_time close_time prices = record {
  symbol = symbol.symbol;
  asset_class = symbol.asset_class;
  provider = symbol.provider;
  provider_symbol = symbol.provider_symbol;
  timeframe = timeframe;
  open_time = open_time;
  close_time = close_time;
  opening = prices.opening;
  high = prices.high;
  low = prices.low;
  close = prices.close;
  volume = prices.volume;
  complete = false;
}

module _ (decimal : DecimalParser) (eligible : ℕ → Bool) (symbol : SupportedSymbol)
    (timeframe : String) (start end : ℕ) (model : Timeframe) where
  -- The round of the loop of `_normalize_time_series` for a row: none where the row is skipped.
  abbrev pub normalize_row : List ℕ → SeriesRow → Result (Option Candle)
  normalize_row seen row = do
    open_time ← need row.datetime
    close_time ← candle_close_time open_time model
    (if ltb open_time start || (leb end open_time || not (eligible open_time)) then ok none else (do
      once ← check (contains seen open_time)
      prices ← row_prices decimal row
      ok (some (row_candle symbol timeframe open_time close_time prices))))

  abbrev pub with_candle :
      Option Candle → List ℕ → (List ℕ → Result (List Candle)) → Result (List Candle)
  with_candle none seen rest = rest seen
  with_candle (some candle) seen rest =
      rest (candle.open_time ∷ seen) >>= λ candles. ok (candle ∷ candles)

  abbrev pub normalize_rows : List ℕ → List SeriesRow → Result (List Candle)
  normalize_rows seen [] = ok []
  normalize_rows seen (row ∷ more) = normalize_row seen row >>= λ candle.
      with_candle candle seen (λ after. normalize_rows after more)

  -- `_normalize_time_series`, of the rows that `_extract_time_series_rows` gives; none where it raises.
  unfoldable pub normalize_time_series : Option (List SeriesRow) → Result (List Candle)
  unfolding parse_decimal decimal_ltb candle_close_time
  normalize_time_series none = err invalid
  normalize_time_series (some rows) =
      normalize_rows [] rows >>= λ candles. ok (sorted_by opens_before candles)

-- What the client makes of a time series: its rows, none where the payload is not what it should be, or the answer
-- that there is no data, which the code raises past the retry and catches.
pub data SeriesAnswer : Type 0 where
  rows : Option (List SeriesRow) → SeriesAnswer
  no_data : SeriesAnswer

pub record SeriesCall : Type 0 where
  pub symbol : String
  pub interval : String
  pub start_date : ℕ
  pub end_date : ℕ
  pub outputsize : ℕ

abbrev intervals : Dict String String
intervals =
    ("1m", "1min")
    ∷ ("5m", "5min")
    ∷ ("15m", "15min")
    ∷ ("30m", "30min")
    ∷ ("1h", "1h")
    ∷ ("4h", "4h")
    ∷ ("1d", "1day")
    ∷ ("1w", "1week")
    ∷ ("1mo", "1month")
    ∷ []

abbrev not_configured : Error
not_configured = provider_unavailable "PROVIDER_NOT_CONFIGURED"

abbrev configured : {A : Type 0} → Option A → Result A
configured none = err not_configured
configured (some a) = ok a

module _ (reason_of : Error → String) (decimal : DecimalParser) (eligible : ℕ → Bool)
    (symbol : SupportedSymbol) (timeframe : String) (start end : ℕ) (model : Timeframe) where
  abbrev candles_of : Result SeriesAnswer → Result (List Candle)
  candles_of (err e) = err (provider_unavailable (reason_of e))
  candles_of (ok no_data) = ok []
  candles_of (ok (rows payload)) =
      normalize_time_series decimal eligible symbol timeframe start end model payload

  -- The call of the client, whose last argument is the open that `last_open_before` gives, if it gives one.
  abbrev fetched :
      RetryReadings
      → Error
      → (String → SeriesCall → Attempt SeriesAnswer)
      → String
      → ℕ
      → Pool
      → Result ℕ
      → Result (List Candle) × Pool
  fetched at failure client interval limit pool (err e) =
      (err (provider_unavailable (reason_of e)), pool)
  fetched at failure client interval limit pool (ok last) =
      let r =
        with_key_retry at failure
          (λ key. client key (record {
            symbol = symbol.provider_symbol;
            interval = interval;
            start_date = start;
            end_date = last;
            outputsize = limit;
          }))
          pool in
      (candles_of r.result, r.pool)

abbrev interval_and_model : List String → SupportedSymbol → String → Result (String × Timeframe)
interval_and_model supported symbol provider_interval =
    if contains supported symbol.provider_symbol
    then (do
      interval ← configured (lookup provider_interval intervals)
      model ← configured (get_timeframe provider_interval)
      ok (interval, model))
    else err not_configured

abbrev or_fetch :
    {A : Type 0}
    → Pool
    → Result (String × Timeframe)
    → (String → Timeframe → Result A × Pool)
    → Result A × Pool
or_fetch pool (err e) fetch = (err e, pool)
or_fetch pool (ok (interval, model)) fetch = fetch interval model

-- `TwelveDataMarketDataProvider.fetch_candles`; `client` is asked with a key.
unfoldable pub fetch_candles :
    RetryReadings
    → Error
    → (Error → String)
    → DecimalParser
    → (ℕ → Bool)
    → List String
    → (String → SeriesCall → Attempt SeriesAnswer)
    → SupportedSymbol
    → String
    → String
    → ℕ
    → ℕ
    → ℕ
    → Pool
    → Result (List Candle) × Pool
unfolding with_key_retry normalize_time_series lookup get_timeframe last_open_before
fetch_candles at failure reason_of decimal eligible supported client symbol timeframe
      provider_interval start end limit pool =
    or_fetch pool (interval_and_model supported symbol provider_interval) (λ interval model.
      fetched reason_of decimal eligible symbol timeframe start end model at failure client interval
        limit pool (last_open_before end model))
