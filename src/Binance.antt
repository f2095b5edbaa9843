-- ===== src/Binance.antt =====
-- providers/binance_spot.py: what the adapter makes of the answers of Binance. The client is a parameter, with
-- the failure reason of what it raises; so is `datetime.fromtimestamp` of milliseconds divided by 1000.
pub mod Prices
pub mod Klines
use signapse_mdg.Base.{
  ℕ, zero, suc, suc, ◌-◌, ◌/◌, Bool, true, false, not, ◌&&◌, ◌||◌, Option, none, some, List, [],
  ◌∷◌, ◌++◌, String, string_eq, nat_eq, ◌==◌, contains, keep, length, ltb, leb, Dict, has_key,
  insert, remove, Error, provider_unavailable, Result, ok, err, ◌>>=◌, if◌then◌else◌,
}
use signapse_mdg.Time.{epoch}
use signapse_mdg.Time.Timeframe.{ℤ, pos, negsuc, Timeframe, get_timeframe, candle_close_time}
use signapse_mdg.Symbols.{SupportedSymbol}
use signapse_mdg.Candles.{Candle, Decimal}
use signapse_mdg.Quotes.{ProviderQuoteBatch}
use signapse_mdg.Database.{sorted_by, opens_before}
use signapse_mdg.Normalization.{RawValue, DecimalParser, parse_decimal, decimal_ltb}

pub record TickerPriceEntry : Type 0 where
  pub symbol : Option String
  pub price : RawValue

-- An answer of the client: a list, of which some items may not be what they should be, another payload, or a
-- failure with its reason.
pub data Answer (A : Type 0) : Type 0 where
  listed : List (Option A) → Answer A
  other_payload : Answer A
  failed : String → Answer A

pub record FoundPrices : Type 0 where
  pub prices : Dict String Decimal
  pub unavailable : List String

abbrev pub noted : String → Option Decimal → FoundPrices → FoundPrices
noted symbol none p = record p { unavailable = symbol ∷ p.unavailable }
noted symbol (some price) p = record p { prices = insert symbol price p.prices }

-- One round of the loop of `fetch_latest_prices`, for a symbol that was asked for; a symbol that comes twice is
-- not available.
abbrev pub note_price : String → Option Decimal → FoundPrices → FoundPrices
note_price symbol price p =
    if has_key symbol p.prices || contains p.unavailable symbol
    then record { prices = remove symbol p.prices; unavailable = symbol ∷ p.unavailable }
    else noted symbol price p

module _ (decimal : DecimalParser) (requested : List String) where
  abbrev pub note_symbol : Option String → RawValue → FoundPrices → FoundPrices
  note_symbol none price p = p
  note_symbol (some symbol) price p =
      if contains requested symbol
      then note_price symbol (parse_decimal decimal true false false price) p
      else p

  abbrev pub note_entry : Option TickerPriceEntry → FoundPrices → FoundPrices
  note_entry none p = p
  note_entry (some entry) p = note_symbol entry.symbol entry.price p

  abbrev pub note_entries : List (Option TickerPriceEntry) → FoundPrices → FoundPrices
  note_entries [] p = p
  note_entries (entry ∷ more) p = note_entries more (note_entry entry p)

-- `unavailable.update(requested - prices.keys())`
abbrev pub batch_of : List String → FoundPrices → ProviderQuoteBatch
batch_of requested p = record {
  prices = p.prices;
  unavailable_symbols = p.unavailable ++ keep (λ s. not (has_key s p.prices)) requested;
}

abbrev batch_answer :
    DecimalParser → List String → Answer TickerPriceEntry → Result ProviderQuoteBatch
batch_answer decimal requested (failed reason) = err (provider_unavailable reason)
batch_answer decimal requested other_payload = err (provider_unavailable "INVALID_PAYLOAD")
batch_answer decimal requested (listed items) = ok (
    batch_of requested
      (note_entries decimal requested items (record { prices = []; unavailable = [] })))

-- `BinanceSpotQuoteProvider.fetch_latest_prices`
unfoldable pub fetch_latest_prices :
    DecimalParser
    → (List String → Answer TickerPriceEntry)
    → List String
    → Result ProviderQuoteBatch
unfolding has_key insert remove parse_decimal
fetch_latest_prices decimal client [] = ok (record { prices = []; unavailable_symbols = [] })
fetch_latest_prices decimal client (s ∷ more) = batch_answer decimal (s ∷ more) (client (s ∷ more))

-- The first seven fields of a kline; a time is none where it is not an int from 0 on.
pub record Kline : Type 0 where
  pub open_ms : Option ℕ
  pub opening : RawValue
  pub high : RawValue
  pub low : RawValue
  pub close : RawValue
  pub volume : RawValue
  pub close_ms : Option ℕ

abbrev pub invalid : Error
invalid = provider_unavailable "REQUEST_FAILED"

-- A value that is there, or ProviderUnavailableError.
abbrev pub need : {A : Type 0} → Option A → Result A
need none = err invalid
need (some a) = ok a

abbrev pub check : Bool → Result (Unit {0})
check bad = if bad then err invalid else ok tt

abbrev pub max_decimal : Decimal → Decimal → Decimal
max_decimal a b = if decimal_ltb a b then b else a

abbrev pub min_decimal : Decimal → Decimal → Decimal
min_decimal a b = if decimal_ltb b a then b else a

pub record KlinePrices : Type 0 where
  pub opening : Decimal
  pub high : Decimal
  pub low : Decimal
  pub close : Decimal
  pub volume : Decimal

-- The open and the close time of an item, after the opens seen so far.
abbrev pub kline_times : (ℕ → Result ℕ) → ℕ → ℕ → Timeframe → List ℕ → Kline → Result (ℕ × ℕ)
kline_times from_ms start end model seen item = do
  open_ms ← need item.open_ms
  close_ms ← need item.close_ms
  open_time ← from_ms open_ms
  close_time ← from_ms close_ms
  expected_close ← candle_close_time open_time model
  placed ← check (
      ltb open_time start
      || (leb end open_time || (not (close_time == expected_close) || contains seen open_time)))
  ok (open_time, close_time)

abbrev pub kline_prices : DecimalParser → Kline → Result KlinePrices
kline_prices decimal item = do
  opening ← need (parse_decimal decimal true false false item.opening)
  high ← need (parse_decimal decimal true false false item.high)
  low ← need (parse_decimal decimal true false false item.low)
  close ← need (parse_decimal decimal true false false item.close)
  volume ← need (parse_decimal decimal false false false item.volume)
  priced ← check (
      decimal_ltb high (max_decimal opening close)
      || (decimal_ltb (min_decimal opening close) low || decimal_ltb high low))
  ok (record { opening = opening; high = high; low = low; close = close; volume = volume })

abbrev pub kline_candle : SupportedSymbol → String → ℕ × ℕ → KlinePrices → Candle
kline_candle symbol timeframe (open_time, close_time) prices = record {
  symbol = symbol.symbol;
  asset_class = symbol.asset_class;
  provider = symbol.provider;
  provider_symbol = symbol.provider_symbol;
  timeframe = timeframe;
  open_time = open_time;
  close_time = close_time;
  opening = prices.opening;
  high = prices.high;
  low = prices.low;
  close = prices.close;
  volume = prices.volume;
  complete = false;
}

module _ (decimal : DecimalParser) (from_ms : ℕ → Result ℕ) (symbol : SupportedSymbol)
    (timeframe : String) (start end : ℕ) (model : Timeframe) where
  -- The round of the loop of `_normalize_klines` for an item.
  abbrev pub normalize_kline : List ℕ → Kline → Result Candle
  normalize_kline seen item = do
    times ← kline_times from_ms start end model seen item
    prices ← kline_prices decimal item
    ok (kline_candle symbol timeframe times prices)

  abbrev pub normalize_items : List ℕ → List (Option Kline) → Result (List Candle)
  normalize_items seen [] = ok []
  normalize_items seen (item ∷ more) = do
    kline ← need item
    candle ← normalize_kline seen kline
    rest ← normalize_items (candle.open_time ∷ seen) more
    ok (candle ∷ rest)

-- `_KLINE_INTERVALS` has the values of the table of timeframes as its keys.
abbrev interval_of : String → Result Timeframe
interval_of provider_interval = elim (get_timeframe provider_interval) [
  | none ↦ err (provider_unavailable "PROVIDER_NOT_CONFIGURED")
  | some model ↦ ok model
]

-- `_normalize_klines` of a list
unfoldable pub normalize_klines :
    DecimalParser
    → (ℕ → Result ℕ)
    → SupportedSymbol
    → String
    → ℕ
    → ℕ
    → Timeframe
    → List (Option Kline)
    → Result (List Candle)
unfolding parse_decimal decimal_ltb candle_close_time
normalize_klines decimal from_ms symbol timeframe start end model items =
    normalize_items decimal from_ms symbol timeframe start end model [] items >>= λ candles.
    ok (sorted_by opens_before candles)

pub record KlineCall : Type 0 where
  pub symbol : String
  pub interval : String
  pub start_time : ℤ
  pub end_time : ℤ
  pub limit : ℕ

abbrev minus_one : ℤ → ℤ
minus_one (pos zero) = negsuc zero
minus_one (pos (suc n)) = pos n
minus_one (negsuc n) = negsuc (suc n)

abbrev candles_answer :
    DecimalParser
    → (ℕ → Result ℕ)
    → SupportedSymbol
    → String
    → ℕ
    → ℕ
    → Timeframe
    → Answer Kline
    → Result (List Candle)
candles_answer decimal from_ms symbol timeframe start end model (failed reason) =
    err (provider_unavailable reason)
candles_answer decimal from_ms symbol timeframe start end model other_payload = err invalid
candles_answer decimal from_ms symbol timeframe start end model (listed items) =
    normalize_klines decimal from_ms symbol timeframe start end model items

-- `BinanceSpotCandleProvider.fetch_candles`; `to_ms` is `_to_milliseconds`, the library's timestamp in
-- milliseconds.
unfoldable pub fetch_candles :
    DecimalParser
    → (ℕ → Result ℕ)
    → (ℕ → ℤ)
    → (KlineCall → Answer Kline)
    → SupportedSymbol
    → String
    → String
    → ℕ
    → ℕ
    → ℕ
    → Result (List Candle)
unfolding normalize_klines get_timeframe
fetch_candles decimal from_ms to_ms client symbol timeframe provider_interval start end limit = do
  model ← interval_of provider_interval
  candles_answer decimal from_ms symbol timeframe start end model (
      client (record {
        symbol = symbol.provider_symbol;
        interval = model.value;
        start_time = to_ms start;
        end_time = minus_one (to_ms end);
        limit = limit;
      }))
