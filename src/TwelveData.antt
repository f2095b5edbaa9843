-- ===== src/TwelveData.antt =====
-- providers/twelvedata_market_data.py, with the pool of keys that the factory gives it: the retry with another
-- key, and what becomes of the answers. The client is a parameter, as an operation of the key.
pub mod Series
pub mod Retries
pub mod Client
pub mod Build
use signapse_mdg.Base.{
  ℕ, Bool, true, false, not, ◌&&◌, ◌||◌, Option, none, some, List, [], ◌∷◌, ◌++◌, String, string_eq,
  nat_eq, ◌==◌, contains, keep, ltb, leb, Dict, has_key, insert, lookup, Error,
  provider_unavailable, Result, ok, err, ◌>>=◌, if◌then◌else◌,
}
use signapse_mdg.Time.Timeframe.{pos, Timeframe, candle_close_time, get_timeframe, last_open_before}
use signapse_mdg.Symbols.{SupportedSymbol}
use signapse_mdg.Candles.{Candle, Decimal}
use signapse_mdg.Quotes.{ProviderQuoteBatch}
use signapse_mdg.Database.{sorted_by, opens_before}
use signapse_mdg.Normalization.{RawValue, DecimalParser, parse_decimal, decimal_ltb}
use signapse_mdg.Binance.{need, check, max_decimal, min_decimal, invalid}
use signapse_mdg.Keys.{Pool, next_key, cool_down}

-- What an operation of the client does: it answers, the key is refused, or it raises something else.
pub data Attempt (A : Type 0) : Type 0 where
  answered : A → Attempt A
  refused : Attempt A
  raised : Error → Attempt A

-- The clock's readings: at the choice of the first key, when it cools down, at the choice of the other one, and
-- when that cools down.
pub record RetryReadings : Type 0 where
  pub first : ℕ
  pub first_refused : ℕ
  pub second : ℕ
  pub second_refused : ℕ

-- How a retry ends: its result, the pool then, and the keys that were tried.
pub record Retried (A : Type 0) : Type 0 where
  pub result : Result A
  pub pool : Pool
  pub tried : List String

module _ {A : Type 0} (at : RetryReadings) (failure : Error) (operation : String → Attempt A) where
  abbrev pub after_second : String → String → Pool → Attempt A → Retried A
  after_second key alternate pool (answered a) = record {
    result = ok a;
    pool = pool;
    tried = key ∷ alternate ∷ [];
  }
  after_second key alternate pool refused = record {
    result = err failure;
    pool = cool_down at.second_refused alternate pool;
    tried = key ∷ alternate ∷ [];
  }
  after_second key alternate pool (raised e) = record {
    result = err e;
    pool = pool;
    tried = key ∷ alternate ∷ [];
  }

  abbrev pub second_try : String → Result String × Pool → Retried A
  second_try key (ok alternate, pool) = after_second key alternate pool (operation alternate)
  second_try key (err e, pool) = record { result = err e; pool = pool; tried = key ∷ [] }

  abbrev pub after_first : String → Pool → Attempt A → Retried A
  after_first key pool (answered a) = record { result = ok a; pool = pool; tried = key ∷ [] }
  after_first key pool refused =
      second_try key (next_key at.second (some key) (cool_down at.first_refused key pool))
  after_first key pool (raised e) = record { result = err e; pool = pool; tried = key ∷ [] }

  abbrev pub first_try : Result String × Pool → Retried A
  first_try (ok key, pool) = after_first key pool (operation key)
  first_try (err e, pool) = record { result = err e; pool = pool; tried = [] }

  -- `_with_key_retry`; `failure` is the TwelveDataError that it raises in the end.
  unfoldable pub with_key_retry : Pool → Retried A
  unfolding next_key cool_down
  with_key_retry pool = first_try (next_key at.first none pool)

-- A price that a client answers: none where the payload is no dict or says that it is an error.
abbrev normalize_price : DecimalParser → Option RawValue → Option Decimal
normalize_price decimal none = none
normalize_price decimal (some value) = parse_decimal decimal true false false value

abbrev note_price : String → Option Decimal → Dict String Decimal → Dict String Decimal
note_price symbol none prices = prices
note_price symbol (some price) prices = insert symbol price prices

abbrev with_price :
    DecimalParser
    → String
    → Attempt (Option RawValue)
    → Dict String Decimal
    → (Dict String Decimal → Attempt (Dict String Decimal))
    → Attempt (Dict String Decimal)
with_price decimal symbol (answered payload) prices rest =
    rest (note_price symbol (normalize_price decimal payload) prices)
with_price decimal symbol refused prices rest = refused
with_price decimal symbol (raised e) prices rest = raised e

-- The `operation` of `_fetch_latest_prices_sync`, for one key.
unfoldable pub price_loop :
    DecimalParser
    → (String → Attempt (Option RawValue))
    → List String
    → Dict String Decimal
    → Attempt (Dict String Decimal)
unfolding insert parse_decimal
price_loop decimal price [] prices = answered prices
price_loop decimal price (symbol ∷ more) prices =
    with_price decimal symbol (price symbol) prices (price_loop decimal price more)

-- `requested - prices.keys()`, of what a retry ends with; what it raises becomes ProviderUnavailableError, with
-- the reason that `failure_metadata` gives.
abbrev batch_of :
    (Error → String) → List String → Result (Dict String Decimal) → Result ProviderQuoteBatch
batch_of reason_of requested (ok prices) =
    ok (record {
      prices = prices;
      unavailable_symbols = keep (λ s. not (has_key s prices)) requested;
    })
batch_of reason_of requested (err e) = err (provider_unavailable (reason_of e))

-- `TwelveDataMarketDataProvider.fetch_latest_prices`, for distinct symbols in order; `client` is asked with a key.
unfoldable pub fetch_latest_prices :
    RetryReadings
    → Error
    → (Error → String)
    → DecimalParser
    → List String
    → (String → String → Attempt (Option RawValue))
    → List String
    → Pool
    → Result ProviderQuoteBatch × Pool
unfolding with_key_retry price_loop has_key
fetch_latest_prices at failure reason_of decimal supported client [] pool =
    (ok (record { prices = []; unavailable_symbols = [] }), pool)
fetch_latest_prices at failure reason_of decimal supported client (s ∷ more) pool =
    let r =
      with_key_retry at failure
        (λ key. price_loop decimal (client key) (keep (contains supported) (s ∷ more)) []) pool in
    (batch_of reason_of (s ∷ more) r.result, r.pool)
