-- ===== src/Tests/Adapters.antt =====
-- Runs of the routers and the adapter of Binance at concrete inputs.
use signapse_mdg.Base.{
  ℕ, ◌+◌, ◌*◌, ◌≡◌, inl, refl, false, none, some, List, [], ◌∷◌, String, string_eq, lookup, All,
  Result, ok,
}
use signapse_mdg.Time.{epoch, hour, day, millisecond}
use signapse_mdg.Time.Timeframe.{Timeframe, pos}
use signapse_mdg.Symbols.{SupportedSymbol}
use signapse_mdg.Candles.{Candle, Decimal}
use signapse_mdg.Quotes.{ProviderQuoteBatch}
use signapse_mdg.Routers.{SymbolQuoteProvider, or_empty, group_by_provider, fetch_latest_prices}
use signapse_mdg.Routers.Groups.{
  symbols_of, group_by_provider_lem, AllIn, fetch_latest_prices-Fails,
}
use signapse_mdg.Normalization.{raw_text, DecimalParser, finite}
use signapse_mdg.Database.Candles.{IsOrdered}
use signapse_mdg.Binance
use signapse_mdg.Binance.{TickerPriceEntry, Answer, listed, Kline, normalize_klines}
use signapse_mdg.Binance.Prices.{IsPartition, fetch_latest_prices_splits}
use signapse_mdg.Binance.Klines.{IsGood, normalize_klines_lem}
use signapse_mdg.Tests.{friday, eur_usd}

group_by_provider_lem_example :
    or_empty (lookup "TWELVE_DATA" (group_by_provider (eur_usd ∷ [])))
    ≡ symbols_of "TWELVE_DATA" (eur_usd ∷ [])
group_by_provider_lem_example = group_by_provider_lem "TWELVE_DATA" (eur_usd ∷ [])

abbrev bitcoin : SupportedSymbol
bitcoin = record eur_usd {
  symbol = "BTCUSD";
  provider = "BINANCE_SPOT";
  provider_symbol = "BTCUSDT";
}

abbrev one : Decimal
one = record { coefficient = pos 1; exponent = pos 0 }

abbrev euro_prices : SymbolQuoteProvider
euro_prices symbols = ok (record { prices = ("EUR/USD", one) ∷ []; unavailable_symbols = [] })

abbrev half_batch : ProviderQuoteBatch
half_batch = record { prices = ("EUR/USD", one) ∷ []; unavailable_symbols = "BTCUSDT" ∷ [] }

fetch_latest_prices-Fails_example :
    AllIn half_batch.unavailable_symbols (symbols_of "BINANCE_SPOT" (eur_usd ∷ bitcoin ∷ []))
unfolding fetch_latest_prices lookup
fetch_latest_prices-Fails_example =
    fetch_latest_prices-Fails (("TWELVE_DATA", euro_prices) ∷ []) (eur_usd ∷ bitcoin ∷ [])
      "BINANCE_SPOT" half_batch refl (inl refl)

abbrev always_one : DecimalParser
always_one text = some (finite one)

abbrev twice_listed : List String → Answer TickerPriceEntry
twice_listed symbols = listed (
    some (record { symbol = some "A"; price = raw_text "1" })
    ∷ some (record { symbol = some "B"; price = raw_text "1" })
    ∷ some (record { symbol = some "A"; price = raw_text "1" })
    ∷ none
    ∷ [])

abbrev only_b : ProviderQuoteBatch
only_b = record { prices = ("B", one) ∷ []; unavailable_symbols = "A" ∷ "A" ∷ [] }

fetch_latest_prices_splits_example : IsPartition ("A" ∷ "B" ∷ []) only_b
unfolding Binance.fetch_latest_prices
fetch_latest_prices_splits_example =
    fetch_latest_prices_splits always_one twice_listed ("A" ∷ "B" ∷ []) only_b refl

abbrev from_epoch : ℕ → Result ℕ
from_epoch ms = ok (epoch + ms * millisecond)

abbrev hourly_model : Timeframe
hourly_model = record {
  value = "1h";
  duration = hour;
  provider_interval = "1h";
  calendar_month = false;
}

abbrev one_kline : Kline
one_kline = record {
  open_ms = some (20000 * 86400000);
  opening = raw_text "1";
  high = raw_text "1";
  low = raw_text "1";
  close = raw_text "1";
  volume = raw_text "1";
  close_ms = some (20000 * 86400000 + 3599999);
}

abbrev one_hour : Candle
one_hour = record {
  symbol = "BTCUSD";
  asset_class = "forex";
  provider = "BINANCE_SPOT";
  provider_symbol = "BTCUSDT";
  timeframe = "1h";
  open_time = friday;
  close_time = epoch + (20000 * 86400000 + 3599999) * millisecond;
  opening = one;
  high = one;
  low = one;
  close = one;
  volume = one;
  complete = false;
}

normalize_klines_lem_example :
    All (IsGood bitcoin "1h" friday (friday + day) hourly_model) (one_hour ∷ [])
    × IsOrdered (one_hour ∷ [])
unfolding normalize_klines signapse_mdg.Time.add_time signapse_mdg.Time.sub_time
normalize_klines_lem_example =
    normalize_klines_lem always_one from_epoch bitcoin "1h" friday (friday + day) hourly_model
      (some one_kline ∷ []) (one_hour ∷ []) refl
