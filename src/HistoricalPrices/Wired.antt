-- ===== src/HistoricalPrices/Wired.antt =====
-- The historical prices over the candle service itself.
use signapse_mdg.Base.{ℕ, Option, none, some, List, [], ◌∷◌, String}
use signapse_mdg.Symbols.{SupportedSymbol}
use signapse_mdg.Sessions.{Calendars}
use signapse_mdg.Candles.{Candle, CandleResult}
use signapse_mdg.Gateway.{Repository, CandleProvider, World, Exec}
use signapse_mdg.Gateway.Keeps.{
  Keeps, HasValidCache, keeps_rules, Keeps-raise, Keeps-pure, Keeps-bind,
}
use signapse_mdg.CandleService
use signapse_mdg.CandleApi.{Settings}
use signapse_mdg.CandleApi
use signapse_mdg.CandleApi.Answer.{get_candles-Keeps}
use signapse_mdg.HistoricalPrices.{
  CandleOperations, HistoricalPriceRequest, HistoricalPriceResult, latest_eligible, priced_or,
  request_for, try_resolutions, get_historical_price,
}

module _ {S : Type 0} (repo : Repository S) (provider : CandleProvider) (calendars : Calendars)
    (s : Settings) (now : ℕ) where
  unfoldable pub candle_operations : CandleOperations S
  candle_operations = record {
    resolve_symbol = CandleService.resolve_symbol repo provider;
    get_candles = CandleApi.get_candles repo provider calendars s now;
  }

  resolve_symbol-Keeps :
      (name : String) (provider_name : Option String)
      → Keeps
          (HasValidCache {S = S})
          (CandleService.resolve_symbol repo provider name provider_name)
  unfolding CandleService.resolve_symbol
  resolve_symbol-Keeps name provider_name = record { at = λ w h. h }

  priced_or-Keeps :
      (result : CandleResult) (resolution : String) (found : Option Candle)
      (rest : Exec S HistoricalPriceResult)
      → Keeps HasValidCache rest
      → Keeps HasValidCache (priced_or candle_operations result resolution found rest)
  priced_or-Keeps result resolution none rest k = k
  priced_or-Keeps result resolution (some candle) rest k = Keeps-pure _

  try_resolutions-Keeps :
      (request : HistoricalPriceRequest) (symbol : SupportedSymbol) (resolutions : List String)
      → Keeps HasValidCache (try_resolutions candle_operations request symbol resolutions)
  unfolding try_resolutions candle_operations
  try_resolutions-Keeps request symbol [] = Keeps-raise _
  try_resolutions-Keeps request symbol (resolution ∷ more) =
      let ih = try_resolutions-Keeps request symbol more in
      Keeps-bind
        (CandleApi.get_candles repo provider calendars s now (request_for request resolution)
          (some symbol))
        _
        (get_candles-Keeps repo provider calendars s now (request_for request resolution)
          (some symbol))
        (λ answer.
          priced_or-Keeps answer resolution (latest_eligible request.at answer.candles)
            (try_resolutions candle_operations request symbol more) ih)

  get_historical_price-Keeps :
      (request : HistoricalPriceRequest)
      → Keeps HasValidCache (get_historical_price candle_operations now request)
  unfolding get_historical_price candle_operations
  get_historical_price-Keeps request =
      search (keeps_rules, resolve_symbol-Keeps, try_resolutions-Keeps)

  -- A request for a historical price leaves the cache of candles valid, whether it is answered or raises.
  pub get_historical_price_keeps_cache :
      (request : HistoricalPriceRequest) (w : World S)
      → HasValidCache w
      → HasValidCache (get_historical_price candle_operations now request w).1
  get_historical_price_keeps_cache request = (get_historical_price-Keeps request).at
