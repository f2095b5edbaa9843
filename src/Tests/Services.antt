-- ===== src/Tests/Services.antt =====
-- Runs of the candle service as a whole and of the historical prices at concrete inputs.
use signapse_mdg.Symbols.{SupportedSymbol}
use signapse_mdg.Base.{
  ◌==◌, if◌then◌else◌, ℕ, ◌+◌, ◌*◌, ◌≤◌, ◌≡◌, ◌⊎◌, refl, Bool, true, false, Option, none, some,
  List, [], ◌∷◌, length, All, Above, contains, string_eq, Result, ok, err, arith,
}
use signapse_mdg.Time.{hour, day, minute}
use signapse_mdg.Sessions.{Calendars}
use signapse_mdg.Candles.{Candle, CandleRequest, CandleResult}
use signapse_mdg.Gateway.Keeps.{HasValidCache}
use signapse_mdg.CandleService.{open_times}
use signapse_mdg.CandleApi.{Settings, get_candles}
use signapse_mdg.CandleApi.Answer.{limit_of, get_candles_answer, get_candles_keeps_cache}
use signapse_mdg.HistoricalPrices.{
  HistoricalPriceRequest, HistoricalPriceResult, CandleOperations, priced_by, get_historical_price,
}
use signapse_mdg.HistoricalPrices.Service.{Searched, get_historical_price_lem}
use signapse_mdg.Tests.{
  friday, eur_usd, forming, one_symbol, one_candle, half_hour_later, empty_world, nothing-IsValid,
  one_result,
}

abbrev complete_hour : Candle
complete_hour = record forming { complete = true }

abbrev priced_result : CandleResult
priced_result = record one_result { candles = complete_hour ∷ [] }

abbrev one_answer : CandleOperations (Unit {0})
one_answer = record {
  resolve_symbol = λ name provider w. (ok eur_usd, w);
  get_candles = λ request symbol w. (
    ok (if request.timeframe == "1h" then priced_result else record priced_result { candles = [] }),
    w,
  );
}

abbrev an_hour_later : HistoricalPriceRequest
an_hour_later = record { symbol = "EURUSD"; at = friday + hour; provider = none }

abbrev the_price : HistoricalPriceResult
the_price = priced_by priced_result "1h" complete_hour

get_historical_price_lem_example :
    (friday + hour ≤ friday + day)
    × ((symbol : SupportedSymbol) × ((one_answer.resolve_symbol an_hour_later.symbol
            an_hour_later.provider empty_world).0
          ≡ ok symbol)
        × Searched one_answer an_hour_later symbol
            ("1m" ∷ "5m" ∷ "1h" ∷ "1d" ∷ [])
            (one_answer.resolve_symbol an_hour_later.symbol an_hour_later.provider empty_world).1
            the_price)
unfolding get_historical_price
get_historical_price_lem_example =
    get_historical_price_lem one_answer (friday + day) an_hour_later empty_world the_price refl

abbrev utc_calendars : Calendars
utc_calendars = record {
  new_york = λ t. t;
  calendar_exists = λ name. false;
  year_sessions = λ name year. [];
}

abbrev ten_candles : Settings
ten_candles = record { max_candles = 10; scan_budget = 20; ttl = minute }

get_candles_keeps_cache_example :
    HasValidCache
      (get_candles one_symbol one_candle utc_calendars ten_candles
        (friday + 30 * minute)
        half_hour_later.request
        (some eur_usd)
        empty_world).1
get_candles_keeps_cache_example =
    get_candles_keeps_cache one_symbol one_candle utc_calendars ten_candles (friday + 30 * minute)
      half_hour_later.request (some eur_usd) empty_world nothing-IsValid

get_candles_answer_example :
    Above 0 (open_times one_result.candles)
    × (length one_result.candles ≤ limit_of ten_candles none)
unfolding get_candles signapse_mdg.Schedule.expected_opens
    signapse_mdg.Schedule.Fixed.expected_opens signapse_mdg.Schedule.Fixed.first_open_at_or_after
    signapse_mdg.Time.add_time signapse_mdg.Schedule.Fixed.expected_loop
    signapse_mdg.Schedule.missing_sections signapse_mdg.Schedule.Sections.missing_sections
    signapse_mdg.CandleCache.get signapse_mdg.Schedule.Sections.sections_loop
    signapse_mdg.Schedule.end_after signapse_mdg.Schedule.Fixed.end_after
    signapse_mdg.Candles.Merge.sort_by_open_time signapse_mdg.Base.update
get_candles_answer_example =
    get_candles_answer one_symbol one_candle utc_calendars ten_candles (friday + 30 * minute)
      half_hour_later.request (some eur_usd) empty_world one_result refl
