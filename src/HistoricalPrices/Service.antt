-- ===== src/HistoricalPrices/Service.antt =====
-- What a historical price is the price of.
use signapse_mdg.Base.{
  ℕ, ◌≤◌, ◌<◌, ◌≡◌, ◌⊎◌, inl, inr, false, some, none, List, [], ◌∷◌, String, arith, ltb, ok,
  ok-injective, err_not_ok, Bool-cases, subst, All, All-mono,
}
use signapse_mdg.Symbols.{SupportedSymbol}
use signapse_mdg.Candles.{Candle, CandleResult, backward}
use signapse_mdg.Gateway.{World, Exec}
use signapse_mdg.Gateway.Keeps.{bind-eq-ok}
use signapse_mdg.HistoricalPrices.{
  HistoricalPriceRequest, HistoricalPriceResult, CandleOperations, historical_price_resolutions,
  eligible, try_resolutions, get_historical_price,
}
use signapse_mdg.HistoricalPrices.Latest.{IsLatest, latest_eligible_lem}

module _ {S : Type 0} (candles : CandleOperations S) (request : HistoricalPriceRequest)
    (symbol : SupportedSymbol) where
  -- The call of the candle service for a resolution: the two last candles up to the instant.
  abbrev pub asked_for : String → Exec S CandleResult
  asked_for resolution =
      candles.get_candles
        (record {
          symbol = request.symbol;
          timeframe = resolution;
          start = request.at;
          end = request.at;
          limit = some 2;
          count_direction = some backward;
          provider = request.provider;
          count = none;
        })
        (some symbol)

  -- The search through the resolutions, from a state of the candle service on: it passes over a resolution where
  -- every candle of the answer is forming or closes after the instant, and ends at the first one that is not passed
  -- over, with the close of the candle that opened last of those that are complete and closed at the instant.
  pub data Searched : List String → World S → HistoricalPriceResult → Type 0 where
    passed_over :
        {resolution : String} {more : List String} {w : World S} {answer : CandleResult}
        {r : HistoricalPriceResult}
        → (asked_for resolution w).0 ≡ ok answer
        → All (λ c. (c.complete ≡ false) ⊎ (request.at < c.close_time)) answer.candles
        → Searched more (asked_for resolution w).1 r
        → Searched (resolution ∷ more) w r
    found_at :
        {resolution : String} {more : List String} {w : World S} {answer : CandleResult}
        {candle : Candle}
        → (asked_for resolution w).0 ≡ ok answer
        → IsLatest request.at answer.candles candle
        → Searched (resolution ∷ more) w (record {
          symbol = answer.symbol;
          price = candle.close;
          priced_at = candle.open_time;
          price_display_decimals = answer.price_display_decimals;
          resolution = resolution;
        })

  not_eligible :
      (c : Candle)
      → eligible request.at c ≡ false
      → (c.complete ≡ false) ⊎ (request.at < c.close_time)
  not_eligible c h = ground (arith, h)

  try_resolutions-Searched :
      (resolutions : List String) (w : World S) (r : HistoricalPriceResult)
      → (try_resolutions candles request symbol resolutions w).0 ≡ ok r
      → Searched resolutions w r
  unfolding try_resolutions
  try_resolutions-Searched [] w r h = absurd (err_not_ok h)
  try_resolutions-Searched (resolution ∷ more) w r h =
      let (answer, e, h') = bind-eq-ok (asked_for resolution) _ w r h in
      elim (latest_eligible_lem request.at answer.candles) [
        | inl (c, found, latest) ↦
            let priced = rw found at h' in
            subst (Searched (resolution ∷ more) w) (ok-injective priced) (found_at e latest)
        | inr (missing, all) ↦
            passed_over e
              (All-mono (λ c. eligible request.at c ≡ false) _ answer.candles not_eligible all)
              (try_resolutions-Searched more _ r (rw missing at h'))
      ]

-- A historical price, if one is returned, is for an instant that is not in the future, and what a search from the
-- resolved symbol through 1m, 5m, 1h and 1d gives: the close of the last candle to open of those complete and closed
-- at the instant, in the answer of the candle service for the first resolution that has one.
pub get_historical_price_lem :
    {S : Type 0} (candles : CandleOperations S) (now : ℕ) (request : HistoricalPriceRequest)
    (w : World S) (r : HistoricalPriceResult)
    → (get_historical_price candles now request w).0 ≡ ok r
    → (request.at ≤ now)
      × ((symbol : SupportedSymbol) × ((candles.resolve_symbol request.symbol request.provider w).0
            ≡ ok symbol)
          × Searched candles request symbol
              ("1m" ∷ "5m" ∷ "1h" ∷ "1d" ∷ [])
              (candles.resolve_symbol request.symbol request.provider w).1
              r)
unfolding get_historical_price
get_historical_price_lem {S} candles now request w r h = elim (Bool-cases (ltb now request.at)) [
  | inl future ↦ absurd (err_not_ok (rw future at h))
  | inr past ↦
      let (symbol, resolved, h') =
        bind-eq-ok (candles.resolve_symbol request.symbol request.provider) _ w r (rw past at h) in
      (
        ground (arith, past),
        (
          symbol,
          resolved,
          try_resolutions-Searched candles request symbol historical_price_resolutions _ r h',
        ),
      )
]
