-- ===== src/Binance/Klines.antt =====
-- The candles that the klines of an answer become.
use signapse_mdg.Base.{
  ℕ, ◌≤◌, ◌<◌, ◌≡◌, refl, sym, subst, ap, ◌∙◌, Bool, true, false, not, ◌||◌, Option, List, [], ◌∷◌,
  String, nat_eq, nat_beq_iff, ◌==◌, arith, contains, All, ltb, leb, Result, ok, >>=-eq-ok,
  ok-injective, err_not_ok,
}
use signapse_mdg.Time.Timeframe.{Timeframe, candle_close_time}
use signapse_mdg.Symbols.{SupportedSymbol}
use signapse_mdg.Candles.{Candle}
use signapse_mdg.Normalization.{DecimalParser, parse_decimal, decimal_ltb}
use signapse_mdg.Database.{opens_before}
use signapse_mdg.Database.Ordering.{All-sorted_by}
use signapse_mdg.Database.Candles.{IsOrdered, sorted_by-IsOrdered}
use signapse_mdg.Binance.{
  Kline, need, check, max_decimal, min_decimal, KlinePrices, kline_times, kline_prices,
  normalize_kline, normalize_items, normalize_klines,
}

-- The candle is the symbol's, opens in the range, closes where its timeframe says, is not complete, and its
-- prices are in order.
pub record IsGood (symbol : SupportedSymbol) (timeframe : String) (start end : ℕ)
    (model : Timeframe) (c : Candle) : Type 0 where
  pub provider : c.provider ≡ symbol.provider
  pub provider_symbol : c.provider_symbol ≡ symbol.provider_symbol
  pub named : c.timeframe ≡ timeframe
  pub opens_from : start ≤ c.open_time
  pub opens_before_end : c.open_time < end
  pub closes : candle_close_time c.open_time model ≡ ok c.close_time
  pub incomplete : c.complete ≡ false
  pub high_enough : decimal_ltb c.high (max_decimal c.opening c.close) ≡ false
  pub low_enough : decimal_ltb (min_decimal c.opening c.close) c.low ≡ false

or_false : (a b : Bool) → (a || b) ≡ false → a ≡ false
or_false a b h = ground (arith, h)

or_rest : (a b : Bool) → (a || b) ≡ false → b ≡ false
or_rest a b h = ground (arith, h)

check-eq-ok : (bad : Bool) (done : Unit {0}) → check bad ≡ ok done → bad ≡ false
check-eq-ok true done h = absurd (err_not_ok h)
check-eq-ok false done h = refl

abbrev Timely : ℕ → ℕ → Timeframe → List ℕ → ℕ × ℕ → Type 0
Timely start end model seen (open_time, close_time) =
    (start ≤ open_time)
    × (open_time < end)
    × (candle_close_time open_time model ≡ ok close_time)
    × (contains seen open_time ≡ false)

kline_times_lem :
    (from_ms : ℕ → Result ℕ) (start end : ℕ) (model : Timeframe) (seen : List ℕ) (item : Kline)
    (times : ℕ × ℕ)
    → kline_times from_ms start end model seen item ≡ ok times
    → Timely start end model seen times
kline_times_lem from_ms start end model seen item times h =
    let (open_ms, e1, h1) = >>=-eq-ok (need item.open_ms) _ h in
    let (close_ms, e2, h2) = >>=-eq-ok (need item.close_ms) _ h1 in
    let (open_time, e3, h3) = >>=-eq-ok (from_ms open_ms) _ h2 in
    let (close_time, e4, h4) = >>=-eq-ok (from_ms close_ms) _ h3 in
    let (expected_close, e5, h5) = >>=-eq-ok (candle_close_time open_time model) _ h4 in
    let (placed, e6, h6) =
      >>=-eq-ok
        (check (
          ltb open_time start
          || (leb end open_time
              || (not (close_time == expected_close) || contains seen open_time))))
        _ h5 in
    let fine = check-eq-ok _ placed e6 in
    let same : close_time ≡ expected_close =
      (nat_beq_iff close_time expected_close).0 (ground (arith, fine)) in
    subst (Timely start end model seen) (ok-injective h6)
      (ground (arith, fine), ground (arith, fine), e5 ∙ ap ok (sym same), ground (arith, fine))

abbrev InOrder : KlinePrices → Type 0
InOrder p =
    (decimal_ltb p.high (max_decimal p.opening p.close) ≡ false)
    × (decimal_ltb (min_decimal p.opening p.close) p.low ≡ false)

kline_prices_lem :
    (decimal : DecimalParser) (item : Kline) (prices : KlinePrices)
    → kline_prices decimal item ≡ ok prices
    → InOrder prices
kline_prices_lem decimal item prices h =
    let (opening, e7, h7) =
      >>=-eq-ok (need (parse_decimal decimal true false false item.opening)) _ h in
    let (high, e8, h8) = >>=-eq-ok (need (parse_decimal decimal true false false item.high)) _ h7 in
    let (low, e9, h9) = >>=-eq-ok (need (parse_decimal decimal true false false item.low)) _ h8 in
    let (close, e10, h10) =
      >>=-eq-ok (need (parse_decimal decimal true false false item.close)) _ h9 in
    let (volume, e11, h11) =
      >>=-eq-ok (need (parse_decimal decimal false false false item.volume)) _ h10 in
    let (priced, e12, h12) =
      >>=-eq-ok
        (check (
          decimal_ltb high (max_decimal opening close)
          || (decimal_ltb (min_decimal opening close) low || decimal_ltb high low)))
        _ h11 in
    let fine = check-eq-ok _ priced e12 in
    subst InOrder (ok-injective h12) (or_false _ _ fine, or_false _ _ (or_rest _ _ fine))

module _ (decimal : DecimalParser) (from_ms : ℕ → Result ℕ) (symbol : SupportedSymbol)
    (timeframe : String) (start end : ℕ) (model : Timeframe) where
  abbrev Good : Candle → Type 0
  Good c = IsGood symbol timeframe start end model c

  normalize_kline_lem :
      (seen : List ℕ) (item : Kline) (c : Candle)
      → normalize_kline decimal from_ms symbol timeframe start end model seen item ≡ ok c
      → Good c
  normalize_kline_lem seen item c h =
      let (times, at, h1) = >>=-eq-ok (kline_times from_ms start end model seen item) _ h in
      let (prices, of_item, h2) = >>=-eq-ok (kline_prices decimal item) _ h1 in
      let timely = kline_times_lem from_ms start end model seen item times at in
      let ordered = kline_prices_lem decimal item prices of_item in
      subst Good (ok-injective h2) (record {
        provider = refl;
        provider_symbol = refl;
        named = refl;
        opens_from = timely.0;
        opens_before_end = timely.1;
        closes = timely.2;
        incomplete = refl;
        high_enough = ordered.0;
        low_enough = ordered.1;
      })

  normalize_items_lem :
      (seen : List ℕ) (items : List (Option Kline)) (candles : List Candle)
      → normalize_items decimal from_ms symbol timeframe start end model seen items ≡ ok candles
      → All Good candles
  normalize_items_lem seen [] candles h = subst (All Good) (ok-injective h) tt
  normalize_items_lem seen (item ∷ more) candles h =
      let (kline, is_kline, h1) = >>=-eq-ok (need item) _ h in
      let (c, good, h2) =
        >>=-eq-ok (normalize_kline decimal from_ms symbol timeframe start end model seen kline) _
          h1 in
      let (rest, others, h3) =
        >>=-eq-ok
          (normalize_items decimal from_ms symbol timeframe start end model (c.open_time ∷ seen)
            more)
          _ h2 in
      subst (All Good) (ok-injective h3) (
        normalize_kline_lem seen kline c good,
        normalize_items_lem (c.open_time ∷ seen) more rest others,
      )

-- Klines that are accepted become candles of the symbol in the order of their opens, each of which opens in the
-- range asked for, closes where its timeframe says, is not marked complete, has no high below its open or its
-- close, and no low above one of them.
pub normalize_klines_lem :
    (decimal : DecimalParser) (from_ms : ℕ → Result ℕ) (symbol : SupportedSymbol)
    (timeframe : String) (start end : ℕ) (model : Timeframe) (items : List (Option Kline))
    (candles : List Candle)
    → normalize_klines decimal from_ms symbol timeframe start end model items ≡ ok candles
    → All (IsGood symbol timeframe start end model) candles × IsOrdered candles
unfolding normalize_klines
normalize_klines_lem decimal from_ms symbol timeframe start end model items candles h =
    let (found, at, h') =
      >>=-eq-ok (normalize_items decimal from_ms symbol timeframe start end model [] items) _ h in
    let good =
      normalize_items_lem decimal from_ms symbol timeframe start end model [] items found at in
    subst (λ l. All (IsGood symbol timeframe start end model) l × IsOrdered l) (ok-injective h')
      (All-sorted_by opens_before _ found good, sorted_by-IsOrdered found)
