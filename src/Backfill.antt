-- ===== src/Backfill.antt =====
-- backfill_candles.py: which candles a backfill asks the candle service for, and how it ends. The command
-- line, the printed lines and the log are left out, but for the outcome that a line is printed about. A
-- `frozenset` of names is the list of its members, in their order.
pub mod Chunks
pub mod Job
use signapse_mdg.Base.{
  ℕ, zero, suc, ◌+◌, ◌-◌, ◌*◌, min, Bool, true, false, not, Option, none, some, List, [], ◌∷◌, ◌++◌,
  map, String, string_eq, ◌==◌, contains, keep, ltb, length, Dict, lookup, update, has_key, Error,
  value_error, key_error, out_of_fuel, Result, ok, err, ◌>>=◌, if◌then◌else◌,
}
use signapse_mdg.Symbols.{SupportedSymbol}
use signapse_mdg.Candles.{CandleRequest, CandleResult}
use signapse_mdg.Time.{add_time}
use signapse_mdg.Time.Timeframe.{ℤ, pos, Timeframe, timeframes, get_timeframe, add_month}

pub record BackfillOptions : Type 0 where
  pub start : ℕ
  pub end : ℕ
  pub timeframes : List String
  pub symbols : Option (List String)
  pub providers : Option (List String)
  pub asset_classes : Option (List String)

pub record BackfillChunk : Type 0 where
  pub symbol : SupportedSymbol
  pub timeframe : String
  pub start : ℕ
  pub end : ℕ

abbrev by_name : List SupportedSymbol → Dict String SupportedSymbol
by_name enabled = update [] (map (λ s. (s.symbol, s)) enabled)

-- The rows by their names; a name that is missing raises ValueError.
abbrev pub named : Dict String SupportedSymbol → List String → Result (List SupportedSymbol)
named table [] = ok []
named table (name ∷ more) = elim (lookup name table) [
  | none ↦ err value_error
  | some s ↦ named table more >>= λ rest. ok (s ∷ rest)
]

abbrev rows_of : Option (List String) → List SupportedSymbol → Result (List SupportedSymbol)
rows_of none enabled = ok enabled
rows_of (some names) enabled = named (by_name enabled) names

-- A filter that is not given lets all through.
abbrev pub passes : Option (List String) → String → Bool
passes none value = true
passes (some values) value = contains values value

unfoldable pub select_symbols :
    List SupportedSymbol → BackfillOptions → Result (List SupportedSymbol)
unfolding lookup update
select_symbols enabled options = do
  rows ← rows_of options.symbols enabled
  ok (
      keep (λ s. passes options.asset_classes s.asset_class)
        (keep (λ s. passes options.providers s.provider) rows))

-- The end of the chunk that begins at the cursor, before it is cut off.
abbrev pub advance : Timeframe → ℕ → ℕ → Result ℕ
advance timeframe max_candles cursor =
    if timeframe.calendar_month
    then add_month cursor (pos max_candles)
    else add_time cursor (timeframe.duration * max_candles)

-- The loop of `iter_chunks`.
unfoldable pub chunk_loop :
    ℕ → SupportedSymbol → Timeframe → String → ℕ → ℕ → ℕ → Result (List BackfillChunk)
chunk_loop zero symbol model timeframe cursor end max_candles = err out_of_fuel
chunk_loop (suc fuel) symbol model timeframe cursor end max_candles =
    let rest = (do
      reached ← advance model max_candles cursor
      chunks ← chunk_loop fuel symbol model timeframe (min reached end) end max_candles
      ok (
          record { symbol = symbol; timeframe = timeframe; start = cursor; end = min reached end }
          ∷ chunks)) in
    if ltb cursor end then rest else ok []

abbrev iter_known :
    Option Timeframe → SupportedSymbol → String → ℕ → ℕ → ℕ → Result (List BackfillChunk)
iter_known none symbol timeframe start end max_candles = err key_error
iter_known (some model) symbol timeframe start end max_candles =
    chunk_loop (suc (end - start)) symbol model timeframe start end max_candles

unfoldable pub iter_chunks : SupportedSymbol → String → ℕ → ℕ → ℕ → Result (List BackfillChunk)
unfolding chunk_loop get_timeframe
iter_chunks symbol timeframe start end max_candles =
    iter_known (get_timeframe timeframe) symbol timeframe start end max_candles

-- `BackfillService.get_candles`, over the state `W` of the service.
abbrev pub BackfillService : Type 0 → Type 0
BackfillService W = W → CandleRequest → Result CandleResult × W

-- How far a backfill has come: a chunk's outcome is its number of candles, or what was raised.
pub record Progress (W : Type 0) : Type 0 where
  pub failed : Bool
  pub outcomes : List (BackfillChunk × Result ℕ)
  pub world : W

abbrev request_of : BackfillChunk → CandleRequest
request_of chunk = record {
  symbol = chunk.symbol.symbol;
  timeframe = chunk.timeframe;
  start = chunk.start;
  end = chunk.end;
  limit = none;
  count_direction = none;
  provider = none;
  count = none;
}

abbrev noted : {W : Type 0} → BackfillChunk → Result CandleResult × W → Progress W → Progress W
noted chunk (ok result, w) p = record p {
  outcomes = p.outcomes ++ (chunk, ok (length result.candles)) ∷ [];
  world = w;
}
noted chunk (err e, w) p = record p {
  failed = true;
  outcomes = p.outcomes ++ (chunk, err e) ∷ [];
  world = w;
}

abbrev after :
    {W : Type 0}
    → Result (Unit {0}) × Progress W
    → (Progress W → Result (Unit {0}) × Progress W)
    → Result (Unit {0}) × Progress W
after (ok done, p) rest = rest p
after (err e, p) rest = (err e, p)

abbrev finish : {W : Type 0} → Result (Unit {0}) × Progress W → Result ℕ × Progress W
finish (ok done, p) = (ok (if p.failed then 1 else 0), p)
finish (err e, p) = (err e, p)

module _ {W : Type 0} (service : BackfillService W) where
  -- The body of the loop over the chunks.
  unfoldable pub run_chunk : BackfillChunk → Progress W → Progress W
  run_chunk chunk p = noted chunk (service p.world (request_of chunk)) p

  abbrev pub run_chunks : List BackfillChunk → Progress W → Progress W
  run_chunks [] p = p
  run_chunks (chunk ∷ more) p = run_chunks more (run_chunk chunk p)

  abbrev run_timeframe : Result (List BackfillChunk) → Progress W → Result (Unit {0}) × Progress W
  run_timeframe (ok chunks) p = (ok tt, run_chunks chunks p)
  run_timeframe (err e) p = (err e, p)

  abbrev run_timeframes :
      BackfillOptions
      → ℕ
      → SupportedSymbol
      → List String
      → Progress W
      → Result (Unit {0}) × Progress W
  run_timeframes options max_candles symbol [] p = (ok tt, p)
  run_timeframes options max_candles symbol (timeframe ∷ more) p =
      after (run_timeframe (iter_chunks symbol timeframe options.start options.end max_candles) p)
        (run_timeframes options max_candles symbol more)

  abbrev run_symbols :
      BackfillOptions → ℕ → List SupportedSymbol → Progress W → Result (Unit {0}) × Progress W
  run_symbols options max_candles [] p = (ok tt, p)
  run_symbols options max_candles (symbol ∷ more) p =
      after (run_timeframes options max_candles symbol options.timeframes p)
        (run_symbols options max_candles more)

  unfoldable pub process_backfill :
      BackfillOptions → List SupportedSymbol → ℕ → W → Result ℕ × Progress W
  unfolding run_chunk iter_chunks
  process_backfill options symbols max_candles w = finish (
      run_symbols options max_candles symbols (record { failed = false; outcomes = []; world = w }))
