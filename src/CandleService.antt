-- ===== src/CandleService.antt =====
-- `CandleService` of services/candles.py. The clock's reading `now` is an argument; a call runs from
-- start to end, as `single_flight` has it for one key.
pub mod Keeps
pub mod Answer
pub mod Merged
pub mod Fetches
use signapse_mdg.Base.{
  ℕ, ◌+◌, Bool, true, false, not, ◌&&◌, ◌||◌, Option, none, some, List, [], ◌∷◌, ◌++◌, map, String,
  Result, ok, err, candle_request, database_unavailable, provider_selection, Error, Dict, lookup,
  insert, update, has_key, set_default, values, contains, nat_eq, ◌==◌, keep, last, length, leb,
  ltb, if◌then◌else◌, string_eq,
}
use signapse_mdg.Base
use signapse_mdg.Symbols.{SupportedSymbol}
use signapse_mdg.Symbols
use signapse_mdg.Selection.{resolve_provider_selection}
use signapse_mdg.Sessions.{Calendars, get_market_session_policy, is_eligible}
use signapse_mdg.Time.Timeframe.{Timeframe, get_timeframe}
use signapse_mdg.Schedule.{
  CandleSchedule, get_candle_schedule, expected_opens, latest_opens, next_opens, end_after,
  missing_sections,
}
use signapse_mdg.Schedule.Fixed.{Policy}
use signapse_mdg.Schedule.Sections.{ProviderFetchSection}
use signapse_mdg.Candles.{Candle, CandleRequest, CandleResult, CountDirection, forward, backward}
use signapse_mdg.Candles.Merge.{ByOpen, entries, by_open_time, sort_by_open_time}
use signapse_mdg.Gateway.{
  Repository, CandleProvider, FetchCall, World, Exec, pure, raise, lift, ◌>>=◌, ◌>>◌, list_complete,
  upsert_complete, fetch_candles, cache_get, cache_put,
}

abbrev pub open_times : List Candle → List ℕ
open_times = map (λ candle. candle.open_time)

-- `_find_gaps`
unfoldable pub find_gaps :
    List Candle → List ℕ → CandleSchedule → List ℕ → Result (List ProviderFetchSection)
find_gaps persisted expected schedule available_opens =
    let available =
      open_times (keep (λ c. c.complete && contains expected c.open_time) persisted) in
    missing_sections schedule expected (available ++ keep (contains expected) available_opens)

-- The expected opens of a request, and the range of its result.
pub record Plan : Type 0 where
  pub expected : List ℕ
  pub result_start : ℕ
  pub result_end : ℕ

abbrev head_or : List ℕ → ℕ → ℕ
head_or [] otherwise = otherwise
head_or (x ∷ xs) otherwise = x

abbrev end_or : CandleSchedule → Option ℕ → ℕ → Result ℕ
end_or schedule none otherwise = ok otherwise
end_or schedule (some open_time) otherwise = end_after schedule open_time

abbrev pub is_forward : Option CountDirection → Bool
is_forward (some forward) = true
is_forward (some backward) = false
is_forward none = false

unfoldable pub plan_limited : CandleRequest → CandleSchedule → Policy → ℕ → Result Plan
plan_limited request schedule policy limit =
    if is_forward request.count_direction
    then Base.◌>>=◌ (next_opens schedule request.start limit policy request.timeframe) (λ opens.
      Base.◌>>=◌ (end_or schedule (last opens) request.end) (λ end. ok (record {
        expected = opens;
        result_start = head_or opens request.start;
        result_end = end;
      })))
    else Base.◌>>=◌ (latest_opens schedule request.end limit policy request.timeframe) (λ opens.
      ok (record {
        expected = opens;
        result_start = head_or opens request.end;
        result_end = request.end;
      }))

abbrev plan_by : CandleRequest → CandleSchedule → Policy → Option ℕ → Result Plan
plan_by request schedule policy none =
    Base.◌>>=◌ (expected_opens schedule request.start request.end policy request.timeframe)
      (λ opens.
        ok (record { expected = opens; result_start = request.start; result_end = request.end }))
plan_by request schedule policy (some limit) = plan_limited request schedule policy limit

unfoldable pub plan : CandleRequest → CandleSchedule → Policy → Result Plan
unfolding plan_limited
plan request schedule policy = plan_by request schedule policy request.limit

-- What the parts of one request share.
pub record Context : Type 0 where
  pub request : CandleRequest
  pub symbol : SupportedSymbol
  pub timeframe : Timeframe
  pub policy : Policy
  pub schedule : CandleSchedule
  pub now : ℕ

abbrev pub eligible : Context → Candle → Bool
eligible c candle = c.policy candle.open_time c.request.timeframe

-- `replace(candle, complete=candle.close_time <= now)`
abbrev pub closed : ℕ → Candle → Candle
closed now candle = record candle { complete = leb candle.close_time now }

-- `fetch_normalized` after the provider has answered: the eligible candles, each closed by now or not.
unfoldable pub normalize : Context → List Candle → List Candle
normalize c fetched = map (closed c.now) (keep (eligible c) fetched)

abbrev current_open : Context → List ℕ → Option Candle → List ℕ
current_open c expected none = []
current_open c expected (some current) =
    if contains expected current.open_time && eligible c current then current.open_time ∷ [] else []

abbrev in_range : Context → ℕ → ℕ → Candle → Bool
in_range c start end current =
    (leb start current.open_time && ltb current.open_time end) && eligible c current

abbrev pub add_current : (Candle → Bool) → Option Candle → ByOpen → ByOpen
add_current test none merged = merged
add_current test (some current) merged =
    if test current then set_default current.open_time current merged else merged

-- Fetched candles, under persisted ones, under the current one where there is neither.
unfoldable pub merge : List Candle → List Candle → (Candle → Bool) → Option Candle → ByOpen
merge normalized persisted test current =
    add_current test current (update (by_open_time normalized) (entries persisted))

module _ {S : Type 0} (repo : Repository S) (provider : CandleProvider) where
  unfoldable pub fetch_sections : Context → List ProviderFetchSection → Exec S (List Candle)
  unfolding fetch_candles
  fetch_sections c [] = pure []
  fetch_sections c (section ∷ more) = do
    candles ← fetch_candles provider (record {
      symbol = c.symbol;
      timeframe = c.request.timeframe;
      provider_interval = c.timeframe.provider_interval;
      start = section.start;
      end = section.end;
      limit = section.expected_count + 1;
    })
    rest ← fetch_sections c more
    pure (candles ++ rest)

  unfoldable pub put_forming : ℕ → List Candle → Exec S (Unit {0})
  unfolding cache_put
  put_forming now [] = pure tt
  put_forming now (candle ∷ more) = do
    (if candle.complete then pure tt else cache_put candle now)
    put_forming now more

  unfoldable pub store_normalized : ℕ → List Candle → Exec S (Unit {0})
  unfolding upsert_complete put_forming
  store_normalized now candles = do
    upsert_complete repo (keep (λ candle. candle.complete) candles)
    put_forming now candles

  -- The persisted candles of a range that are eligible.
  unfoldable pub read_persisted : Context → ℕ → ℕ → Exec S (List Candle)
  unfolding list_complete
  read_persisted c start end = do
    rows ← list_complete repo c.symbol c.request.timeframe start end
    pure (keep (eligible c) rows)

  -- Fetches what is missing of the expected opens, and stores it.
  unfoldable pub fill : Context → List ℕ → List Candle → Option Candle → Exec S (List Candle)
  unfolding find_gaps fetch_sections normalize store_normalized
  fill c expected persisted current = do
    gaps ← lift (find_gaps persisted expected c.schedule (current_open c expected current))
    fetched ← fetch_sections c gaps
    store_normalized c.now (normalize c fetched)
    pure (normalize c fetched)

  -- What is looked up for the open before the expected ones, when a request for the latest candle
  -- found none at its open: the merged candles, and the opens that the response shows.
  unfoldable pub fall_back :
      Context → ℕ → Option Candle → ByOpen → List ℕ → Exec S (ByOpen × List ℕ)
  unfolding read_persisted fill merge
  fall_back c fallback_open current merged response_opens = do
    fallback_end ← lift (end_after c.schedule fallback_open)
    persisted ← read_persisted c fallback_open fallback_end
    normalized ← fill c (fallback_open ∷ []) persisted current
    let at_open = λ (x : Candle). x.open_time == fallback_open && eligible c x
    let all = update merged (merge normalized persisted at_open current)
    pure (all, if has_key fallback_open all then fallback_open ∷ [] else response_opens)

  abbrev fall_back_to :
      Context → Option ℕ → Option Candle → ByOpen → List ℕ → Exec S (ByOpen × List ℕ)
  fall_back_to c none current merged response_opens = pure (merged, response_opens)
  fall_back_to c (some fallback_open) current merged response_opens =
      fall_back c fallback_open current merged response_opens

  abbrev is_one : Option ℕ → Bool
  is_one none = false
  is_one (some limit) = limit == 1

  -- The open that is expected last, if no candle was found at it.
  abbrev missing_last : Option ℕ → ByOpen → Bool
  missing_last none merged = false
  missing_last (some open_time) merged = not (has_key open_time merged)

  abbrev latest_or : Context → Plan → Option Candle → ByOpen → Exec S (ByOpen × List ℕ)
  latest_or c p current merged = do
    opens ← lift (latest_opens c.schedule (head_or p.expected 0) 1 c.policy c.request.timeframe)
    fall_back_to c (last opens) current merged p.expected

  unfoldable pub respond : Context → Plan → Option Candle → ByOpen → Exec S (ByOpen × List ℕ)
  respond c p current merged =
      if is_one c.request.limit
        && (not (is_forward c.request.count_direction) && missing_last (last p.expected) merged)
      then latest_or c p current merged
      else pure (merged, p.expected)

  abbrev shown : List ℕ → ByOpen → List Candle
  shown response_opens merged =
      sort_by_open_time (values (keep (λ entry. contains response_opens entry.0) merged))

  -- `_get_candles` from the expected opens on. `max_candles` and `ttl` are settings.
  unfoldable pub get_planned : ℕ → ℕ → Context → Plan → Exec S CandleResult
  unfolding read_persisted fill merge respond cache_get
  get_planned max_candles ttl c p = do
    (if ltb max_candles (length p.expected)
        then raise (candle_request "INVALID_TIME_RANGE")
        else pure tt)
    persisted ← read_persisted c p.result_start p.result_end
    current ← cache_get ttl c.request.symbol c.request.timeframe c.symbol c.now
    normalized ← fill c p.expected persisted current
    let merged = merge normalized persisted (in_range c p.result_start p.result_end) current
    response ← respond c p current merged
    pure (record {
      symbol = c.request.symbol;
      timeframe = c.request.timeframe;
      start = p.result_start;
      end = p.result_end;
      candles = shown response.1 response.0;
      price_display_decimals = c.symbol.price_display_decimals;
    })

  -- `_get_candles` where the request has no count.
  unfoldable pub get_by_plan : ℕ → ℕ → Context → Exec S CandleResult
  unfolding plan get_planned
  get_by_plan max_candles ttl c = do
    p ← lift (plan c.request c.schedule c.policy)
    get_planned max_candles ttl c p

  abbrev selection_error : Error → Error
  selection_error (provider_selection code) =
      if code == "DATABASE_UNAVAILABLE"
      then database_unavailable "DATABASE_QUERY_FAILED"
      else candle_request code
  selection_error e = e

  abbrev selected : Result (SupportedSymbol × Symbols.ProviderSelection) → Result SupportedSymbol
  selected (ok (symbol, selection)) = ok symbol
  selected (err e) = err (selection_error e)

  abbrev resolve_found : Option String → Option SupportedSymbol → Result SupportedSymbol
  resolve_found provider_name none = err (candle_request "UNSUPPORTED_SYMBOL")
  resolve_found provider_name (some symbol) =
      selected (resolve_provider_selection symbol provider_name)

  unfoldable pub resolve_symbol : String → Option String → Exec S SupportedSymbol
  resolve_symbol name provider_name w =
      (Base.◌>>=◌ (repo.get_enabled_symbol w.tables name) (resolve_found provider_name), w)
