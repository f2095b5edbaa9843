-- ===== src/CandleCount.antt =====
-- services/candle_count.py: a request for a number of candles is answered page by page. What is measured
-- for the log is left out.
pub mod Bounds
pub mod Keeps
use signapse_mdg.Base.{
  ℕ, zero, suc, ◌+◌, ◌-◌, min, Bool, true, false, ◌&&◌, not, Option, none, some, List, [], ◌∷◌,
  ◌++◌, map, String, Result, ok, err, Error, candle_request, out_of_fuel, contains, nat_eq, ◌==◌,
  update, set_default, values, keep, length, last, ltb, leb, if◌then◌else◌,
}
use signapse_mdg.Base
use signapse_mdg.Base.Text.{dedupe}
use signapse_mdg.Candles.{Candle, CandleRequest, CandleResult, CountDirection, forward, backward}
use signapse_mdg.Candles.Merge.{ByOpen, entries, by_open_time, sort_by_open_time}
use signapse_mdg.Schedule.{CandleSchedule, latest_opens, next_opens, end_after}
use signapse_mdg.Schedule.Fixed.{Policy}
use signapse_mdg.Gateway.{
  Repository, CandleProvider, World, Exec, pure, raise, lift, ◌>>=◌, ◌>>◌, list_complete,
  fetch_candles, cache_get,
}
use signapse_mdg.CandleService.{
  Context, eligible, closed, open_times, store_normalized, merge, is_forward,
}

pub record CountScanPage : Type 0 where
  pub expected_opens : List ℕ
  pub start : ℕ
  pub end : ℕ

-- What changes of a `CountScanCursor`, and its two sizes.
pub record Cursor : Type 0 where
  pub page_capacity : ℕ
  pub scan_budget : ℕ
  pub scanned : ℕ
  pub first_page : Bool
  pub anchor : ℕ

abbrev at_least_one : ℕ → ℕ
at_least_one zero = 1
at_least_one (suc n) = suc n

-- `CountScanCursor.__init__`
unfoldable pub new_cursor : CandleRequest → ℕ → ℕ → Cursor
new_cursor request page_capacity scan_budget = record {
  page_capacity = at_least_one page_capacity;
  scan_budget = scan_budget;
  scanned = 0;
  first_page = true;
  anchor = if is_forward request.count_direction then request.start else request.end;
}

abbrev pub page_size : Cursor → ℕ → ℕ
page_size cursor count =
    let size = min cursor.page_capacity (cursor.scan_budget - cursor.scanned) in
    if cursor.first_page then min size count else size

-- The page of the opens found, where there are any, and the cursor after it.
abbrev advance :
    CandleSchedule → Bool → Cursor → List ℕ → Option ℕ → Result (Option CountScanPage × Cursor)
advance schedule forwards cursor [] last_open = ok (none, cursor)
advance schedule forwards cursor (x ∷ xs) none = ok (none, cursor)
advance schedule forwards cursor (x ∷ xs) (some last_open) =
    Base.◌>>=◌ (end_after schedule last_open) (λ page_end. ok (
      some (record { expected_opens = x ∷ xs; start = x; end = page_end }),
      record cursor {
        first_page = false;
        scanned = cursor.scanned + length (x ∷ xs);
        anchor = if forwards then page_end else x;
      },
    ))

abbrev opens_of_page : Context → Cursor → ℕ → Result (List ℕ)
opens_of_page c cursor size =
    if is_forward c.request.count_direction
    then next_opens c.schedule cursor.anchor size c.policy c.request.timeframe
    else latest_opens c.schedule cursor.anchor size c.policy c.request.timeframe

unfoldable pub next_page : Context → ℕ → Cursor → Result (Option CountScanPage × Cursor)
next_page c count cursor =
    let opens = opens_of_page c cursor (page_size cursor count) in
    if leb cursor.scan_budget cursor.scanned
    then ok (none, cursor)
    else Base.◌>>=◌ opens
        (λ xs. advance c.schedule (is_forward c.request.count_direction) cursor xs (last xs))

-- A candle that is expected and eligible.
abbrev wanted : Context → List ℕ → Candle → Bool
wanted c expected candle = contains expected candle.open_time && eligible c candle

abbrev cached_opens : Context → List ℕ → Option Candle → List ℕ
cached_opens c expected none = []
cached_opens c expected (some current) =
    if wanted c expected current then current.open_time ∷ [] else []

pub record Progress : Type 0 where
  pub cursor : Cursor
  pub merged : ByOpen
  pub result_start : ℕ
  pub result_end : ℕ

abbrev pub after_page : Context → CountScanPage → Cursor → ByOpen → Progress → Progress
after_page c page cursor page_merged progress = record {
  cursor = cursor;
  merged = update progress.merged page_merged;
  result_start = if is_forward c.request.count_direction then progress.result_start else page.start;
  result_end = if is_forward c.request.count_direction then page.end else progress.result_end;
}

-- `ordered[:count]` and `ordered[count:]`
abbrev pub take_candles : ℕ → List Candle → List Candle
take_candles zero ordered = []
take_candles (suc n) [] = []
take_candles (suc n) (candle ∷ ordered) = candle ∷ take_candles n ordered

abbrev pub drop_candles : ℕ → List Candle → List Candle
drop_candles zero ordered = ordered
drop_candles (suc n) [] = []
drop_candles (suc n) (candle ∷ ordered) = drop_candles n ordered

-- The first or the last `count` candles.
abbrev pub chosen : Bool → ℕ → List Candle → List Candle
chosen true count ordered = take_candles count ordered
chosen false count ordered = drop_candles (length ordered - count) ordered

module _ {S : Type 0} (repo : Repository S) (provider : CandleProvider) where
  -- What the provider has for a page, stored before it is used.
  unfoldable pub fetch_page : ℕ → Context → CountScanPage → Exec S (List Candle)
  unfolding fetch_candles store_normalized
  fetch_page max_candles c page = do
    fetched ← fetch_candles provider (record {
      symbol = c.symbol;
      timeframe = c.request.timeframe;
      provider_interval = c.timeframe.provider_interval;
      start = page.start;
      end = page.end;
      limit = min (length page.expected_opens + 1) max_candles;
    })
    store_normalized repo provider c.now
        (map (closed c.now) (keep (wanted c page.expected_opens) fetched))
    pure (map (closed c.now) (keep (wanted c page.expected_opens) fetched))

  -- `_load_page`
  unfoldable pub load_page : ℕ → Context → CountScanPage → Option Candle → Exec S ByOpen
  unfolding list_complete fetch_page merge
  load_page max_candles c page current = do
    rows ← list_complete repo c.symbol c.request.timeframe page.start page.end
    let persisted = keep (wanted c page.expected_opens) rows
    let available = dedupe [] (open_times persisted ++ cached_opens c page.expected_opens current)
    normalized ←
        (if ltb (length available) (length (dedupe [] page.expected_opens))
          then fetch_page max_candles c page
          else pure [])
    pure (
        merge normalized persisted (λ candle. contains page.expected_opens candle.open_time)
          current)

  -- `if page is None: break`
  abbrev pub with_page :
      Option CountScanPage → Progress → (CountScanPage → Exec S Progress) → Exec S Progress
  with_page none progress continue = pure progress
  with_page (some page) progress continue = continue page

  -- The loop of `execute`, with the variables that it changes.
  unfoldable pub scan_pages : ℕ → ℕ → Context → ℕ → Option Candle → Progress → Exec S Progress
  unfolding next_page load_page
  scan_pages zero max_candles c count current progress = raise out_of_fuel
  scan_pages (suc fuel) max_candles c count current progress =
      let more = (do
        (page, cursor) ← lift (next_page c count progress.cursor)
        with_page page progress (λ found. load_page max_candles c found current >>= λ page_merged.
            scan_pages fuel max_candles c count current
              (after_page c found cursor page_merged progress))) in
      if ltb (length progress.merged) count then more else pure progress

  abbrev answer_of : Context → ℕ → Progress → CandleResult
  answer_of c count progress = record {
    symbol = c.request.symbol;
    timeframe = c.request.timeframe;
    start = progress.result_start;
    end = progress.result_end;
    candles =
        chosen (is_forward c.request.count_direction) count
          (sort_by_open_time (values progress.merged));
    price_display_decimals = c.symbol.price_display_decimals;
  }

  abbrev pub first_progress : ℕ → ℕ → Context → Progress
  first_progress max_candles scan_budget c = record {
    cursor = new_cursor c.request (at_least_one (max_candles - 1)) scan_budget;
    merged = [];
    result_start = if is_forward c.request.count_direction then c.request.start else c.request.end;
    result_end = c.request.end;
  }

  -- Each page scans one open at least, so the budget bounds the number of pages.
  unfoldable pub execute_count : ℕ → ℕ → ℕ → Context → ℕ → Exec S CandleResult
  unfolding scan_pages new_cursor cache_get
  execute_count max_candles scan_budget ttl c count = do
    current ← cache_get ttl c.request.symbol c.request.timeframe c.symbol c.now
    progress ←
        scan_pages (suc (suc scan_budget)) max_candles c count current
          (first_progress max_candles scan_budget c)
    pure (answer_of c count progress)

  abbrev execute_valid :
      ℕ → ℕ → ℕ → Context → Option ℕ → Option CountDirection → Exec S CandleResult
  execute_valid max_candles scan_budget ttl c none direction =
      raise (candle_request "INVALID_TIME_RANGE")
  execute_valid max_candles scan_budget ttl c (some zero) direction =
      raise (candle_request "INVALID_TIME_RANGE")
  execute_valid max_candles scan_budget ttl c (some (suc n)) none =
      raise (candle_request "INVALID_TIME_RANGE")
  execute_valid max_candles scan_budget ttl c (some (suc n)) (some direction) =
      execute_count max_candles scan_budget ttl c (suc n)

  -- `CountQueryExecution.execute`
  unfoldable pub execute : ℕ → ℕ → ℕ → Context → Exec S CandleResult
  unfolding execute_count
  execute max_candles scan_budget ttl c =
      execute_valid max_candles scan_budget ttl c c.request.count c.request.count_direction
