-- ===== src/Requests.antt =====
-- The parsing of candle requests in services/candles.py. What `int` and `datetime.fromisoformat` accept
-- is a parameter; the details of errors are left out.
pub mod Names
pub mod Bounds
use signapse_mdg.Base.{
  ℕ, suc, ◌-◌, ◌+◌, ◌/◌, Bool, true, false, not, ◌&&◌, ◌||◌, Option, none, some, List, String,
  string_eq, ◌==◌, Error, candle_request, Result, ok, err, ◌>>=◌, ltb, leb, if◌then◌else◌, length,
}
use signapse_mdg.Base.Text.{strip, ends_with, replace_z}
use signapse_mdg.Candles.{CandleRequest, CountDirection, forward, backward}
use signapse_mdg.Time.Timeframe.{
  ℤ, pos, negsuc, Timeframe, Zone, naive, utc, elsewhere, get_timeframe, month_opens,
}

pub record Parsers : Type 0 where
  -- None where `int` raises ValueError.
  pub int : String → Option ℤ
  -- The instant and the offset; none where `fromisoformat` raises ValueError.
  pub from_iso : String → Option (ℕ × Zone)

-- The query parameters as they stand in a request.
pub record RawRequest : Type 0 where
  pub raw_symbol : Option String
  pub raw_timeframe : Option String
  pub raw_from : Option String
  pub raw_to : Option String
  pub raw_limit : Option String
  pub raw_provider : Option String
  pub raw_count : Option String
  pub raw_before : Option String

abbrev pub invalid_range : Error
invalid_range = candle_request "INVALID_TIME_RANGE"

abbrev in_utc : Option (ℕ × Zone) → Result ℕ
in_utc none = err invalid_range
in_utc (some (t, utc)) = ok t
in_utc (some (t, naive)) = err invalid_range
in_utc (some (t, elsewhere)) = err invalid_range

-- `_parse_utc`
unfoldable pub parse_utc : Parsers → Option String → Result ℕ
parse_utc parsers none = err invalid_range
parse_utc parsers (some raw) =
    let value = strip raw in
    if value == "" || not (ends_with "Z" value || ends_with "+00:00" value)
    then err invalid_range
    else in_utc (parsers.from_iso (replace_z value))

abbrev bounded_limit : ℕ → Option ℤ → Result (Option ℕ)
bounded_limit max_candles none = err invalid_range
bounded_limit max_candles (some (negsuc n)) = err invalid_range
bounded_limit max_candles (some (pos n)) =
    if ltb n 1 || ltb max_candles n then err invalid_range else ok (some n)

-- `_parse_limit`
unfoldable pub parse_limit : Parsers → Option String → ℕ → Result (Option ℕ)
parse_limit parsers none max_candles = ok none
parse_limit parsers (some raw) max_candles = bounded_limit max_candles (parsers.int (strip raw))

abbrev pub given : Option String → Bool
given none = false
given (some raw) = true

-- `(raw or "").strip()`
abbrev pub text_of : Option String → String
text_of none = ""
text_of (some raw) = strip raw

abbrev time_or : Parsers → ℕ → Option String → Result ℕ
time_or parsers now none = ok now
time_or parsers now (some raw) = parse_utc parsers (some raw)

-- `ceil((end - start) / timeframe.duration)` where `start < end`, or the number of months.
unfoldable pub conservative_count : ℕ → ℕ → Timeframe → Result ℕ
conservative_count start end timeframe =
    if timeframe.calendar_month
    then (do opens ← month_opens start end; ok (length opens))
    else ok ((end - start + timeframe.duration - 1) / timeframe.duration)

abbrev few_enough : ℕ → ℕ → Result (Unit {0})
few_enough max_candles count = if ltb max_candles count then err invalid_range else ok tt

-- `_validate_range`
unfoldable pub validate_range : ℕ → ℕ → Timeframe → ℕ → Result (Unit {0})
unfolding conservative_count
validate_range start end timeframe max_candles =
    let bounded = conservative_count start end timeframe >>= few_enough max_candles in
    if leb end start then err invalid_range else bounded

abbrev request_at :
    String
    → Timeframe
    → RawRequest
    → ℕ
    → ℕ
    → Option ℕ
    → Option ℕ
    → Option CountDirection
    → CandleRequest
request_at symbol timeframe raw start end limit count direction = record {
  symbol = symbol;
  timeframe = timeframe.value;
  start = start;
  end = end;
  limit = limit;
  count_direction = direction;
  provider = raw.raw_provider;
  count = count;
}

-- A request with a limit or a count: from `from` on, or up to `to`.
unfoldable pub anchored :
    Parsers → ℕ → String → Timeframe → RawRequest → Option ℕ → Option ℕ → Result CandleRequest
unfolding parse_utc
anchored parsers now symbol timeframe raw limit count =
    if given raw.raw_from
    then if given raw.raw_to then err invalid_range else (do
      start ← parse_utc parsers raw.raw_from
      ok (request_at symbol timeframe raw start start limit count (some forward)))
    else (do
      end ← time_or parsers now raw.raw_to
      ok (request_at symbol timeframe raw end end limit count (some backward)))

unfoldable pub ranged : Parsers → ℕ → ℕ → String → Timeframe → RawRequest → Result CandleRequest
unfolding parse_utc validate_range
ranged parsers now max_candles symbol timeframe raw = do
  end ← time_or parsers now raw.raw_to
  start ← parse_utc parsers raw.raw_from
  validated ← validate_range start end timeframe max_candles
  ok (request_at symbol timeframe raw start end none none none)

abbrev by_limit :
    Parsers → ℕ → ℕ → String → Timeframe → RawRequest → Option ℕ → Result CandleRequest
by_limit parsers now max_candles symbol timeframe raw none =
    ranged parsers now max_candles symbol timeframe raw
by_limit parsers now max_candles symbol timeframe raw (some limit) =
    anchored parsers now symbol timeframe raw (some limit) none

unfoldable pub parse_known :
    Parsers → ℕ → ℕ → String → Timeframe → RawRequest → Result CandleRequest
unfolding parse_limit anchored ranged
parse_known parsers now max_candles symbol timeframe raw =
    if given raw.raw_limit && given raw.raw_count
    then err invalid_range
    else if given raw.raw_count
    then parse_limit parsers raw.raw_count max_candles
      >>= anchored parsers now symbol timeframe raw none
    else parse_limit parsers raw.raw_limit max_candles
      >>= by_limit parsers now max_candles symbol timeframe raw

abbrev parse_timeframe :
    Parsers → ℕ → ℕ → String → RawRequest → Option Timeframe → Result CandleRequest
parse_timeframe parsers now max_candles symbol raw none =
    err (candle_request "UNSUPPORTED_TIMEFRAME")
parse_timeframe parsers now max_candles symbol raw (some timeframe) =
    parse_known parsers now max_candles symbol timeframe raw

-- `parse_candle_request`; `now` is the clock's reading.
unfoldable pub parse_candle_request : Parsers → ℕ → ℕ → RawRequest → Result CandleRequest
unfolding parse_known get_timeframe
parse_candle_request parsers now max_candles raw =
    let symbol = text_of raw.raw_symbol in
    if given raw.raw_before
    then err invalid_range
    else if symbol == ""
    then err (candle_request "UNSUPPORTED_SYMBOL")
    else parse_timeframe parsers now max_candles symbol raw
        (get_timeframe (text_of raw.raw_timeframe))
