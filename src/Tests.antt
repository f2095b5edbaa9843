-- ===== src/Tests.antt =====
-- Runs at concrete inputs.
mod Jobs
mod Streams
mod Tables
mod Adapters
mod Services
use signapse_mdg.Base.{
  ◌-◌, ℕ, ◌+◌, ◌*◌, ◌≤◌, ◌<◌, ◌≡◌, ◌≢◌, ◌↔◌, ◌⊎◌, refl, Bool, true, false, none, some, List, [],
  ◌∷◌, ◌++◌, map, String, Result, ok, err, out_of_fuel, provider_selection, arith, length, nat_eq,
  string_eq, if◌then◌else◌, Above, lookup, update, any, ◌==◌, ◌%◌,
}
use mathlib.Core.List.{Mem}
use signapse_mdg.Base.Opens.{Exactly}
use signapse_mdg.Time.{epoch, day, hour, minute, add_time, sub_time}
use signapse_mdg.Time.Civil.{fields, instant, month_instant}
use signapse_mdg.Time.Civil.Roundtrip.{instant-fields, fields-instant}
use signapse_mdg.Time.Timeframe.{month_opens}
use signapse_mdg.Time.Timeframe.Opens.{MonthOpens, month_opens_exact}
use signapse_mdg.Schedule.Fixed.{
  FixedOffset, expected_opens, latest_opens, next_opens, first_open_at_or_after, floor_open,
  expected_loop, latest_loop, next_loop,
}
use signapse_mdg.Schedule.Fixed.Grid.{anchor}
use signapse_mdg.Schedule.Fixed.Slots.{Between}
use signapse_mdg.Schedule.Fixed.Expected.{Expected, expected_opens_exact}
use signapse_mdg.Schedule.Fixed.AlwaysOpen.{Slot, always_open_opens}
use signapse_mdg.Schedule.Fixed.Latest.{latest_opens_exact, latest_opens_ends}
use signapse_mdg.Schedule.Fixed.Next.{next_opens_exact, next_opens_ends}
use signapse_mdg.Schedule.Sections.{ProviderFetchSection, missing, missing_sections, sections_loop}
use signapse_mdg.Schedule.Sections.Covers.{
  Covers, total_count, missing_sections_cover, missing_sections_count, missing_sections_total,
}
use signapse_mdg.Sessions.{Calendars, always_open, forex_weekly, is_eligible, forex_open, wti_open}
use signapse_mdg.Sessions.Week.{TradesForex, forex_eligible_iff}
use signapse_mdg.Symbols.{SupportedSymbol, ProviderMapping, mappings}
use signapse_mdg.Selection.{resolve_provider_selection}
use signapse_mdg.Selection.Laws.{
  Meant, Selected, defaults, selection_needs_one_default, selection_lem,
}
use signapse_mdg.Time.Timeframe.{pos, negsuc}
use signapse_mdg.Candles.{Candle, CandleResult}
use signapse_mdg.Candles.Merge.{by_open_time}
use signapse_mdg.Candles.Merge.Laws.{or_else}
use signapse_mdg.CandleCache.{cache_key_eq, Store, cache_key, key_beq, get_valid, put}
use signapse_mdg.CandleCache.Laws.{
  IsValid, get_valid-IsValid, put-IsValid, IsServed, get_valid_iff, get_valid-put,
}
use signapse_mdg.Schedule.{fixed_offset}
use signapse_mdg.Gateway.{Repository, CandleProvider, World}
use signapse_mdg.Gateway.Keeps.{HasValidCache}
use signapse_mdg.CandleService.{Context, open_times, merge, fetch_sections, get_by_plan}
use signapse_mdg.CandleService.Keeps.{get_by_plan_keeps_cache}
use signapse_mdg.CandleService.Answer.{get_by_plan_answer}
use signapse_mdg.CandleService.Merged.{current_at, lookup-merge}
use signapse_mdg.CandleService.Fetches.{call_of, fetch_sections_calls}
use signapse_mdg.Base.Text.{strip}
use signapse_mdg.Base.{All, has_key, provider_unavailable}
use signapse_mdg.Candles.{CandleRequest, forward, backward}
use signapse_mdg.CandleCount.{execute}
use signapse_mdg.CandleCount.Keeps.{execute_keeps_cache}
use signapse_mdg.Base.Text.{HasDistinct}
use signapse_mdg.Quotes.Service.{parse_symbols}
use signapse_mdg.Quotes.Service.Parsing.{parse_symbols_lem}
use signapse_mdg.Quotes.{QuoteStore, QuoteError}
use signapse_mdg.Quotes.Service.{QuoteProvider, Readings, Found, resolve_supported}
use signapse_mdg.Quotes.Service.Answers.{answered, resolve_supported_answers}
use signapse_mdg.Time.Timeframe.{Timeframe, get_timeframe}
use signapse_mdg.Requests.{Parsers, RawRequest, parse_candle_request, text_of}
use signapse_mdg.Requests.Names.{Names}
use signapse_mdg.Requests.Bounds.{Anchored, Ranged, parse_candle_request_lem}

-- 2024-10-04, a Friday.
abbrev friday : ℕ
friday = epoch + 20000 * day

month_opens_exact_example :
    (opens : List ℕ) × (month_opens friday (friday + 90 * day) ≡ ok opens)
    × Exactly (MonthOpens friday (friday + 90 * day)) opens
    × Above friday opens
unfolding month_instant
month_opens_exact_example = month_opens_exact friday (friday + 90 * day) (omega arith) (omega arith)

abbrev hourly : FixedOffset
hourly = record { duration = hour; offset = 30 * minute }

abbrev always : ℕ → String → Bool
always t timeframe = true

abbrev half_past : List ℕ
half_past = (friday + 30 * minute) ∷ (friday + 90 * minute) ∷ []

expected_opens_exact_example :
    Exactly (Expected hourly friday (friday + 2 * hour) always "1h") half_past
    × Above friday half_past
unfolding expected_opens first_open_at_or_after floor_open add_time sub_time expected_loop
expected_opens_exact_example =
    expected_opens_exact hourly friday (friday + 2 * hour) always "1h" half_past (omega arith) refl

latest_opens_exact_example :
    (lo : ℕ) × Exactly
      (Between hour (anchor hourly) (λ t. always t "1h") lo (friday + 2 * hour))
      half_past
    × Above lo half_past
    × (length half_past ≡ 2)
unfolding latest_opens first_open_at_or_after floor_open add_time sub_time latest_loop
latest_opens_exact_example =
    latest_opens_exact hourly (friday + 2 * hour) 2 always "1h" half_past (omega arith) refl

next_opens_exact_example :
    (hi : ℕ) × Exactly (Between hour (anchor hourly) (λ t. always t "1h") friday hi) half_past
    × Above friday half_past
    × (length half_past ≡ 2)
unfolding next_opens first_open_at_or_after floor_open add_time sub_time next_loop
next_opens_exact_example = next_opens_exact hourly friday 2 always "1h" half_past (omega arith) refl

abbrev slot_after : ℕ → Result ℕ
slot_after t = ok (t + 5)

abbrev two_sections : List ProviderFetchSection
two_sections =
    record { start = 0; end = 10; expected_count = 2 }
    ∷ record { start = 15; end = 20; expected_count = 1 }
    ∷ []

missing_sections_cover_example :
    Covers slot_after two_sections (missing (0 ∷ 5 ∷ 10 ∷ 15 ∷ []) (10 ∷ []))
unfolding missing_sections sections_loop
missing_sections_cover_example =
    missing_sections_cover slot_after (0 ∷ 5 ∷ 10 ∷ 15 ∷ []) (10 ∷ []) two_sections refl

abbrev five_hours_behind : Calendars
five_hours_behind = record {
  new_york = λ t. t - 5 * hour;
  calendar_exists = λ name. false;
  year_sessions = λ name year. [];
}

always_open_opens_example :
    (opens : List ℕ) × (expected_opens hourly friday
        (friday + 2 * hour)
        (is_eligible five_hours_behind always_open)
        "1h"
      ≡ ok opens)
    × Exactly (Slot five_hours_behind hourly friday (friday + 2 * hour) "1h") opens
    × Above friday opens
always_open_opens_example =
    always_open_opens five_hours_behind hourly friday (friday + 2 * hour) "1h" (omega arith)
      (omega arith) (omega arith) (omega arith) (omega arith)

forex_eligible_iff_example :
    (is_eligible five_hours_behind forex_weekly friday "1h" ≡ true)
    ↔ TradesForex five_hours_behind friday "1h"
forex_eligible_iff_example = forex_eligible_iff five_hours_behind friday "1h"

abbrev eur_usd : SupportedSymbol
eur_usd = record {
  symbol = "EURUSD";
  asset_class = "forex";
  provider = "TWELVE_DATA";
  provider_symbol = "EUR/USD";
  enabled = true;
  price_display_decimals = 5;
  calendar_source = none;
  calendar_name = none;
  calendar_timezone = none;
  provider_mappings = [];
}

selection_lem_example :
    ((m : ProviderMapping) × Mem m (mappings eur_usd)
      × Meant (some "BINANCE") m
      × (resolve_provider_selection eur_usd (some "BINANCE")
          ≡ ok (Selected eur_usd (some "BINANCE") m)))
    ⊎ ((p : String) × (some "BINANCE" ≡ some p)
        × (any (λ m. m.provider == p) (mappings eur_usd) ≡ false)
        × (resolve_provider_selection eur_usd (some "BINANCE")
            ≡ err (provider_selection "UNSUPPORTED_PROVIDER")))
unfolding mappings
selection_lem_example = selection_lem eur_usd (some "BINANCE") refl

abbrev forming : Candle
forming = record {
  symbol = "EURUSD";
  asset_class = "forex";
  provider = "TWELVE_DATA";
  provider_symbol = "EUR/USD";
  timeframe = "1h";
  open_time = friday;
  close_time = friday + hour;
  opening = record { coefficient = pos 105; exponent = negsuc 1 };
  high = record { coefficient = pos 107; exponent = negsuc 1 };
  low = record { coefficient = pos 104; exponent = negsuc 1 };
  close = record { coefficient = pos 106; exponent = negsuc 1 };
  volume = record { coefficient = pos 0; exponent = pos 0 };
  complete = false;
}

abbrev forming_store : Store
forming_store = put forming friday []

nothing-IsValid : IsValid []
nothing-IsValid = record { distinct = tt; all_forming = tt }

get_valid_iff_example :
    ((get_valid minute (cache_key forming) (friday + 5) forming_store).0 ≡ some forming)
    ↔ IsServed minute (cache_key forming) (friday + 5) forming_store forming
get_valid_iff_example = get_valid_iff minute (cache_key forming) (friday + 5) forming_store forming

lookup-merge_example :
    lookup friday (merge (forming ∷ []) [] (λ c. true) none)
    ≡ or_else
        (or_else (lookup friday (by_open_time [])) (lookup friday (by_open_time (forming ∷ []))))
        (current_at friday (λ c. true) none)
lookup-merge_example = lookup-merge friday (forming ∷ []) [] (λ c. true) none

abbrev one_symbol : Repository (Unit {0})
one_symbol = record {
  get_enabled_symbol = λ tables name. ok (some eur_usd);
  list_complete = λ tables symbol timeframe start end. ok [];
  upsert_complete = λ tables candles. ok tt;
}

abbrev one_candle : CandleProvider
one_candle calls call = ok (forming ∷ [])

abbrev half_hour_later : Context
half_hour_later = record {
  request = record {
    symbol = "EURUSD";
    timeframe = "1h";
    start = friday;
    end = friday + hour;
    limit = none;
    count_direction = none;
    provider = none;
    count = none;
  };
  symbol = eur_usd;
  timeframe = record {
    value = "1h";
    duration = hour;
    provider_interval = "1h";
    calendar_month = false;
  };
  policy = always;
  schedule = fixed_offset (record { duration = hour; offset = 0 });
  now = friday + 30 * minute;
}

abbrev empty_world : World (Unit {0})
empty_world = record { tables = tt; cache = some []; calls = [] }

abbrev one_result : CandleResult
one_result = record {
  symbol = "EURUSD";
  timeframe = "1h";
  start = friday;
  end = friday + hour;
  candles = forming ∷ [];
  price_display_decimals = 5;
}

fetch_sections_calls_example :
    (fetch_sections one_symbol one_candle half_hour_later two_sections empty_world).1.calls
    ≡ [] ++ map (call_of half_hour_later) two_sections
unfolding fetch_sections
fetch_sections_calls_example =
    fetch_sections_calls one_symbol one_candle half_hour_later two_sections empty_world
      (forming ∷ forming ∷ []) refl

abbrev no_prices : QuoteProvider
no_prices symbols = err (provider_unavailable "TIMEOUT")

abbrev at_friday : Readings
at_friday = record {
  start = friday;
  locked = friday + 1;
  received = friday + 2;
  fallback = λ item. friday + 3;
}

abbrev one_failure : Found × QuoteStore
one_failure =
    (([], ("EURUSD", record { symbol = "EURUSD"; code = "PROVIDER_UNAVAILABLE" }) ∷ []), [])

resolve_supported_answers_example :
    All (λ item. answered item.symbol one_failure.0 ≡ true) (eur_usd ∷ [])
    × ((name : String)
        → has_key {V = QuoteError} name [] ≡ true
        → answered name one_failure.0 ≡ true)
unfolding resolve_supported
resolve_supported_answers_example =
    resolve_supported_answers minute hour at_friday no_prices (eur_usd ∷ []) [] [] [] one_failure
      refl

abbrev five_only : Parsers
five_only = record { int = λ raw. some (pos 5); from_iso = λ raw. none }

abbrev five_wanted : RawRequest
five_wanted = record {
  raw_symbol = some "EURUSD";
  raw_timeframe = some "1h";
  raw_from = none;
  raw_to = none;
  raw_limit = some "5";
  raw_provider = none;
  raw_count = none;
  raw_before = none;
}

abbrev five_candles : CandleRequest
five_candles = record {
  symbol = "EURUSD";
  timeframe = "1h";
  start = friday;
  end = friday;
  limit = some 5;
  count_direction = some backward;
  provider = none;
  count = none;
}

parse_candle_request_lem_example :
    (timeframe : Timeframe) × (get_timeframe (text_of five_wanted.raw_timeframe) ≡ some timeframe)
    × (text_of five_wanted.raw_symbol ≢ "")
    × Names (text_of five_wanted.raw_symbol) timeframe five_wanted.raw_provider five_candles
    × (Anchored 10 five_candles ⊎ Ranged 10 timeframe five_candles)
unfolding parse_candle_request strip
parse_candle_request_lem_example =
    parse_candle_request_lem five_only friday 10 five_wanted five_candles refl

abbrev counting : Context
counting = record half_hour_later {
  request = record {
    symbol = "EURUSD";
    timeframe = "1h";
    start = friday;
    end = friday;
    limit = none;
    count_direction = some forward;
    provider = none;
    count = some 1;
  };
}

abbrev two_names : List String
two_names = "A" ∷ "B" ∷ []
