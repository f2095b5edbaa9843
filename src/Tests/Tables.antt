-- ===== src/Tests/Tables.antt =====
-- Runs of the tables and of the economic calendar at concrete inputs.
use signapse_mdg.Base.{
  ℕ, ◌+◌, ◌*◌, ◌≡◌, refl, Bool, true, false, Option, none, some, List, [], ◌∷◌, keep, String,
  string_eq, Dict, lookup, HasDistinctKeys, Result, ok, err, arith, ◌==◌, if◌then◌else◌,
}
use signapse_mdg.Time.{hour, day}
use signapse_mdg.Candles.{Candle}
use signapse_mdg.Database.{
  Tables, MappingRow, SymbolRow, CandleKey, candle_key, candle_key_eq, to_supported_symbol,
  list_complete, upsert_complete,
}
use signapse_mdg.Database.Candles.{
  IsSound, IsOrdered, opening_at, in_range, row_key, written, list_complete_lem,
  upsert_complete_lem, upsert_then_list,
}
use signapse_mdg.Database.Symbols.{IsResolved, to_supported_symbol_lem}
use signapse_mdg.Requests.{Parsers}
use signapse_mdg.Time.Timeframe.{pos, utc}
use signapse_mdg.EconomicCalendar.{
  FetchedEvent, EnrichmentCandidate, CalendarRequest, parse_economic_calendar_request,
}
use signapse_mdg.EconomicCalendar.Parsed.{IsValidRequest, parse_economic_calendar_request_lem}
use signapse_mdg.EconomicCalendar.Store.{
  event_key_eq, EventRow, EventTables, fetched_key, claim_enrichment_candidates,
}
use signapse_mdg.EconomicCalendar.Once.{Apart, no_step, claims-Apart}
use signapse_mdg.EconomicCalendar.Refresh.{CalendarProvider, refresh}
use signapse_mdg.EconomicCalendar.Facts.{AreFetched, Written, refresh-facts}
use signapse_mdg.Tests.{friday, eur_usd, forming}

abbrev done : Candle
done = record forming { complete = true }

abbrev one_row : Tables
one_row = record { symbols = []; candles = (candle_key done, done) ∷ []; broken = false }

one_row-IsSound : IsSound one_row.candles
one_row-IsSound = record { distinct = (tt, tt); rows = ((refl, refl), tt) }

list_complete_lem_example :
    IsOrdered (done ∷ [])
    × ((t : ℕ)
        → opening_at t (done ∷ [])
          ≡ in_range friday (friday + day) t (lookup (row_key eur_usd "1h" t) one_row.candles))
unfolding list_complete
list_complete_lem_example =
    list_complete_lem one_row eur_usd "1h" friday (friday + day) (done ∷ []) one_row-IsSound refl

abbrev newer : Candle
newer = record done { close_time = friday + 2 * hour }

abbrev updated_row : Tables
updated_row = record one_row { candles = (candle_key done, newer) ∷ [] }

upsert_complete_lem_example :
    IsSound updated_row.candles
    × ((key : CandleKey)
        → lookup key updated_row.candles ≡ written key (newer ∷ []) (lookup key one_row.candles))
unfolding upsert_complete
upsert_complete_lem_example =
    upsert_complete_lem one_row updated_row (newer ∷ forming ∷ []) one_row-IsSound refl

abbrev euro_row : SymbolRow
euro_row = record {
  symbol = "EURUSD";
  asset_class = "forex";
  price_display_decimals = 5;
  calendar_source = none;
  calendar_name = none;
  calendar_timezone = none;
  enabled = true;
  mappings = [];
}

abbrev two_mappings : List MappingRow
two_mappings =
    record { provider = "YFINANCE"; provider_symbol = "EURUSD=X"; is_active = false }
    ∷ record { provider = "TWELVE_DATA"; provider_symbol = "EUR/USD"; is_active = true }
    ∷ []

to_supported_symbol_lem_example :
    IsResolved two_mappings (to_supported_symbol euro_row two_mappings)
to_supported_symbol_lem_example = to_supported_symbol_lem euro_row two_mappings

abbrev payrolls : FetchedEvent
payrolls = record {
  calendar_type = "FOREX";
  external_event_id = "1";
  facts = record {
    name = "Payrolls";
    currency = some "USD";
    impact = some "HIGH";
    scheduled_at = friday;
    actual = none;
    forecast = some "140K";
    previous = none;
    revision = none;
    actual_better_worse = none;
    revision_better_worse = none;
  };
  description = none;
  news_url = none;
}

abbrev payrolls_row : EventRow
payrolls_row = record {
  event = record {
    calendar_type = "FOREX";
    external_event_id = "1";
    facts = payrolls.facts;
    description = none;
    news_url = none;
    first_seen_at = friday;
    last_seen_at = friday;
    last_changed_at = friday;
  };
  enrichment_attempted_at = none;
}

abbrev one_event : EventTables
one_event = record { events = (fetched_key payrolls, payrolls_row) ∷ []; broken = false }

abbrev claimed_event : EventTables
claimed_event = record one_event {
  events =
      (fetched_key payrolls, record payrolls_row { enrichment_attempted_at = some (friday + hour) })
      ∷ [];
}

abbrev payrolls_candidate : EnrichmentCandidate
payrolls_candidate = record { calendar_type = "FOREX"; external_event_id = "1" }

claims-Apart_example : Apart (payrolls_candidate ∷ []) []
unfolding claim_enrichment_candidates
claims-Apart_example =
    claims-Apart (λ key. false) (λ key. false) friday (friday + day) (friday + hour) friday
      (friday + day) (friday + 2 * hour) one_event claimed_event claimed_event claimed_event
      (payrolls_candidate ∷ []) [] (tt, tt) refl no_step refl refl

abbrev no_details : CalendarProvider
no_details = record {
  fetch_events = λ calendar_type start end. ok (payrolls ∷ []);
  fetch_event_details = λ candidates. ok [];
}

refresh-facts_example :
    (events : List FetchedEvent) × AreFetched no_details (λ key. false) friday friday friday events
    × Written no_details
        (λ key. false)
        friday
        friday
        friday
        events
        one_event
        (refresh no_details (λ key. false) friday friday friday one_event).1
unfolding refresh
refresh-facts_example = refresh-facts no_details (λ key. false) friday friday friday one_event refl

abbrev by_length : Parsers
by_length = record {
  int = λ raw. some (pos 5);
  from_iso = λ raw. if raw == "a+00:00" then some (friday, utc) else some (friday + day, utc);
}

abbrev one_day : CalendarRequest
one_day = record {
  start = friday;
  end = friday + day;
  types = "FOREX" ∷ [];
  currencies = [];
  impact = "HIGH" ∷ "LOW" ∷ [];
  limit = 5;
}

parse_economic_calendar_request_lem_example : IsValidRequest one_day
unfolding parse_economic_calendar_request signapse_mdg.Base.Text.ends_with
    signapse_mdg.Base.Text.replace_z
parse_economic_calendar_request_lem_example =
    parse_economic_calendar_request_lem by_length (λ s. s) (some "aZ") (some "bZ")
      (some "FOREX,FOREX") none (some "HIGH, LOW") (some "5") one_day refl

upsert_then_list_example :
    opening_at friday (newer ∷ [])
    ≡ in_range friday (friday + day) friday (
        written
          (row_key eur_usd "1h" friday)
          (newer ∷ [])
          (lookup (row_key eur_usd "1h" friday) one_row.candles))
unfolding upsert_complete list_complete
upsert_then_list_example =
    upsert_then_list one_row updated_row (newer ∷ forming ∷ []) (newer ∷ []) eur_usd "1h" friday
      (friday + day) friday one_row-IsSound refl refl
