-- ===== src/EconomicCalendar.antt =====
-- domain/economic_calendar.py, and the requests of services/economic_calendar.py. `str.upper` is a parameter,
-- with the parsers that the candle requests have.
pub mod Store
pub mod Claims
pub mod Once
pub mod Facts
pub mod Rewrites
pub mod Refresh
pub mod Refreshed
pub mod Parsed
use signapse_mdg.Base.{
  ℕ, Bool, true, false, not, ◌&&◌, ◌||◌, Option, none, some, List, [], ◌∷◌, map, String, string_eq,
  ◌==◌, contains, keep, any, ltb, leb, length, Error, economic_calendar_request, Result, ok, err,
  ◌>>=◌, if◌then◌else◌,
}
use signapse_mdg.Base.Text.{strip, ends_with, replace_z, split_commas, dedupe}
use signapse_mdg.Time.Timeframe.{ℤ, pos, negsuc, Zone, naive, utc, elsewhere}
use signapse_mdg.Requests.{Parsers}

-- What every fetch of an event writes anew.
pub record EventFacts : Type 0 where
  pub name : String
  pub currency : Option String
  pub impact : Option String
  pub scheduled_at : ℕ
  pub actual : Option String
  pub forecast : Option String
  pub previous : Option String
  pub revision : Option String
  pub actual_better_worse : Option String
  pub revision_better_worse : Option String

-- `EconomicCalendarFetchedEvent`
pub record FetchedEvent : Type 0 where
  pub calendar_type : String
  pub external_event_id : String
  pub facts : EventFacts
  pub description : Option String
  pub news_url : Option String

-- `EconomicCalendarEvent`
pub record CalendarEvent : Type 0 where
  pub calendar_type : String
  pub external_event_id : String
  pub facts : EventFacts
  pub description : Option String
  pub news_url : Option String
  pub first_seen_at : ℕ
  pub last_seen_at : ℕ
  pub last_changed_at : ℕ

pub record EnrichmentCandidate : Type 0 where
  pub calendar_type : String
  pub external_event_id : String

pub record Enrichment : Type 0 where
  pub calendar_type : String
  pub external_event_id : String
  pub description : Option String
  pub news_url : Option String

pub record CalendarRequest : Type 0 where
  pub start : ℕ
  pub end : ℕ
  pub types : List String
  pub currencies : List String
  pub impact : List String
  pub limit : ℕ

abbrev pub calendar_error : String → Error
calendar_error code = economic_calendar_request code

abbrev in_utc : Option (ℕ × Zone) → Result ℕ
in_utc none = err (calendar_error "INVALID_TIME_RANGE")
in_utc (some (t, utc)) = ok t
in_utc (some (t, naive)) = err (calendar_error "INVALID_TIME_RANGE")
in_utc (some (t, elsewhere)) = err (calendar_error "INVALID_TIME_RANGE")

-- `_parse_utc`
unfoldable pub parse_utc : Parsers → Option String → Result ℕ
parse_utc parsers none = err (calendar_error "INVALID_TIME_RANGE")
parse_utc parsers (some raw) =
    let value = strip raw in
    if value == "" || not (ends_with "Z" value || ends_with "+00:00" value)
    then err (calendar_error "INVALID_TIME_RANGE")
    else in_utc (parsers.from_iso (replace_z value))

abbrev some_values : String → List String → Result (List String)
some_values code [] = err (calendar_error code)
some_values code (value ∷ values) = ok (value ∷ values)

-- `_parse_csv` with `normalize`; `upper` is `str.upper`.
unfoldable pub parse_csv : (String → String) → Option String → String → Result (List String)
unfolding split_commas strip dedupe
parse_csv upper none code = ok []
parse_csv upper (some raw) code = some_values code (
    dedupe []
      (keep (λ value. not (value == "")) (map (λ part. upper (strip part)) (split_commas raw))))

abbrev pub default_limit : ℕ
default_limit = 1000

abbrev pub max_limit : ℕ
max_limit = 5000

abbrev bounded_limit : Option ℤ → Result ℕ
bounded_limit none = err (calendar_error "INVALID_LIMIT")
bounded_limit (some (negsuc n)) = err (calendar_error "INVALID_LIMIT")
bounded_limit (some (pos n)) =
    if ltb n 1 || ltb max_limit n then err (calendar_error "INVALID_LIMIT") else ok n

-- `_parse_limit`
unfoldable pub parse_limit : Parsers → Option String → Result ℕ
parse_limit parsers none = ok default_limit
parse_limit parsers (some raw) = bounded_limit (parsers.int (strip raw))

abbrev pub allowed_types : List String
allowed_types = "FOREX" ∷ "METALS" ∷ "ENERGY" ∷ "CRYPTO" ∷ []

unfoldable pub parse_economic_calendar_request :
    Parsers
    → (String → String)
    → Option String
    → Option String
    → Option String
    → Option String
    → Option String
    → Option String
    → Result CalendarRequest
unfolding parse_utc parse_csv parse_limit
parse_economic_calendar_request parsers upper raw_from raw_to raw_types raw_currencies raw_impact
      raw_limit =
    do
      start ← parse_utc parsers raw_from
      end ← parse_utc parsers raw_to
      ordered ← (if leb end start then err (calendar_error "INVALID_TIME_RANGE") else ok start)
      types ← parse_csv upper raw_types "INVALID_TYPES"
      allowed ←
          (if any (λ t. not (contains allowed_types t)) types
            then err (calendar_error "INVALID_TYPES")
            else ok types)
      currencies ← parse_csv upper raw_currencies "INVALID_CURRENCIES"
      impact ← parse_csv upper raw_impact "INVALID_IMPACT"
      limit ← parse_limit parsers raw_limit
      ok (record {
        start = start;
        end = end;
        types = types;
        currencies = currencies;
        impact = impact;
        limit = limit;
      })
