-- ===== src/EconomicCalendar/Parsed.antt =====
-- What a parsed calendar request satisfies.
use signapse_mdg.Base.{
  ℕ, ◌≤◌, ◌<◌, ◌≡◌, subst, false, not, Option, none, some, List, [], ◌∷◌, String, string_eq,
  string_lawful, arith, contains, any, leb, ok, err, >>=-eq-ok, ok-injective, err_not_ok,
  if◌then◌else◌,
}
use signapse_mdg.Base.Text.{HasDistinct, dedupe-HasDistinct, strip}
use signapse_mdg.Time.Timeframe.{ℤ, pos, negsuc}
use signapse_mdg.Requests.{Parsers}
use signapse_mdg.EconomicCalendar.{
  CalendarRequest, calendar_error, parse_utc, some_values, parse_csv, bounded_limit, parse_limit,
  allowed_types, parse_economic_calendar_request,
}

pub record IsValidRequest (r : CalendarRequest) : Type 0 where
  pub ordered : r.start < r.end
  pub allowed : any (λ t. not (contains allowed_types t)) r.types ≡ false
  pub types_once : HasDistinct r.types
  pub currencies_once : HasDistinct r.currencies
  pub impact_once : HasDistinct r.impact
  pub limit_low : 1 ≤ r.limit
  pub limit_high : r.limit ≤ 5000

some_values-eq-ok :
    (code : String) (values result : List String)
    → some_values code values ≡ ok result
    → values ≡ result
some_values-eq-ok code [] result h = absurd (err_not_ok h)
some_values-eq-ok code (v ∷ values) result h = ok-injective h

parse_csv_once :
    (upper : String → String) (raw : Option String) (code : String) (values : List String)
    → parse_csv upper raw code ≡ ok values
    → HasDistinct values
unfolding parse_csv
parse_csv_once upper none code values h = subst HasDistinct (ok-injective h) tt
parse_csv_once upper (some raw) code values h =
    subst HasDistinct (some_values-eq-ok code _ values h) (dedupe-HasDistinct [] _)

bounded_limit_fits :
    (n : Option ℤ) (limit : ℕ) → bounded_limit n ≡ ok limit → (1 ≤ limit) × (limit ≤ 5000)
bounded_limit_fits none limit h = absurd (err_not_ok h)
bounded_limit_fits (some (negsuc n)) limit h = absurd (err_not_ok h)
bounded_limit_fits (some (pos n)) limit h = ground (arith, h)

parse_limit_fits :
    (parsers : Parsers) (raw : Option String) (limit : ℕ)
    → parse_limit parsers raw ≡ ok limit
    → (1 ≤ limit) × (limit ≤ 5000)
unfolding parse_limit
parse_limit_fits parsers none limit h = ground (arith, h)
parse_limit_fits parsers (some raw) limit h = bounded_limit_fits (parsers.int (strip raw)) limit h

-- A request that is parsed has its start before its end, a limit from 1 to 5000, types that are all among
-- FOREX, METALS, ENERGY and CRYPTO, and no type, currency or impact twice, whatever the parsers and `upper` give.
pub parse_economic_calendar_request_lem :
    (parsers : Parsers) (upper : String → String)
    (raw_from raw_to raw_types raw_currencies raw_impact raw_limit : Option String)
    (r : CalendarRequest)
    → parse_economic_calendar_request parsers upper raw_from raw_to raw_types raw_currencies
        raw_impact raw_limit
      ≡ ok r
    → IsValidRequest r
unfolding parse_economic_calendar_request
parse_economic_calendar_request_lem parsers upper raw_from raw_to raw_types raw_currencies
      raw_impact raw_limit r h =
    let (start, at_start, h1) = >>=-eq-ok (parse_utc parsers raw_from) _ h in
    let (end, at_end, h2) = >>=-eq-ok (parse_utc parsers raw_to) _ h1 in
    let (o, ordered, h3) =
      >>=-eq-ok (if leb end start then err (calendar_error "INVALID_TIME_RANGE") else ok start) _
        h2 in
    let (types, at_types, h4) = >>=-eq-ok (parse_csv upper raw_types "INVALID_TYPES") _ h3 in
    let (a, allowed, h5) =
      >>=-eq-ok
        (if any (λ t. not (contains allowed_types t)) types
          then err (calendar_error "INVALID_TYPES")
          else ok types)
        _ h4 in
    let (currencies, at_currencies, h6) =
      >>=-eq-ok (parse_csv upper raw_currencies "INVALID_CURRENCIES") _ h5 in
    let (impact, at_impact, h7) = >>=-eq-ok (parse_csv upper raw_impact "INVALID_IMPACT") _ h6 in
    let (limit, at_limit, h8) = >>=-eq-ok (parse_limit parsers raw_limit) _ h7 in
    let fits = parse_limit_fits parsers raw_limit limit at_limit in
    subst IsValidRequest (ok-injective h8) (record {
      ordered = ground (arith, ordered);
      allowed = ground (arith, allowed);
      types_once = parse_csv_once upper raw_types "INVALID_TYPES" types at_types;
      currencies_once =
          parse_csv_once upper raw_currencies "INVALID_CURRENCIES" currencies at_currencies;
      impact_once = parse_csv_once upper raw_impact "INVALID_IMPACT" impact at_impact;
      limit_low = fits.0;
      limit_high = fits.1;
    })
