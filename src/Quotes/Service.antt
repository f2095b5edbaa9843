-- ===== src/Quotes/Service.antt =====
-- services/quotes.py. Each reading of the clock is a parameter, and so is the cache as it is found once the
-- refresh lock is held: other requests may have filled it meanwhile.
pub mod Answers
pub mod Parsing
use signapse_mdg.Base.{
  true, Error, ℕ, nat_eq, Bool, false, not, Option, none, some, List, [], ◌∷◌, ◌++◌, map, String,
  string_eq, ◌==◌, quote_request, provider_unavailable, provider_selection, database_unavailable,
  Result, ok, err, ◌>>=◌, Dict, lookup, insert, update, has_key, contains, keep, length, leb,
  if◌then◌else◌,
}
use signapse_mdg.Base.Text.{strip, split_commas, dedupe}
use signapse_mdg.Symbols.{SupportedSymbol, ProviderSelection}
use signapse_mdg.Selection.{resolve_provider_selection}
use signapse_mdg.Quotes.{
  Quote, QuoteError, QuoteResult, ProviderQuoteBatch, QuoteStore, by_symbol, get_many, put_many,
  age,
}

abbrev non_empty : String → Bool
non_empty s = not (s == "")

abbrev check_symbols : ℕ → List String → Result (List String)
check_symbols max_symbols symbols =
    if length symbols == 0
    then err (quote_request "INVALID_SYMBOLS")
    else if leb (length symbols) max_symbols
    then ok symbols
    else err (quote_request "TOO_MANY_SYMBOLS")

unfoldable pub parse_symbols : Option String → ℕ → Result (List String)
parse_symbols none max_symbols = err (quote_request "INVALID_SYMBOLS")
parse_symbols (some raw) max_symbols =
    check_symbols max_symbols (dedupe [] (keep non_empty (map strip (split_commas raw))))

-- `QuoteProvider.fetch_latest_prices`
abbrev pub QuoteProvider : Type 0
QuoteProvider = List SupportedSymbol → Result ProviderQuoteBatch

-- The clock's readings: at the start, when the lock is held, when the prices have come, and at the
-- fall back for a symbol.
pub record Readings : Type 0 where
  pub start : ℕ
  pub locked : ℕ
  pub received : ℕ
  pub fallback : SupportedSymbol → ℕ

abbrev pub Quotes : Type 0
Quotes = Dict String Quote

abbrev pub Errors : Type 0
Errors = Dict String QuoteError

-- The quotes and errors found so far.
abbrev pub Found : Type 0
Found = Quotes × Errors

abbrev fail : SupportedSymbol → String → Errors → Errors
fail item code errors = insert item.symbol (record { symbol = item.symbol; code = code }) errors

-- `_use_fallback`
unfoldable pub use_fallback : ℕ → Readings → SupportedSymbol → Option Quote → Found → Found
unfolding age
use_fallback stale_after clock item none (resolved, errors) =
    (resolved, fail item "PROVIDER_UNAVAILABLE" errors)
use_fallback stale_after clock item (some quote) (resolved, errors) =
    if leb (age quote (clock.fallback item)) stale_after
    then (insert item.symbol quote resolved, errors)
    else (resolved, fail item "DATA_STALE" errors)

-- `_use_fallbacks`
unfoldable pub use_fallbacks : ℕ → Readings → List SupportedSymbol → Quotes → Found → Found
unfolding use_fallback
use_fallbacks stale_after clock [] cached found = found
use_fallbacks stale_after clock (item ∷ more) cached found =
    use_fallbacks stale_after clock more cached
      (use_fallback stale_after clock item (lookup item.symbol cached) found)

abbrev priced : Readings → SupportedSymbol → ProviderQuoteBatch → Option Quote
priced clock item batch = elim (lookup item.provider_symbol batch.prices) [
  | none ↦ none
  | some price ↦
      if contains batch.unavailable_symbols item.provider_symbol
      then none
      else some (record {
        symbol = item.symbol;
        asset_class = item.asset_class;
        provider = item.provider;
        provider_symbol = item.provider_symbol;
        price = price;
        volume = none;
        provider_time = none;
        received_at = clock.received;
        stale = false;
      })
]

abbrev use_price : ℕ → Readings → SupportedSymbol → Quotes → Option Quote → Found → Found
use_price stale_after clock item cached none found =
    use_fallback stale_after clock item (lookup item.symbol cached) found
use_price stale_after clock item cached (some quote) (resolved, errors) =
    (insert item.symbol quote resolved, errors)

abbrev with_quote : Option Quote → List Quote → List Quote
with_quote none quotes = quotes
with_quote (some quote) quotes = quote ∷ quotes

-- The loop over the pending symbols: what is found, and the quotes that are new.
unfoldable pub use_prices :
    ℕ → Readings → ProviderQuoteBatch → List SupportedSymbol → Quotes → Found → Found × List Quote
unfolding use_fallback lookup
use_prices stale_after clock batch [] cached found = (found, [])
use_prices stale_after clock batch (item ∷ more) cached found =
    let quote = priced clock item batch in
    let (after, refreshed) =
      use_prices stale_after clock batch more cached
        (use_price stale_after clock item cached quote found) in
    (after, with_quote quote refreshed)

-- `except ProviderUnavailableError`
abbrev is_unavailable : Error → Bool
is_unavailable (provider_unavailable reason) = true
is_unavailable e = false

abbrev refreshed_by :
    ℕ
    → Readings
    → Result ProviderQuoteBatch
    → List SupportedSymbol
    → Quotes
    → Found
    → QuoteStore
    → Result (Found × QuoteStore)
refreshed_by stale_after clock (ok batch) pending cached found store =
    let (after, refreshed) = use_prices stale_after clock batch pending cached found in
    ok (after, put_many refreshed store)
refreshed_by stale_after clock (err e) pending cached found store =
    if is_unavailable e
    then ok (use_fallbacks stale_after clock pending cached found, store)
    else err e

-- `_refresh`
unfoldable pub refresh :
    ℕ
    → Readings
    → QuoteProvider
    → List SupportedSymbol
    → Quotes
    → Found
    → QuoteStore
    → Result (Found × QuoteStore)
unfolding use_prices use_fallbacks put_many
refresh stale_after clock provider pending cached found store =
    refreshed_by stale_after clock (provider pending) pending cached found store

abbrev fresh : ℕ → ℕ → Option Quote → Bool
fresh ttl now none = false
fresh ttl now (some quote) = leb (age quote now) ttl

abbrev take_quote : String → Option Quote → Quotes → Quotes
take_quote name none quotes = quotes
take_quote name (some quote) quotes = insert name quote quotes

-- Takes the fresh quotes of the cache; the other symbols stay pending.
unfoldable pub take_fresh :
    ℕ → ℕ → Quotes → List SupportedSymbol → Quotes → Quotes × List SupportedSymbol
unfolding lookup insert age
take_fresh ttl now cached [] resolved = (resolved, [])
take_fresh ttl now cached (item ∷ more) resolved =
    let quote = lookup item.symbol cached in
    let is_fresh = fresh ttl now quote in
    let (after, pending) =
      take_fresh ttl now cached more
        (if is_fresh then take_quote item.symbol quote resolved else resolved) in
    (after, if is_fresh then pending else item ∷ pending)

abbrev refresh_pending :
    ℕ
    → Readings
    → QuoteProvider
    → Quotes
    → Errors
    → QuoteStore
    → Quotes × List SupportedSymbol
    → Result (Found × QuoteStore)
refresh_pending stale_after clock provider cached errors store (resolved, []) =
    ok ((resolved, errors), store)
refresh_pending stale_after clock provider cached errors store (resolved, item ∷ more) =
    refresh stale_after clock provider (item ∷ more) cached (resolved, errors) store

abbrev resolve_locked :
    ℕ
    → ℕ
    → Readings
    → QuoteProvider
    → Errors
    → QuoteStore
    → QuoteStore
    → Quotes × List SupportedSymbol
    → Result (Found × QuoteStore)
resolve_locked ttl stale_after clock provider errors store locked (resolved, []) =
    ok ((resolved, errors), store)
resolve_locked ttl stale_after clock provider errors store locked (resolved, item ∷ more) =
    let cached = get_many (map by_symbol (item ∷ more)) locked in
    refresh_pending stale_after clock provider cached errors locked
      (take_fresh ttl clock.locked cached (item ∷ more) resolved)

-- `_resolve_supported`. `store` is the cache at the start, `locked` the cache when the lock is held.
unfoldable pub resolve_supported :
    ℕ
    → ℕ
    → Readings
    → QuoteProvider
    → List SupportedSymbol
    → Errors
    → QuoteStore
    → QuoteStore
    → Result (Found × QuoteStore)
unfolding take_fresh refresh get_many
resolve_supported ttl stale_after clock provider supported errors store locked =
    resolve_locked ttl stale_after clock provider errors store locked
      (take_fresh ttl clock.start (get_many (map by_symbol supported) store) supported [])

abbrev known : Dict String SupportedSymbol → String → Bool
known registry name = has_key name registry

-- An error for each symbol that is not in the registry.
abbrev unsupported : Dict String SupportedSymbol → List String → Errors → Errors
unsupported registry [] errors = errors
unsupported registry (name ∷ more) errors = unsupported registry more (
    if known registry name
    then errors
    else insert name (record { symbol = name; code = "UNSUPPORTED_SYMBOL" }) errors)

abbrev selected_or :
    String
    → Result (SupportedSymbol × ProviderSelection)
    → Errors
    → Result (List SupportedSymbol × Errors)
selected_or name (ok (selected, selection)) errors = ok (selected ∷ [], errors)
selected_or name (err (provider_selection code)) errors =
    if code == "UNSUPPORTED_PROVIDER"
    then ok ([], insert name (record { symbol = name; code = code }) errors)
    else err (database_unavailable "DATABASE_QUERY_FAILED")
selected_or name (err e) errors = err e

abbrev select_one :
    Option String
    → String
    → Option SupportedSymbol
    → Errors
    → Result (List SupportedSymbol × Errors)
select_one provider name none errors = ok ([], errors)
select_one provider name (some symbol) errors =
    selected_or name (resolve_provider_selection symbol provider) errors

-- The loop over the requested symbols.
unfoldable pub select_supported :
    Option String
    → Dict String SupportedSymbol
    → List String
    → Errors
    → Result (List SupportedSymbol × Errors)
unfolding lookup insert
select_supported provider registry [] errors = ok ([], errors)
select_supported provider registry (name ∷ more) errors = do
  first ← select_one provider name (lookup name registry) errors
  rest ← select_supported provider registry more first.1
  ok (first.0 ++ rest.0, rest.1)

-- `[d[key] for key in names if key in d]`
abbrev pub collect : {V : Type 0} → Dict String V → List String → List V
collect d [] = []
collect d (name ∷ more) = elim (lookup name d) [
  | none ↦ collect d more
  | some v ↦ v ∷ collect d more
]

abbrev decimals : Dict String SupportedSymbol → List String → Dict String ℕ → Dict String ℕ
decimals registry [] result = result
decimals registry (name ∷ more) result = decimals registry more (elim (lookup name registry) [
  | none ↦ result
  | some symbol ↦ insert name symbol.price_display_decimals result
])

abbrev registry_of : List SupportedSymbol → Dict String SupportedSymbol
registry_of symbols = update [] (map (λ symbol. (symbol.symbol, symbol)) symbols)

-- `resolve_supported`, which asks nothing where no symbol is supported.
abbrev resolve_any :
    ℕ
    → ℕ
    → Readings
    → QuoteProvider
    → QuoteStore
    → QuoteStore
    → List SupportedSymbol
    → Errors
    → Result (Found × QuoteStore)
resolve_any ttl stale_after clock provider store locked [] errors = ok (([], errors), store)
resolve_any ttl stale_after clock provider store locked (item ∷ more) errors =
    resolve_supported ttl stale_after clock provider (item ∷ more) errors store locked

-- `get_latest_quotes`. `enabled` is what the repository lists.
unfoldable pub get_latest_quotes :
    ℕ
    → ℕ
    → Readings
    → QuoteProvider
    → Result (List SupportedSymbol)
    → List String
    → Option String
    → QuoteStore
    → QuoteStore
    → Result (QuoteResult × QuoteStore)
unfolding select_supported resolve_supported
get_latest_quotes ttl stale_after clock quote_provider enabled requested provider store locked = do
  symbols ← enabled
  let registry = registry_of symbols
  selection ← select_supported provider registry requested (unsupported registry requested [])
  answer ← resolve_any ttl stale_after clock quote_provider store locked selection.0 selection.1
  ok (
    record {
      quotes = collect answer.0.0 requested;
      errors = collect answer.0.1 requested;
      price_display_decimals = decimals registry requested [];
    },
    answer.1,
  )
