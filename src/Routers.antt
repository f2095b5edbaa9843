-- ===== src/Routers.antt =====
-- services/quote_provider_router.py and services/candle_provider_router.py: which provider is asked for
-- which symbol. A set of symbols is the list of its members.
pub mod Groups
use signapse_mdg.Base.{
  ℕ, Bool, true, false, Option, none, some, List, [], ◌∷◌, ◌++◌, String, string_eq, ◌==◌, Dict,
  lookup, insert, update, Error, provider_unavailable, Result, ok, err, ◌>>=◌, if◌then◌else◌,
}
use signapse_mdg.Symbols.{SupportedSymbol}
use signapse_mdg.Candles.{Candle, Decimal}
use signapse_mdg.Quotes.{ProviderQuoteBatch}
use signapse_mdg.Gateway.{CandleProvider, FetchCall}

-- `ProviderSymbolQuoteProvider.fetch_latest_prices`
abbrev pub SymbolQuoteProvider : Type 0
SymbolQuoteProvider = List String → Result ProviderQuoteBatch

abbrev pub or_empty : Option (List String) → List String
or_empty none = []
or_empty (some symbols) = symbols

-- The loop of `_group_by_provider`.
abbrev pub group_into : Dict String (List String) → List SupportedSymbol → Dict String (List String)
group_into grouped [] = grouped
group_into grouped (s ∷ more) =
    group_into
      (insert s.provider (or_empty (lookup s.provider grouped) ++ s.provider_symbol ∷ []) grouped)
      more

-- `_group_by_provider`
unfoldable pub group_by_provider : List SupportedSymbol → Dict String (List String)
unfolding insert lookup
group_by_provider symbols = group_into [] symbols

abbrev pub no_batch : ProviderQuoteBatch
no_batch = record { prices = []; unavailable_symbols = [] }

abbrev pub all_unavailable : List String → ProviderQuoteBatch → ProviderQuoteBatch
all_unavailable symbols batch = record batch {
  unavailable_symbols = batch.unavailable_symbols ++ symbols;
}

abbrev pub is_unavailable : Error → Bool
is_unavailable (provider_unavailable reason) = true
is_unavailable e = false

-- The answer of one provider, put into what was gathered before.
abbrev pub gather :
    List String → Result ProviderQuoteBatch → ProviderQuoteBatch → Result ProviderQuoteBatch
gather symbols (ok answer) batch = ok (record {
  prices = update batch.prices answer.prices;
  unavailable_symbols = batch.unavailable_symbols ++ answer.unavailable_symbols;
})
gather symbols (err e) batch =
    if is_unavailable e then ok (all_unavailable symbols batch) else err e

abbrev pub ask :
    Option SymbolQuoteProvider → List String → ProviderQuoteBatch → Result ProviderQuoteBatch
ask none symbols batch = ok (all_unavailable symbols batch)
ask (some provider) symbols batch = gather symbols (provider symbols) batch

-- The loop over the groups.
unfoldable pub fetch_groups :
    Dict String SymbolQuoteProvider
    → Dict String (List String)
    → ProviderQuoteBatch
    → Result ProviderQuoteBatch
unfolding lookup update
fetch_groups providers [] batch = ok batch
fetch_groups providers ((name, symbols) ∷ more) batch = do
  batch' ← ask (lookup name providers) symbols batch
  fetch_groups providers more batch'

-- `QuoteProviderRouter.fetch_latest_prices`; no symbols make no groups.
unfoldable pub fetch_latest_prices :
    Dict String SymbolQuoteProvider → List SupportedSymbol → Result ProviderQuoteBatch
unfolding group_by_provider fetch_groups
fetch_latest_prices providers symbols = fetch_groups providers (group_by_provider symbols) no_batch

-- `CandleProviderRouter.fetch_candles`
unfoldable pub route_candles : Dict String CandleProvider → CandleProvider
unfolding lookup
route_candles providers calls call = elim (lookup call.symbol.provider providers) [
  | none ↦ err (provider_unavailable "PROVIDER_NOT_CONFIGURED")
  | some provider ↦ provider calls call
]
