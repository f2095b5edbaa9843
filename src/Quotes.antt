-- ===== src/Quotes.antt =====
-- domain/quotes.py and cache/quote_cache.py. The messages of errors are left out: each code has one.
-- Durations are in microseconds, as instants are.
pub mod Service
use signapse_mdg.Base.{
  ℕ, ◌-◌, Bool, true, false, ◌&&◌, Option, none, some, List, [], ◌∷◌, map, String, string_eq, Eq,
  ◌==◌, Dict, lookup, insert, update, keep, values, if◌then◌else◌,
}
use signapse_mdg.Symbols.{SupportedSymbol}
use signapse_mdg.Candles.{Decimal}

pub record Quote : Type 0 where
  pub symbol : String
  pub asset_class : String
  pub provider : String
  pub provider_symbol : String
  pub price : Decimal
  pub volume : Option Decimal
  pub provider_time : Option ℕ
  pub received_at : ℕ
  pub stale : Bool

pub record QuoteError : Type 0 where
  pub symbol : String
  pub code : String

pub record QuoteResult : Type 0 where
  pub quotes : List Quote
  pub errors : List QuoteError
  pub price_display_decimals : Dict String ℕ

pub record ProviderQuoteBatch : Type 0 where
  pub prices : Dict String Decimal
  pub unavailable_symbols : List String

pub record QuoteKey : Type 0 where
  pub symbol : String
  pub provider : String
  pub provider_symbol : String

abbrev pub quote_key_beq : QuoteKey → QuoteKey → Bool
quote_key_beq a b =
    a.symbol == b.symbol && (a.provider == b.provider && a.provider_symbol == b.provider_symbol)

instance abbrev pub quote_key_eq : Eq QuoteKey
quote_key_eq = record { beq = quote_key_beq }

abbrev pub QuoteStore : Type 0
QuoteStore = Dict QuoteKey Quote

-- `_cache_key` of a symbol, and of a quote.
unfoldable pub symbol_key : SupportedSymbol → QuoteKey
symbol_key s = record {
  symbol = s.symbol;
  provider = s.provider;
  provider_symbol = s.provider_symbol;
}

unfoldable pub quote_key : Quote → QuoteKey
quote_key q = record {
  symbol = q.symbol;
  provider = q.provider;
  provider_symbol = q.provider_symbol;
}

-- What `get_many` is asked for: a symbol with its provider, or a name alone.
pub data Wanted : Type 0 where
  by_symbol : SupportedSymbol → Wanted
  by_name : String → Wanted

abbrev pub add_found : String → Option Quote → Dict String Quote → Dict String Quote
add_found name none result = result
add_found name (some quote) result = insert name quote result

abbrev pub only_match : List Quote → Option Quote
only_match [] = none
only_match (q ∷ []) = some q
only_match (p ∷ q ∷ more) = none

abbrev pub get_one : QuoteStore → Wanted → Dict String Quote → Dict String Quote
get_one store (by_symbol s) result = add_found s.symbol (lookup (symbol_key s) store) result
get_one store (by_name name) result =
    add_found name (only_match (values (keep (λ entry. entry.0.symbol == name) store))) result

abbrev pub get_into : QuoteStore → List Wanted → Dict String Quote → Dict String Quote
get_into store [] result = result
get_into store (x ∷ more) result = get_into store more (get_one store x result)

unfoldable pub get_many : List Wanted → QuoteStore → Dict String Quote
unfolding lookup insert symbol_key
get_many wanted store = get_into store wanted []

unfoldable pub put_many : List Quote → QuoteStore → QuoteStore
unfolding update quote_key
put_many quotes store = update store (update [] (map (λ quote. (quote_key quote, quote)) quotes))

-- `age_seconds`: 0 for a quote from the future.
unfoldable pub age : Quote → ℕ → ℕ
age quote now = now - quote.received_at
