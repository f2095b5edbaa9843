-- ===== src/Database.antt =====
-- db/repositories.py over tables. A statement reads or writes the rows that its text names; whether the
-- database raises SQLAlchemyError for it is a field of the state.
pub mod Ordering
pub mod Candles
pub mod Symbols
use Prim.Native.Char.{code}
use signapse_mdg.Base.{
  ℕ, Bool, true, false, not, ◌&&◌, ◌||◌, Option, none, some, List, [], ◌∷◌, map, String, string_eq,
  nat_eq, Eq, ◌==◌, keep, any, first, contains, ltb, leb, length, nat_beq, Dict, insert, lookup,
  values, Error, database_unavailable, Result, ok, err, ◌>>=◌, if◌then◌else◌,
}
use signapse_mdg.Symbols.{ProviderMapping, SupportedSymbol, mappings, with_mapping}
use signapse_mdg.Candles.{Candle}

-- The comparison of two strings by their code points.
unfoldable pub string_leb : String → String → Bool
string_leb String.[] right = true
string_leb (String.◌∷◌ c left) String.[] = false
string_leb (String.◌∷◌ c left) (String.◌∷◌ d right) =
    let rest = string_leb left right in ltb (code c) (code d) || (nat_beq (code c) (code d) && rest)

-- A stable sort, as `sorted` and ORDER BY give it: `before a b` is that `a` need not come after `b`.
module _ {A : Type 0} (before : A → A → Bool) where
  abbrev pub place : A → List A → List A
  place a [] = a ∷ []
  place a (b ∷ more) = let rest = place a more in if before a b then a ∷ b ∷ more else b ∷ rest

  abbrev pub sorted_by : List A → List A
  sorted_by [] = []
  sorted_by (a ∷ more) = place a (sorted_by more)

-- The unique columns of a candle: provider, provider symbol, timeframe and open time.
abbrev pub CandleKey : Type 0
CandleKey = String × String × String × ℕ

abbrev pub candle_key_beq : CandleKey → CandleKey → Bool
candle_key_beq (p, s, t, o) (p', s', t', o') = p == p' && (s == s' && (t == t' && o == o'))

instance abbrev pub candle_key_eq : Eq CandleKey
candle_key_eq = record { beq = candle_key_beq }

abbrev pub candle_key : Candle → CandleKey
candle_key c = (c.provider, c.provider_symbol, c.timeframe, c.open_time)

pub record MappingRow : Type 0 where
  pub provider : String
  pub provider_symbol : String
  pub is_active : Bool

-- A symbol with the rows of its mappings, which the outer join gives together.
pub record SymbolRow : Type 0 where
  pub symbol : String
  pub asset_class : String
  pub price_display_decimals : ℕ
  pub calendar_source : Option String
  pub calendar_name : Option String
  pub calendar_timezone : Option String
  pub enabled : Bool
  pub mappings : List MappingRow

pub record Tables : Type 0 where
  pub symbols : List SymbolRow
  pub candles : Dict CandleKey Candle
  pub broken : Bool

-- `(not mapping.is_active, mapping.provider)`, compared
abbrev pub mapping_before : MappingRow → MappingRow → Bool
mapping_before a b =
    if a.is_active
    then not b.is_active || string_leb a.provider b.provider
    else not b.is_active && string_leb a.provider b.provider

abbrev to_mapping : MappingRow → ProviderMapping
to_mapping m = record {
  provider = m.provider;
  provider_symbol = m.provider_symbol;
  is_default = m.is_active;
}

abbrev supported : SymbolRow → List MappingRow → List MappingRow → Result SupportedSymbol
supported row ordered (default ∷ []) = ok (record {
  symbol = row.symbol;
  asset_class = row.asset_class;
  provider = default.provider;
  provider_symbol = default.provider_symbol;
  enabled = row.enabled;
  price_display_decimals = row.price_display_decimals;
  calendar_source = row.calendar_source;
  calendar_name = row.calendar_name;
  calendar_timezone = row.calendar_timezone;
  provider_mappings = map to_mapping ordered;
})
supported row ordered defaults = err (database_unavailable "DATABASE_QUERY_FAILED")

-- `_to_supported_symbol`
unfoldable pub to_supported_symbol : SymbolRow → List MappingRow → Result SupportedSymbol
unfolding string_leb
to_supported_symbol row rows =
    let ordered = sorted_by mapping_before rows in
    supported row ordered (keep (λ m. m.is_active) ordered)

abbrev all_supported : List SymbolRow → Result (List SupportedSymbol)
all_supported [] = ok []
all_supported (row ∷ more) = do
  symbol ← to_supported_symbol row row.mappings
  rest ← all_supported more
  ok (symbol ∷ rest)

abbrev symbol_before : SymbolRow → SymbolRow → Bool
symbol_before a b = string_leb a.symbol b.symbol

-- `PostgresSymbolRepository.list_enabled`
unfoldable pub list_enabled : Tables → Result (List SupportedSymbol)
unfolding string_leb to_supported_symbol
list_enabled tables =
    if tables.broken
    then err (database_unavailable "DATABASE_QUERY_FAILED")
    else all_supported (sorted_by symbol_before (keep (λ row. row.enabled) tables.symbols))

abbrev selected : Option String → SupportedSymbol → Option SupportedSymbol
selected none resolved = some resolved
selected (some provider) resolved = elim (first (λ m. m.provider == provider) (mappings resolved)) [
  | none ↦ none
  | some m ↦ some (with_mapping resolved m)
]

abbrev found : Option String → Option SymbolRow → Result (Option SupportedSymbol)
found provider none = ok none
found provider (some row) =
    to_supported_symbol row row.mappings >>= λ resolved. ok (selected provider resolved)

-- `PostgresCandleRepository.get_enabled_symbol`
unfoldable pub get_enabled_symbol :
    Tables → String → Option String → Result (Option SupportedSymbol)
unfolding to_supported_symbol mappings with_mapping
get_enabled_symbol tables symbol provider =
    if tables.broken
    then err (database_unavailable "DATABASE_QUERY_FAILED")
    else found provider (first (λ row. row.symbol == symbol && row.enabled) tables.symbols)

abbrev pub is_listed : SupportedSymbol → String → ℕ → ℕ → Candle → Bool
is_listed symbol timeframe start end c =
    c.provider == symbol.provider
    && (c.provider_symbol == symbol.provider_symbol
        && (c.timeframe == timeframe
            && (leb start c.open_time && (ltb c.open_time end && c.complete))))

abbrev pub opens_before : Candle → Candle → Bool
opens_before a b = leb a.open_time b.open_time

-- `PostgresCandleRepository.list_complete`
unfoldable pub list_complete : Tables → SupportedSymbol → String → ℕ → ℕ → Result (List Candle)
list_complete tables symbol timeframe start end =
    if tables.broken
    then err (database_unavailable "DATABASE_QUERY_FAILED")
    else ok (
        sorted_by opens_before
          (keep (is_listed symbol timeframe start end) (values tables.candles)))

-- ON CONFLICT DO UPDATE raises where two of the rows of one INSERT have the same key.
abbrev pub has_repeats : List Candle → Bool
has_repeats [] = false
has_repeats (c ∷ more) = any (λ d. candle_key d == candle_key c) more || has_repeats more

abbrev pub insert_all : List Candle → Dict CandleKey Candle → Dict CandleKey Candle
insert_all [] table = table
insert_all (c ∷ more) table = insert_all more (insert (candle_key c) c table)

abbrev stored_all : List Candle → Tables → Result Tables
stored_all [] tables = ok tables
stored_all (c ∷ more) tables =
    if tables.broken || has_repeats (c ∷ more)
    then err (database_unavailable "DATABASE_WRITE_FAILED")
    else ok (record tables { candles = insert_all (c ∷ more) tables.candles })

-- `PostgresCandleRepository.upsert_complete`
unfoldable pub upsert_complete : Tables → List Candle → Result Tables
unfolding insert
upsert_complete tables candles = stored_all (keep (λ c. c.complete) candles) tables
