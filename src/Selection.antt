-- ===== src/Selection.antt =====
-- services/provider_selection.py. Log lines and counters are left out.
pub mod Laws
use signapse_mdg.Base.{
  Bool, true, false, Option, none, some, List, [], ◌∷◌, String, string_eq, ◌==◌, Error, Result, ok,
  err, provider_selection, ◌>>=◌, keep, first, if◌then◌else◌,
}
use signapse_mdg.Base.Text.{strip}
use signapse_mdg.Symbols.{
  ProviderMapping, SelectionMode, default_mode, override_mode, ProviderSelection, SupportedSymbol,
  mappings, with_mapping,
}

-- `error_type` is the exception that the caller wants.
unfoldable pub parse_provider_values : (String → Error) → List String → Result (Option String)
parse_provider_values error_type [] = ok none
parse_provider_values error_type (value ∷ []) =
    if strip value == "" then err (error_type "INVALID_PROVIDER") else ok (some value)
parse_provider_values error_type (value ∷ other ∷ more) = err (error_type "INVALID_PROVIDER")

-- The only default mapping.
abbrev pub only_default : List ProviderMapping → Result ProviderMapping
only_default (default ∷ []) = ok default
only_default [] = err (provider_selection "DATABASE_UNAVAILABLE")
only_default (a ∷ b ∷ more) = err (provider_selection "DATABASE_UNAVAILABLE")

abbrev pub select : List ProviderMapping → ProviderMapping → Option String → Option ProviderMapping
select ms default none = some default
select ms default (some provider) = first (λ m. m.provider == provider) ms

abbrev pub mode_of : Option String → SelectionMode
mode_of none = default_mode
mode_of (some provider) = override_mode

abbrev selected_result :
    SupportedSymbol
    → Option String
    → Option ProviderMapping
    → Result (SupportedSymbol × ProviderSelection)
selected_result symbol provider none = err (provider_selection "UNSUPPORTED_PROVIDER")
selected_result symbol provider (some m) = ok (
  with_mapping symbol m,
  record {
    symbol = symbol.symbol;
    provider = m.provider;
    provider_symbol = m.provider_symbol;
    mode = mode_of provider;
  },
)

unfoldable pub resolve_provider_selection :
    SupportedSymbol → Option String → Result (SupportedSymbol × ProviderSelection)
unfolding mappings with_mapping
resolve_provider_selection symbol provider = do
  default ← only_default (keep (λ m. m.is_default) (mappings symbol))
  selected_result symbol provider (select (mappings symbol) default provider)
