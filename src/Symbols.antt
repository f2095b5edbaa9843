-- ===== src/Symbols.antt =====
-- domain/symbols.py
use signapse_mdg.Base.{Bool, true, Option, List, [], ◌∷◌, String, ℕ}

pub record ProviderMapping : Type 0 where
  pub provider : String
  pub provider_symbol : String
  pub is_default : Bool

-- `SelectionMode`
pub data SelectionMode : Type 0 where
  default_mode override_mode : SelectionMode

pub record ProviderSelection : Type 0 where
  pub symbol : String
  pub provider : String
  pub provider_symbol : String
  pub mode : SelectionMode

-- `identity`
unfoldable pub identity : ProviderSelection → String × String × String
identity s = (s.symbol, s.provider, s.provider_symbol)

pub record SupportedSymbol : Type 0 where
  pub symbol : String
  pub asset_class : String
  pub provider : String
  pub provider_symbol : String
  pub enabled : Bool
  pub price_display_decimals : ℕ
  pub calendar_source : Option String
  pub calendar_name : Option String
  pub calendar_timezone : Option String
  pub provider_mappings : List ProviderMapping

-- The stored mappings, or the symbol's own provider where there is none.
abbrev mappings_or : SupportedSymbol → List ProviderMapping → List ProviderMapping
mappings_or s [] =
    record { provider = s.provider; provider_symbol = s.provider_symbol; is_default = true } ∷ []
mappings_or s (m ∷ more) = m ∷ more

-- `mappings`
unfoldable pub mappings : SupportedSymbol → List ProviderMapping
mappings s = mappings_or s s.provider_mappings

unfoldable pub with_mapping : SupportedSymbol → ProviderMapping → SupportedSymbol
with_mapping s m = record s { provider = m.provider; provider_symbol = m.provider_symbol }
