-- ===== src/Database/Symbols.antt =====
-- The rows of the symbols, and the repositories as the services see them.
use mathlib.Core.List.{Memᴰ}
use signapse_mdg.Base.{
  ◌≡◌, ◌≢◌, refl, sym, true, none, List, [], ◌∷◌, string_eq, arith, All, All-mono, All-keep,
  All-keep_test, keep, Result, ok, err, database_unavailable, length,
}
use signapse_mdg.Symbols.{SupportedSymbol}
use signapse_mdg.Gateway.{Repository}
use signapse_mdg.Database.Ordering.{All-sorted_by}
use signapse_mdg.Database.{
  place, sorted_by, MappingRow, SymbolRow, Tables, mapping_before, to_supported_symbol, supported,
  get_enabled_symbol, list_complete, upsert_complete,
}

-- `CandleRepository` by the tables.
unfoldable pub repository : Repository Tables
unfolding get_enabled_symbol list_complete upsert_complete
repository = record {
  get_enabled_symbol = λ tables symbol. get_enabled_symbol tables symbol none;
  list_complete = list_complete;
  upsert_complete = upsert_complete;
}

abbrev pub active : List MappingRow → List MappingRow
active rows = keep (λ m. m.is_active) rows

active-place :
    (m : MappingRow) (rows : List MappingRow)
    → length (active (place mapping_before m rows)) ≡ length (active (m ∷ rows))
active-place m [] = refl
active-place m (n ∷ rows) = ground (arith, active-place m rows)

active-sorted_by :
    (rows : List MappingRow)
    → length (active (sorted_by mapping_before rows)) ≡ length (active rows)
active-sorted_by [] = refl
active-sorted_by (m ∷ rows) =
    ground (arith, active-place m (sorted_by mapping_before rows), active-sorted_by rows)

All-Memᴰ : (rows : List MappingRow) → All (λ m. Memᴰ m rows) rows
All-Memᴰ [] = tt
All-Memᴰ (m ∷ rows) = (
  Memᴰ.head refl,
  All-mono (λ n. Memᴰ n rows) (λ n. Memᴰ n (m ∷ rows)) rows (λ n p. Memᴰ.tail p) (All-Memᴰ rows),
)

-- What becomes of a symbol's row: its one active mapping is the provider, or the row is refused.
abbrev pub IsResolved : List MappingRow → Result SupportedSymbol → Type 0
IsResolved rows (ok s) =
    (length (active rows) ≡ 1)
    × ((m : MappingRow) × Memᴰ m rows
        × (m.is_active ≡ true)
        × (s.provider ≡ m.provider)
        × (s.provider_symbol ≡ m.provider_symbol))
IsResolved rows (err e) =
    (length (active rows) ≢ 1) × (e ≡ database_unavailable "DATABASE_QUERY_FAILED")

-- A symbol's row with its mappings becomes a symbol whose provider and provider symbol are those of the active
-- mapping, if exactly one of the mappings is active, and is refused as an unavailable database if not.
pub to_supported_symbol_lem :
    (row : SymbolRow) (rows : List MappingRow) → IsResolved rows (to_supported_symbol row rows)
unfolding to_supported_symbol
to_supported_symbol_lem row rows =
    by_defaults (active ordered) (active-sorted_by rows)
      (All-keep (λ m. Memᴰ m rows) (λ m. m.is_active) ordered
        (All-sorted_by mapping_before (λ m. Memᴰ m rows) rows (All-Memᴰ rows)))
      (All-keep_test (λ m. m.is_active) ordered)
  where
    ordered : List MappingRow
    ordered = sorted_by mapping_before rows

    by_defaults :
        (defaults : List MappingRow)
        → length defaults ≡ length (active rows)
        → All (λ m. Memᴰ m rows) defaults
        → All (λ m. m.is_active ≡ true) defaults
        → IsResolved rows (supported row ordered defaults)
    by_defaults [] count members actives = (λ one. absurd (omega (arith, count, one)), refl)
    by_defaults (m ∷ []) count members actives = (sym count, (m, members.0, actives.0, refl, refl))
    by_defaults (m ∷ n ∷ more) count members actives =
        (λ one. absurd (omega (arith, count, one)), refl)
