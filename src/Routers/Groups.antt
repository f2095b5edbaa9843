-- ===== src/Routers/Groups.antt =====
-- Each provider is asked once, for all of its symbols; where it fails, all of them are unavailable.
use mathlib.Core.List.{append_assoc, append-nil}
use signapse_mdg.Base.{
  ◌≡◌, refl, sym, ap, ◌∙◌, inl, inr, ◌⊎◌, subst, true, ◌||◌, Option, none, some, List, [], ◌∷◌,
  ◌++◌, map, String, string_eq, string_lawful, ◌==◌, Dict, lookup, lookup-insert, insert, keep,
  contains, arith, eq_iff, Error, Result, ok, err, >>=-eq-ok, ok-injective, err_not_ok, Bool-cases,
}
use signapse_mdg.Symbols.{SupportedSymbol}
use signapse_mdg.Quotes.{ProviderQuoteBatch}
use signapse_mdg.Routers.{
  SymbolQuoteProvider, or_empty, group_into, group_by_provider, no_batch, is_unavailable, gather,
  ask, fetch_groups, fetch_latest_prices,
}

-- The provider symbols of the symbols that have the provider, in their order.
abbrev pub symbols_of : String → List SupportedSymbol → List String
symbols_of name symbols = map (λ s. s.provider_symbol) (keep (λ s. s.provider == name) symbols)

group_into_lem :
    (name : String) (grouped : Dict String (List String)) (symbols : List SupportedSymbol)
    → or_empty (lookup name (group_into grouped symbols))
      ≡ or_empty (lookup name grouped) ++ symbols_of name symbols
group_into_lem name grouped [] = sym (append-nil (or_empty (lookup name grouped)))
group_into_lem name grouped (s ∷ more) =
    let longer = or_empty (lookup s.provider grouped) ++ s.provider_symbol ∷ [] in
    let ih = group_into_lem name (insert s.provider longer grouped) more in
    elim (Bool-cases (s.provider == name)) [
      | inl e ↦
          let same : s.provider ≡ name = (eq_iff s.provider name).0 e in
          rw e (
            (rw (lookup-insert s.provider name longer grouped, e) at ih)
            ∙ append_assoc (or_empty (lookup s.provider grouped)) (s.provider_symbol ∷ [])
                (symbols_of name more)
            ∙ ap (λ k. or_empty (lookup k grouped) ++ s.provider_symbol ∷ symbols_of name more)
                same)
      | inr e ↦ rw e (rw (lookup-insert s.provider name longer grouped, e) at ih)
    ]

-- Each group has all provider symbols of its provider, in the order of the symbols.
pub group_by_provider_lem :
    (name : String) (symbols : List SupportedSymbol)
    → or_empty (lookup name (group_by_provider symbols)) ≡ symbols_of name symbols
unfolding group_by_provider lookup
group_by_provider_lem name symbols = group_into_lem name [] symbols

-- The provider is not configured, or raises when it is asked for the symbols.
abbrev pub Fails : Dict String SymbolQuoteProvider → String → List String → Type 0
Fails providers name symbols =
    (lookup name providers ≡ none)
    ⊎ ((provider : SymbolQuoteProvider) × (lookup name providers ≡ some provider)
        × ((e : Error) × (provider symbols ≡ err e)))

abbrev pub AllIn : List String → List String → Type 0
AllIn whole part = (x : String) → contains part x ≡ true → contains whole x ≡ true

contains-append :
    (xs ys : List String) (x : String) → contains (xs ++ ys) x ≡ (contains xs x || contains ys x)
contains-append [] ys x = refl
contains-append (z ∷ xs) ys x = ground (arith, contains-append xs ys x)

-- What one answer adds keeps what was unavailable, and has the symbols of a provider that fails.
ask_keeps :
    (provider : Option SymbolQuoteProvider) (symbols : List String)
    (batch after : ProviderQuoteBatch)
    → ask provider symbols batch ≡ ok after
    → AllIn after.unavailable_symbols batch.unavailable_symbols
ask_keeps none symbols batch after h x c =
    subst (λ (b : ProviderQuoteBatch). contains b.unavailable_symbols x ≡ true) (ok-injective h)
      (ground (arith, contains-append batch.unavailable_symbols symbols x))
ask_keeps (some provider) symbols batch after h x c = go (provider symbols) h
  where
    go :
        (r : Result ProviderQuoteBatch)
        → gather symbols r batch ≡ ok after
        → contains after.unavailable_symbols x ≡ true
    go (ok answer) q =
        subst (λ (b : ProviderQuoteBatch). contains b.unavailable_symbols x ≡ true) (ok-injective q)
          (ground (arith, contains-append batch.unavailable_symbols answer.unavailable_symbols x))
    go (err e) q = elim (Bool-cases (is_unavailable e)) [
      | inl u ↦
          subst (λ (b : ProviderQuoteBatch). contains b.unavailable_symbols x ≡ true)
            (ok-injective (rw u at q))
            (ground (arith, contains-append batch.unavailable_symbols symbols x))
      | inr u ↦ absurd (err_not_ok (rw u at q))
    ]

ask-Fails :
    (providers : Dict String SymbolQuoteProvider) (name : String) (symbols : List String)
    (batch after : ProviderQuoteBatch)
    → Fails providers name symbols
    → ask (lookup name providers) symbols batch ≡ ok after
    → AllIn after.unavailable_symbols symbols
ask-Fails providers name symbols batch after (inl missing) h x c =
    subst (λ (b : ProviderQuoteBatch). contains b.unavailable_symbols x ≡ true)
      (ok-injective (rw missing at h))
      (ground (arith, contains-append batch.unavailable_symbols symbols x))
ask-Fails providers name symbols batch after (inr (provider, known, (e, raised))) h x c =
    elim (Bool-cases (is_unavailable e)) [
      | inl u ↦
          subst (λ (b : ProviderQuoteBatch). contains b.unavailable_symbols x ≡ true)
            (ok-injective (rw (known, raised, u) at h))
            (ground (arith, contains-append batch.unavailable_symbols symbols x))
      | inr u ↦ absurd (err_not_ok (rw (known, raised, u) at h))
    ]

fetch_groups_keeps :
    (providers : Dict String SymbolQuoteProvider) (groups : Dict String (List String))
    (batch after : ProviderQuoteBatch)
    → fetch_groups providers groups batch ≡ ok after
    → AllIn after.unavailable_symbols batch.unavailable_symbols
unfolding fetch_groups
fetch_groups_keeps providers [] batch after h x c =
    subst (λ (b : ProviderQuoteBatch). contains b.unavailable_symbols x ≡ true) (ok-injective h) c
fetch_groups_keeps providers ((name, symbols) ∷ more) batch after h x c =
    let (between, e, h1) = >>=-eq-ok (ask (lookup name providers) symbols batch) _ h in
    fetch_groups_keeps providers more between after h1 x
      (ask_keeps (lookup name providers) symbols batch between e x c)

fetch_groups-Fails :
    (providers : Dict String SymbolQuoteProvider) (name : String)
    (groups : Dict String (List String)) (batch after : ProviderQuoteBatch)
    → fetch_groups providers groups batch ≡ ok after
    → Fails providers name (or_empty (lookup name groups))
    → AllIn after.unavailable_symbols (or_empty (lookup name groups))
unfolding fetch_groups lookup
fetch_groups-Fails providers name [] batch after h f x c = cc
fetch_groups-Fails providers name ((other, symbols) ∷ more) batch after h f x c =
    let (between, e, h1) = >>=-eq-ok (ask (lookup other providers) symbols batch) _ h in
    elim (Bool-cases (other == name)) [
      | inl q ↦
          let same : other ≡ name = (eq_iff other name).0 q in
          fetch_groups_keeps providers more between after h1 x (
            ask-Fails providers other symbols batch between
              (subst (λ k. Fails providers k symbols) (sym same) (rw q at f)) e x (rw q at c))
      | inr q ↦ fetch_groups-Fails providers name more between after h1 (rw q at f) x (rw q at c)
    ]

-- If the router answers, all the symbols of a provider that is not configured or that raises are unavailable.
pub fetch_latest_prices-Fails :
    (providers : Dict String SymbolQuoteProvider) (symbols : List SupportedSymbol) (name : String)
    (batch : ProviderQuoteBatch)
    → fetch_latest_prices providers symbols ≡ ok batch
    → Fails providers name (symbols_of name symbols)
    → AllIn batch.unavailable_symbols (symbols_of name symbols)
unfolding fetch_latest_prices
fetch_latest_prices-Fails providers symbols name batch h f =
    let group = group_by_provider_lem name symbols in
    subst (AllIn batch.unavailable_symbols) group (
      fetch_groups-Fails providers name (group_by_provider symbols) no_batch batch h
        (subst (Fails providers name) (sym group) f))
