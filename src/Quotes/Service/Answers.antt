-- ===== src/Quotes/Service/Answers.antt =====
-- Every symbol that the quote service resolves is answered, with a quote or with an error.
use signapse_mdg.Base.{
  ℕ, ◌≡◌, inl, inr, Bool, true, ◌||◌, Option, none, some, List, [], ◌∷◌, map, All, String,
  string_eq, string_lawful, arith, eq_iff, Result, ok, err, ok-injective, err_not_ok, lookup,
  insert, has_key, has_key-insert, Bool-cases, leb, subst, Option-cases,
}
use signapse_mdg.Symbols.{SupportedSymbol}
use signapse_mdg.Quotes.{Quote, ProviderQuoteBatch, QuoteStore, by_symbol, get_many, age}
use signapse_mdg.Quotes.Service.{
  QuoteProvider, Readings, Quotes, Errors, Found, fail, use_fallback, use_fallbacks, priced,
  use_price, use_prices, refreshed_by, is_unavailable, refresh, fresh, take_fresh, refresh_pending,
  resolve_locked, resolve_supported,
}

-- The name has a quote or an error.
abbrev pub answered : String → Found → Bool
answered name (quotes, errors) = has_key name quotes || has_key name errors

-- What `after` answers, if it answers what `before` does, and the item.
record Adds (item : SupportedSymbol) (before after : Found) : Type 0 where
  keeps : (name : String) → answered name before ≡ true → answered name after ≡ true
  own : answered item.symbol after ≡ true

Adds-quote :
    (item : SupportedSymbol) (quote : Quote) (found : Found)
    → Adds item found (insert item.symbol quote found.0, found.1)
Adds-quote item quote (quotes, errors) = record {
  keeps = λ name h. ground (arith, has_key-insert item.symbol name quote quotes);
  own =
      ground (
        arith,
        has_key-insert item.symbol item.symbol quote quotes,
        eq_iff item.symbol item.symbol,
      );
}

Adds-fail :
    (item : SupportedSymbol) (code : String) (found : Found)
    → Adds item found (found.0, fail item code found.1)
Adds-fail item code (quotes, errors) = record {
  keeps = λ name h. ground (
    arith,
    has_key-insert item.symbol name (record { symbol = item.symbol; code = code }) errors,
  );
  own = ground (
    arith,
    has_key-insert item.symbol item.symbol (record { symbol = item.symbol; code = code }) errors,
    eq_iff item.symbol item.symbol,
  );
}

Adds-fallback :
    (stale_after : ℕ) (clock : Readings) (item : SupportedSymbol) (quote : Option Quote)
    (found : Found)
    → Adds item found (use_fallback stale_after clock item quote found)
unfolding use_fallback
Adds-fallback stale_after clock item none found = Adds-fail item "PROVIDER_UNAVAILABLE" found
Adds-fallback stale_after clock item (some quote) found =
    elim (Bool-cases (leb (age quote (clock.fallback item)) stale_after)) [
      | inl e ↦ rw e (Adds-quote item quote found)
      | inr e ↦ rw e (Adds-fail item "DATA_STALE" found)
    ]

-- The same for each item of a list.
record AddsAll (items : List SupportedSymbol) (before after : Found) : Type 0 where
  keeps : (name : String) → answered name before ≡ true → answered name after ≡ true
  own : All (λ item. answered item.symbol after ≡ true) items

AddsAll-nil : (found : Found) → AddsAll [] found found
AddsAll-nil found = record { keeps = λ name h. h; own = tt }

AddsAll-cons :
    (item : SupportedSymbol) (more : List SupportedSymbol) (before between after : Found)
    → Adds item before between
    → AddsAll more between after
    → AddsAll (item ∷ more) before after
AddsAll-cons item more before between after a b = record {
  keeps = λ name h. b.keeps name (a.keeps name h);
  own = (b.keeps item.symbol a.own, b.own);
}

use_fallbacks-AddsAll :
    (stale_after : ℕ) (clock : Readings) (items : List SupportedSymbol) (cached : Quotes)
    (found : Found)
    → AddsAll items found (use_fallbacks stale_after clock items cached found)
unfolding use_fallbacks
use_fallbacks-AddsAll stale_after clock [] cached found = AddsAll-nil found
use_fallbacks-AddsAll stale_after clock (item ∷ more) cached found =
    AddsAll-cons item more found _ _
      (Adds-fallback stale_after clock item (lookup item.symbol cached) found)
      (use_fallbacks-AddsAll stale_after clock more cached _)

Adds-price :
    (stale_after : ℕ) (clock : Readings) (item : SupportedSymbol) (cached : Quotes)
    (quote : Option Quote) (found : Found)
    → Adds item found (use_price stale_after clock item cached quote found)
Adds-price stale_after clock item cached none found =
    Adds-fallback stale_after clock item (lookup item.symbol cached) found
Adds-price stale_after clock item cached (some quote) found = Adds-quote item quote found

use_prices-AddsAll :
    (stale_after : ℕ) (clock : Readings) (batch : ProviderQuoteBatch) (items : List SupportedSymbol)
    (cached : Quotes) (found : Found)
    → AddsAll items found (use_prices stale_after clock batch items cached found).0
unfolding use_prices
use_prices-AddsAll stale_after clock batch [] cached found = AddsAll-nil found
use_prices-AddsAll stale_after clock batch (item ∷ more) cached found =
    AddsAll-cons item more found _ _
      (Adds-price stale_after clock item cached (priced clock item batch) found)
      (use_prices-AddsAll stale_after clock batch more cached _)

refreshed-AddsAll :
    (stale_after : ℕ) (clock : Readings) (r : Result ProviderQuoteBatch)
    (items : List SupportedSymbol) (cached : Quotes) (found : Found) (store : QuoteStore)
    (after : Found × QuoteStore)
    → refreshed_by stale_after clock r items cached found store ≡ ok after
    → AddsAll items found after.0
refreshed-AddsAll stale_after clock (ok batch) items cached found store after h =
    subst (λ (a : Found × QuoteStore). AddsAll items found a.0) (ok-injective h)
      (use_prices-AddsAll stale_after clock batch items cached found)
refreshed-AddsAll stale_after clock (err e) items cached found store after h =
    elim (Bool-cases (is_unavailable e)) [
      | inl u ↦
          subst (λ (a : Found × QuoteStore). AddsAll items found a.0) (ok-injective (rw u at h))
            (use_fallbacks-AddsAll stale_after clock items cached found)
      | inr u ↦ absurd (err_not_ok (rw u at h))
    ]

pending_step :
    (item : SupportedSymbol) (pending more : List SupportedSymbol) (middle before after : Found)
    → AddsAll (item ∷ pending) middle after
    → (AddsAll pending middle after → AddsAll more before after)
    → AddsAll (item ∷ more) before after
pending_step item pending more middle before after a rest =
    let b = rest (record { keeps = a.keeps; own = a.own.1 }) in
    record { keeps = b.keeps; own = (a.own.0, b.own) }

-- What answers the symbols that stay pending answers all of them.
take_fresh-AddsAll :
    (ttl now : ℕ) (cached : Quotes) (items : List SupportedSymbol) (resolved : Quotes)
    (errors : Errors) (after : Found)
    → AddsAll
        (take_fresh ttl now cached items resolved).1
        ((take_fresh ttl now cached items resolved).0, errors)
        after
    → AddsAll items (resolved, errors) after
unfolding take_fresh
take_fresh-AddsAll ttl now cached [] resolved errors after h = h
take_fresh-AddsAll ttl now cached (item ∷ more) resolved errors after h =
    let ih = take_fresh-AddsAll ttl now cached more in
    elim (Option-cases (lookup item.symbol cached)) [
      | inl e ↦
          pending_step item _ more _ (resolved, errors) after (rw e at h) (ih resolved errors after)
      | inr (quote, e) ↦ elim (Bool-cases (fresh ttl now (some quote))) [
        | inl f ↦
            AddsAll-cons item more (resolved, errors) _ after
              (Adds-quote item quote (resolved, errors))
              (ih (insert item.symbol quote resolved) errors after (rw (e, f) at h))
        | inr f ↦
            pending_step item _ more _ (resolved, errors) after (rw (e, f) at h)
              (ih resolved errors after)
      ]
    ]

refresh_pending-AddsAll :
    (stale_after : ℕ) (clock : Readings) (provider : QuoteProvider) (cached : Quotes)
    (errors : Errors) (store : QuoteStore) (resolved : Quotes) (pending : List SupportedSymbol)
    (after : Found × QuoteStore)
    → refresh_pending stale_after clock provider cached errors store (resolved, pending) ≡ ok after
    → AddsAll pending (resolved, errors) after.0
unfolding refresh
refresh_pending-AddsAll stale_after clock provider cached errors store resolved [] after h =
    subst (λ (a : Found × QuoteStore). AddsAll [] (resolved, errors) a.0) (ok-injective h)
      (AddsAll-nil _)
refresh_pending-AddsAll stale_after clock provider cached errors store resolved (item ∷ more) after
      h =
    refreshed-AddsAll stale_after clock (provider (item ∷ more)) (item ∷ more) cached
      (resolved, errors) store after h

resolve_locked-AddsAll :
    (ttl stale_after : ℕ) (clock : Readings) (provider : QuoteProvider) (errors : Errors)
    (store locked : QuoteStore) (resolved : Quotes) (pending : List SupportedSymbol)
    (after : Found × QuoteStore)
    → resolve_locked ttl stale_after clock provider errors store locked (resolved, pending)
      ≡ ok after
    → AddsAll pending (resolved, errors) after.0
resolve_locked-AddsAll ttl stale_after clock provider errors store locked resolved [] after h =
    subst (λ (a : Found × QuoteStore). AddsAll [] (resolved, errors) a.0) (ok-injective h)
      (AddsAll-nil _)
resolve_locked-AddsAll ttl stale_after clock provider errors store locked resolved (item ∷ more)
      after h =
    take_fresh-AddsAll ttl clock.locked (get_many (map by_symbol (item ∷ more)) locked)
      (item ∷ more) resolved errors after.0
      (refresh_pending-AddsAll stale_after clock provider _ errors locked _ _ after h)

-- If the supported symbols are resolved, each of them has a quote or an error, and so does each name that
-- had an error before.
pub resolve_supported_answers :
    (ttl stale_after : ℕ) (clock : Readings) (provider : QuoteProvider)
    (supported : List SupportedSymbol) (errors : Errors) (store locked : QuoteStore)
    (after : Found × QuoteStore)
    → resolve_supported ttl stale_after clock provider supported errors store locked ≡ ok after
    → All (λ item. answered item.symbol after.0 ≡ true) supported
      × ((name : String) → has_key name errors ≡ true → answered name after.0 ≡ true)
unfolding resolve_supported has_key
resolve_supported_answers ttl stale_after clock provider supported errors store locked after h =
    let cached = get_many (map by_symbol supported) store in
    let adds =
      take_fresh-AddsAll ttl clock.start cached supported [] errors after.0
        (resolve_locked-AddsAll ttl stale_after clock provider errors store locked _ _ after h) in
    (adds.own, λ name known. adds.keeps name known)
