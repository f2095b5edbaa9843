-- ===== src/Streams/Router.antt =====
-- services/stream_provider_router.py: the provider that each interest was opened with, and the events that are
-- passed on. What a provider answers to a subscription is a parameter; a call is noted with the provider's name.
use signapse_mdg.Base.{
  ℕ, ◌≡◌, refl, ap, true, ◌&&◌, Option, none, some, List, [], ◌∷◌, ◌++◌, String, string_eq,
  string_lawful, eq_self, arith, contains, length, leb, ltb, Dict, lookup, insert, remove,
  provider_unavailable, Result, ok, err, err_not_ok, if◌then◌else◌, Bool-cases, Result-cases, subst,
  inl, inr,
}
use signapse_mdg.Symbols.{SupportedSymbol}
use signapse_mdg.Streams.{QuoteInterest, interest_eq, interest_beq}

pub data RouterCall : Type 0 where
  subscribed_with : String → SupportedSymbol → RouterCall
  unsubscribed_with : String → QuoteInterest → RouterCall
  closed_provider : String → RouterCall

-- `MultiProviderStreamProvider`: the names of its providers, those whose events are forwarded, the provider of
-- each interest, the events that wait, and the calls made of the providers.
pub record StreamRouter (E : Type 0) : Type 0 where
  pub providers : List String
  pub forwarding : List String
  pub interest_providers : Dict QuoteInterest String
  pub events : List E
  pub calls : List RouterCall

abbrev pub routed_interest : SupportedSymbol → QuoteInterest
routed_interest s = record {
  symbol = s.symbol;
  provider = some s.provider;
  provider_symbol = some s.provider_symbol;
}

abbrev close_all : List String → List RouterCall
close_all [] = []
close_all (name ∷ more) = closed_provider name ∷ close_all more

module _ {E : Type 0} where
  -- `_ensure_forwarding`, of a task that is running still
  abbrev pub ensure_forwarding : String → StreamRouter E → StreamRouter E
  ensure_forwarding name r = record r {
    forwarding = if contains r.forwarding name then r.forwarding else r.forwarding ++ name ∷ [];
  }

  abbrev pub after_subscribe :
      SupportedSymbol → StreamRouter E → Result (Unit {0}) → Result (Unit {0}) × StreamRouter E
  after_subscribe s r (ok done) = (
    ok tt,
    record r { interest_providers = insert (routed_interest s) s.provider r.interest_providers },
  )
  after_subscribe s r (err e) = (err e, r)

  unfoldable pub subscribe_quote :
      (SupportedSymbol → Result (Unit {0}))
      → SupportedSymbol
      → StreamRouter E
      → Result (Unit {0}) × StreamRouter E
  unfolding insert
  subscribe_quote answer s r =
      if contains r.providers s.provider
      then after_subscribe s
          (record (ensure_forwarding s.provider r) {
            calls = r.calls ++ subscribed_with s.provider s ∷ [];
          })
          (answer s)
      else (err (provider_unavailable "PROVIDER_NOT_CONFIGURED"), r)

  abbrev pub unsubscribed_from : QuoteInterest → Option String → StreamRouter E → StreamRouter E
  unsubscribed_from interest none r = r
  unsubscribed_from interest (some name) r =
      if contains r.providers name
      then record r { calls = r.calls ++ unsubscribed_with name interest ∷ [] }
      else r

  unfoldable pub unsubscribe : QuoteInterest → StreamRouter E → StreamRouter E
  unfolding lookup remove
  unsubscribe interest r =
      unsubscribed_from interest (lookup interest r.interest_providers)
        (record r { interest_providers = remove interest r.interest_providers })

  unfoldable pub close : StreamRouter E → StreamRouter E
  close r = record r {
    forwarding = [];
    interest_providers = [];
    calls = r.calls ++ close_all r.providers;
  }

  -- A round of `_forward_events`: an event that finds the queue full is dropped; a capacity of 0 is no bound.
  unfoldable pub forward_event : ℕ → E → StreamRouter E → StreamRouter E
  forward_event capacity event r =
      if ltb 0 capacity && leb capacity (length r.events)
      then r
      else record r { events = r.events ++ event ∷ [] }

interest_self : (s : SupportedSymbol) → interest_beq (routed_interest s) (routed_interest s) ≡ true
interest_self s = ground (arith, eq_self s.symbol, eq_self s.provider, eq_self s.provider_symbol)

lookup_inserted :
    (s : SupportedSymbol) (name : String) (d : Dict QuoteInterest String)
    → lookup (routed_interest s) (insert (routed_interest s) name d) ≡ some name
unfolding lookup insert
lookup_inserted s name [] = ground (arith, interest_self s)
lookup_inserted s name ((j, v) ∷ d) = ground (arith, lookup_inserted s name d)

abbrev Opened : {E : Type 0} → SupportedSymbol → StreamRouter E → Type 0
Opened s n =
    (contains n.providers s.provider ≡ true)
    × (lookup (routed_interest s) n.interest_providers ≡ some s.provider)

-- A subscription that returned, and what it left.
subscribe_quote-eq-ok :
    {E : Type 0} (answer : SupportedSymbol → Result (Unit {0})) (s : SupportedSymbol)
    (r n : StreamRouter E)
    → subscribe_quote answer s r ≡ (ok tt, n)
    → Opened s n
unfolding subscribe_quote
subscribe_quote-eq-ok answer s r n h = elim (Bool-cases (contains r.providers s.provider)) [
  | inl e ↦ elim (Result-cases (answer s)) [
    | inl (done, f) ↦
        subst (Opened s) (ap (λ p. p.1) (rw (e, f) at h))
          (e, lookup_inserted s s.provider r.interest_providers)
    | inr (error, f) ↦ absurd (err_not_ok (ap (λ p. p.0) (rw (e, f) at h)))
  ]
  | inr e ↦ absurd (err_not_ok (ap (λ p. p.0) (rw e at h)))
]

-- Once a symbol's subscription has returned, giving its interest up is one more call, of the provider that the
-- symbol was opened with.
pub unsubscribe_reaches_provider :
    {E : Type 0} (answer : SupportedSymbol → Result (Unit {0})) (s : SupportedSymbol)
    (r n : StreamRouter E)
    → subscribe_quote answer s r ≡ (ok tt, n)
    → (unsubscribe (routed_interest s) n).calls
      ≡ n.calls ++ unsubscribed_with s.provider (routed_interest s) ∷ []
unfolding unsubscribe
unsubscribe_reaches_provider answer s r n h =
    let (configured, at) = subscribe_quote-eq-ok answer s r n h in rw (at, configured) refl
