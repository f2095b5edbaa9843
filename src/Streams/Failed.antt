-- ===== src/Streams/Failed.antt =====
-- What a subscription that raises leaves behind in services/stream_manager.py.
use signapse_mdg.Base.{
  ℕ, ◌≡◌, refl, ap, false, true, none, some, [], ◌∷◌, String, string_eq, string_lawful, arith,
  lookup, insert, Dict, eq_self, Error, Result, ok, err,
}
use signapse_mdg.Symbols.{SupportedSymbol}
use signapse_mdg.Streams.{QuoteInterest, StreamRequest, interest_beq, interest_eq}
use signapse_mdg.Streams.Manager.{ClientRegistration, InterestState, StreamManager}
use signapse_mdg.Streams.Manager.Register.{
  StreamProvider, opened_all, failed_after, finish_register, wants, with_interest, with_new,
  new_interest, open_interests, undo_opened, register_symbols,
}

interest_self : (s : SupportedSymbol) → interest_beq (wants s) (wants s) ≡ true
interest_self s = ground (arith, eq_self s.symbol, eq_self s.provider, eq_self s.provider_symbol)

lookup-insert_interest :
    (s : SupportedSymbol) (state : InterestState) (d : Dict QuoteInterest InterestState)
    → lookup (wants s) (insert (wants s) state d) ≡ some state
unfolding lookup insert
lookup-insert_interest s state [] = ground (arith, interest_self s)
lookup-insert_interest s state ((j, v) ∷ d) = ground (arith, lookup-insert_interest s state d)

-- The registration of a client for one symbol.
abbrev pub Registered :
    ℕ
    → ℕ
    → StreamProvider
    → String
    → StreamRequest
    → SupportedSymbol
    → StreamManager
    → Result ClientRegistration
    → StreamManager
    → Type 0
Registered capacity now provider id request s m result n =
    register_symbols capacity now provider id request (ok (s ∷ [])) m ≡ (result, n)

refused_is :
    (capacity now : ℕ) (provider : StreamProvider) (id : String) (request : StreamRequest)
    (s : SupportedSymbol) (m : StreamManager) (e : Error)
    → lookup (wants s) m.interests ≡ none
    → provider.subscribe_quote m.calls s ≡ err e
    → Registered capacity now provider id request s m (err e) (with_new s m)
unfolding open_interests undo_opened
refused_is capacity now provider id request s m e new raises =
    let stopped : open_interests provider id (s ∷ []) [] m ≡ failed_after e [] (with_new s m) =
      ground (arith, new, raises) in
    ap (finish_register capacity now provider id request (s ∷ [])) stopped

accepted_is :
    (capacity now : ℕ) (provider : StreamProvider) (id : String) (request : StreamRequest)
    (s : SupportedSymbol) (m : StreamManager) (state : InterestState)
    → lookup (wants s) m.interests ≡ some state
    → (c : ClientRegistration) × (n : StreamManager) × Registered capacity now provider id request s
        m
        (ok c)
        n
      × (n.calls ≡ m.calls)
unfolding open_interests
accepted_is capacity now provider id request s m state there =
    let opened : open_interests provider id (s ∷ []) [] m ≡ opened_all (with_interest id s m) =
      ground (arith, there) in
    (_, _, ap (finish_register capacity now provider id request (s ∷ [])) opened, refl)

-- When the provider raises at a new client's only symbol, which no client had asked for, the client is refused, but
-- the interest stays without a subscriber and without a cleanup; and whoever registers for the symbol next, with
-- whatever provider, is accepted without a call of the provider.
pub failed_interest_stays :
    (capacity now later : ℕ) (provider next_provider : StreamProvider) (id next : String)
    (request next_request : StreamRequest) (s : SupportedSymbol) (m : StreamManager) (e : Error)
    → lookup (wants s) m.interests ≡ none
    → provider.subscribe_quote m.calls s ≡ err e
    → (after : StreamManager) × Registered capacity now provider id request s m (err e) after
      × ((state : InterestState) × (lookup (wants s) after.interests ≡ some state)
          × (state.subscribers ≡ [])
          × (state.has_cleanup ≡ false))
      × ((c : ClientRegistration) × (n : StreamManager) × Registered capacity later next_provider
            next next_request s after
            (ok c)
            n
          × (n.calls ≡ after.calls))
failed_interest_stays capacity now later provider next_provider id next request next_request s m e
      new raises =
    let stays = lookup-insert_interest s (new_interest s) m.interests in
    (
      with_new s m,
      refused_is capacity now provider id request s m e new raises,
      (new_interest s, stays, refl, refl),
      accepted_is capacity later next_provider next next_request s (with_new s m) (new_interest s)
          stays,
    )
