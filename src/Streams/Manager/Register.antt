-- ===== src/Streams/Manager/Register.antt =====
-- services/stream_manager.py: registering a client, its leaving, and the cleanup of idle interests.
use signapse_mdg.Base.{
  ℕ, false, not, ◌||◌, Option, none, some, List, [], ◌∷◌, ◌++◌, map, String, string_eq, nat_eq,
  ◌==◌, length, Dict, lookup, insert, remove, update, Error, provider_unavailable, key_error,
  Result, ok, err, ◌>>=◌, if◌then◌else◌,
}
use signapse_mdg.Symbols.{SupportedSymbol}
use signapse_mdg.Streams.{connecting, QuoteInterest, interest_eq, StreamRequest}
use signapse_mdg.Streams.Manager.{
  ClientRegistration, InterestState, ProviderCall, StreamManager, enqueue_status, adjust, discard,
  subscribe_client, subscribe_call, unsubscribe_call,
}

-- Whether the two calls of `MarketStreamProvider` return or raise; what they do may differ from call to call.
pub record StreamProvider : Type 0 where
  pub subscribe_quote : List ProviderCall → SupportedSymbol → Result (Unit {0})
  pub unsubscribe : List ProviderCall → QuoteInterest → Result (Unit {0})

abbrev pub new_interest : SupportedSymbol → InterestState
new_interest symbol = record {
  symbol = symbol;
  subscribers = [];
  last_event_at = none;
  has_cleanup = false;
}

-- How the loop over the interests of a registration ends: with the interests that it opened, or by an
-- exception after it had opened some.
pub data Opening : Type 0 where
  opened_all : StreamManager → Opening
  failed_after : Error → List QuoteInterest → StreamManager → Opening

abbrev pub wants : SupportedSymbol → QuoteInterest
wants s = record {
  symbol = s.symbol;
  provider = some s.provider;
  provider_symbol = some s.provider_symbol;
}

-- After the provider has answered for a new interest.
abbrev pub after_open :
    Result (Unit {0}) → List QuoteInterest → StreamManager → (StreamManager → Opening) → Opening
after_open (ok done) opened m rest = rest m
after_open (err e) opened m rest = failed_after e opened m

abbrev pub with_interest : String → SupportedSymbol → StreamManager → StreamManager
with_interest id s m = record m { interests = adjust (wants s) (subscribe_client id) m.interests }

-- The interest is put in the table before the provider is asked.
abbrev pub with_new : SupportedSymbol → StreamManager → StreamManager
with_new s m = record m {
  interests = insert (wants s) (new_interest s) m.interests;
  calls = m.calls ++ subscribe_call s ∷ [];
}

-- The loop of `register` over the symbols asked for.
unfoldable pub open_interests :
    StreamProvider → String → List SupportedSymbol → List QuoteInterest → StreamManager → Opening
unfolding lookup insert
open_interests provider id [] opened m = opened_all m
open_interests provider id (s ∷ more) opened m = elim (lookup (wants s) m.interests) [
  | none ↦
      after_open (provider.subscribe_quote m.calls s) opened (with_new s m)
        (λ m'. open_interests provider id more (opened ++ wants s ∷ []) (with_interest id s m'))
  | some state ↦ open_interests provider id more opened (with_interest id s m)
]

-- Goes on where the call returned, and raises what it raised.
abbrev pub or_raise :
    Result (Unit {0})
    → StreamManager
    → (StreamManager → Error × StreamManager)
    → Error × StreamManager
or_raise (ok done) m rest = rest m
or_raise (err e) m rest = (e, m)

-- `except Exception`: the opened interests are dropped and unsubscribed from, until a call raises; with the error
-- that is raised in the end.
unfoldable pub undo_opened :
    StreamProvider → Error → List QuoteInterest → StreamManager → Error × StreamManager
unfolding remove
undo_opened provider e [] m = (e, m)
undo_opened provider e (i ∷ more) m =
    or_raise (provider.unsubscribe m.calls i)
      (record m { interests = remove i m.interests; calls = m.calls ++ unsubscribe_call i ∷ [] })
      (undo_opened provider e more)

-- The symbols asked for, by name; a name that is missing raises KeyError.
abbrev pub symbols_named : Dict String SupportedSymbol → List String → Result (List SupportedSymbol)
symbols_named table [] = ok []
symbols_named table (name ∷ more) = elim (lookup name table) [
  | none ↦ err key_error
  | some s ↦ symbols_named table more >>= λ rest. ok (s ∷ rest)
]

abbrev named_decimals : List SupportedSymbol → Dict String ℕ → Dict String ℕ
named_decimals [] result = result
named_decimals (s ∷ more) result =
    named_decimals more (insert s.symbol s.price_display_decimals result)

abbrev pub new_registration : String → StreamRequest → List SupportedSymbol → ClientRegistration
new_registration id request symbols = record {
  id = id;
  request = request;
  interests = map wants symbols;
  price_display_decimals = named_decimals symbols [];
  queue = [];
  closed = false;
  close_code = 1000;
  close_reason = "";
  state = connecting;
  last_event_at = none;
}

-- The client is registered, and told that it is connecting.
abbrev pub finish_register :
    ℕ
    → ℕ
    → StreamProvider
    → String
    → StreamRequest
    → List SupportedSymbol
    → Opening
    → Result ClientRegistration × StreamManager
finish_register capacity now provider id request symbols (opened_all m) =
    let c =
      enqueue_status capacity now connecting [] none none (new_registration id request symbols) in
    (ok c, record m { clients = insert id c m.clients })
finish_register capacity now provider id request symbols (failed_after e opened m) =
    let undone = undo_opened provider e opened m in (err undone.0, undone.1)

abbrev pub register_symbols :
    ℕ
    → ℕ
    → StreamProvider
    → String
    → StreamRequest
    → Result (List SupportedSymbol)
    → StreamManager
    → Result ClientRegistration × StreamManager
register_symbols capacity now provider id request (err e) m = (err e, m)
register_symbols capacity now provider id request (ok symbols) m =
    finish_register capacity now provider id request symbols
      (open_interests provider id symbols [] m)

-- `register`; `id` is the new client's name.
unfoldable pub register :
    ℕ
    → ℕ
    → StreamProvider
    → String
    → StreamRequest
    → List SupportedSymbol
    → StreamManager
    → Result ClientRegistration × StreamManager
unfolding open_interests undo_opened enqueue_status
register capacity now provider id request symbols m =
    if m.stopping
    then (err (provider_unavailable "REQUEST_FAILED"), m)
    else register_symbols capacity now provider id request
        (symbols_named (update [] (map (λ s. (s.symbol, s)) symbols)) request.symbols) m

-- One round of the loop of `unregister`.
abbrev pub leave : String → InterestState → InterestState
leave id s =
    let rest = discard id s.subscribers in
    record s { subscribers = rest; has_cleanup = s.has_cleanup || length rest == 0 }

abbrev pub leave_all :
    String
    → List QuoteInterest
    → Dict QuoteInterest InterestState
    → Dict QuoteInterest InterestState
leave_all id [] interests = interests
leave_all id (i ∷ more) interests = leave_all id more (adjust i (leave id) interests)

abbrev pub left_by : Option ClientRegistration → String → StreamManager → StreamManager
left_by none id m = m
left_by (some c) id m = record m {
  clients = remove id m.clients;
  interests = leave_all id c.interests m.interests;
}

unfoldable pub unregister : String → StreamManager → StreamManager
unfolding lookup remove
unregister id m = left_by (lookup id m.clients) id m

abbrev pub dropped_if : Option InterestState → QuoteInterest → StreamManager → StreamManager
dropped_if none interest m = m
dropped_if (some s) interest m =
    if not (length s.subscribers == 0)
    then m
    else record m { interests = remove interest m.interests; dropped = m.dropped ++ interest ∷ [] }

-- `_cleanup_interest` after its sleep, as far as the lock is held.
unfoldable pub drop_interest : QuoteInterest → StreamManager → StreamManager
unfolding lookup remove
drop_interest interest m = dropped_if (lookup interest m.interests) interest m

-- The rest of `_cleanup_interest`, for the interest that was dropped first.
abbrev pub unsubscribed_from : List QuoteInterest → StreamManager → StreamManager
unsubscribed_from [] m = m
unsubscribed_from (i ∷ more) m = record m {
  calls = m.calls ++ unsubscribe_call i ∷ [];
  dropped = more;
}

unfoldable pub unsubscribe_dropped : StreamManager → StreamManager
unsubscribe_dropped m = unsubscribed_from m.dropped m
