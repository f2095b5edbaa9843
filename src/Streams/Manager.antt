-- ===== src/Streams/Manager.antt =====
-- services/stream_manager.py. A part that runs with no wait of its own, or with the lock held, is one
-- operation on the manager's state; `now` is the clock's reading. The two parts of the cleanup of an idle
-- interest, before and after the lock is given back, are two operations.
pub mod Register
pub mod Events
use signapse_mdg.Base.{
  ℕ, ◌-◌, Bool, true, false, not, ◌&&◌, ◌||◌, Option, none, some, List, [], ◌∷◌, ◌++◌, map, String,
  string_eq, nat_eq, ◌==◌, contains, keep, length, leb, ltb, Dict, lookup, insert, remove, update,
  values, Error, provider_unavailable, key_error, Result, ok, err, ◌>>=◌, if◌then◌else◌,
}
use signapse_mdg.Symbols.{SupportedSymbol}
use signapse_mdg.Quotes.{Quote, QuoteStore, put_many}
use signapse_mdg.Streams.{
  StreamState, connecting, subscribed, stale, reconnecting, errored, state_beq, QuoteInterest,
  interest_eq, interest_of, ProviderSignal, DownstreamEvent, quote_event, status_event,
  StreamRequest,
}

pub record ClientRegistration : Type 0 where
  pub id : String
  pub request : StreamRequest
  pub interests : List QuoteInterest
  pub price_display_decimals : Dict String ℕ
  pub queue : List DownstreamEvent
  pub closed : Bool
  pub close_code : ℕ
  pub close_reason : String
  pub state : StreamState
  pub last_event_at : Option ℕ

-- Of the cleanup task, whether there is one.
pub record InterestState : Type 0 where
  pub symbol : SupportedSymbol
  pub subscribers : List String
  pub last_event_at : Option ℕ
  pub has_cleanup : Bool

pub data ProviderCall : Type 0 where
  subscribe_call : SupportedSymbol → ProviderCall
  unsubscribe_call : QuoteInterest → ProviderCall

-- The manager, the quote cache that it fills, the calls that it made of the provider, and the interests
-- that a cleanup has dropped and not unsubscribed from.
pub record StreamManager : Type 0 where
  pub clients : Dict String ClientRegistration
  pub interests : Dict QuoteInterest InterestState
  pub stopping : Bool
  pub quotes : QuoteStore
  pub calls : List ProviderCall
  pub dropped : List QuoteInterest

-- `queue.put_nowait` raises QueueFull; a capacity of 0 is no bound.
abbrev pub is_full : ℕ → List DownstreamEvent → Bool
is_full capacity queue = ltb 0 capacity && leb capacity (length queue)

-- `_enqueue`
unfoldable pub enqueue : ℕ → DownstreamEvent → ClientRegistration → ClientRegistration
enqueue capacity event c =
    if c.closed
    then c
    else if is_full capacity c.queue
    then record c { close_code = 1013; close_reason = "CLIENT_TOO_SLOW"; closed = true }
    else record c { queue = c.queue ++ event ∷ [] }

abbrev pub affected_symbols : List QuoteInterest → List String → List String
affected_symbols [] symbols = symbols
affected_symbols (i ∷ more) symbols = keep (contains (map (λ x. x.symbol) (i ∷ more))) symbols

-- `_enqueue_status`; no affected interests means all symbols.
unfoldable pub enqueue_status :
    ℕ
    → ℕ
    → StreamState
    → List QuoteInterest
    → Option String
    → Option String
    → ClientRegistration
    → ClientRegistration
unfolding enqueue
enqueue_status capacity now state affected code message c =
    enqueue capacity
      (status_event (record {
        state = state;
        symbols = affected_symbols affected c.request.symbols;
        observed_at = now;
        code = code;
        message = message;
      }))
      c

-- Changes the state of an interest that is there.
abbrev pub adjust :
    QuoteInterest
    → (InterestState → InterestState)
    → Dict QuoteInterest InterestState
    → Dict QuoteInterest InterestState
adjust interest f [] = []
adjust interest f ((k, s) ∷ more) =
    let rest = adjust interest f more in if k == interest then (k, f s) ∷ more else (k, s) ∷ rest

-- `subscribers.add` and `subscribers.discard`
abbrev pub add_subscriber : String → List String → List String
add_subscriber id subscribers =
    if contains subscribers id then subscribers else subscribers ++ id ∷ []

abbrev pub discard : String → List String → List String
discard id subscribers = keep (λ other. not (other == id)) subscribers

abbrev pub subscribe_client : String → InterestState → InterestState
subscribe_client id s = record s {
  has_cleanup = false;
  subscribers = add_subscriber id s.subscribers;
}
