-- ===== src/Streams/Steps.antt =====
-- The operations of services/stream_manager.py in any order, with the steps of a client's own connection in
-- api/routes_stream.py.
use signapse_mdg.Base.{ℕ, true, false, List, [], ◌∷◌, String, string_eq, ◌==◌, Result}
use signapse_mdg.Symbols.{SupportedSymbol}
use signapse_mdg.Quotes.{Quote, QuoteStore}
use signapse_mdg.Streams.{QuoteInterest, ProviderSignal, DownstreamEvent, StreamRequest}
use signapse_mdg.Streams.Manager.{ClientRegistration, StreamManager}
use signapse_mdg.Streams.Manager.Register.{
  StreamProvider, register_symbols, unregister, drop_interest, unsubscribe_dropped,
}
use signapse_mdg.Streams.Manager.Events.{
  handle_quote, handle_signal, check_freshness, stop, change_clients,
}

abbrev pub tail : List DownstreamEvent → List DownstreamEvent
tail [] = []
tail (event ∷ queue) = queue

-- The client's task takes the next event of its queue.
abbrev pub take_event : ClientRegistration → ClientRegistration
take_event c = record c { queue = tail c.queue }

-- The client has gone.
abbrev pub hang_up : ClientRegistration → ClientRegistration
hang_up c = record c { closed = true }

-- One step; of `register`, the part that follows its first test, which a stop may come between.
pub data ManagerStep (capacity stale_after : ℕ) : StreamManager → StreamManager → Type 0 where
  registered :
      (now : ℕ) (provider : StreamProvider) (id : String) (request : StreamRequest)
      (symbols : Result (List SupportedSymbol)) (m : StreamManager)
      → ManagerStep capacity stale_after m
          (register_symbols capacity now provider id request symbols m).1
  unregistered :
      (id : String) (m : StreamManager) → ManagerStep capacity stale_after m (unregister id m)
  dropped_idle :
      (interest : QuoteInterest) (m : StreamManager)
      → ManagerStep capacity stale_after m (drop_interest interest m)
  unsubscribed : (m : StreamManager) → ManagerStep capacity stale_after m (unsubscribe_dropped m)
  quoted :
      (now : ℕ) (quote : Quote) (m : StreamManager)
      → ManagerStep capacity stale_after m (handle_quote capacity now quote m)
  signal_handled :
      (now : ℕ) (signal : ProviderSignal) (m : StreamManager)
      → ManagerStep capacity stale_after m (handle_signal capacity now signal m)
  checked :
      (now : ℕ) (m : StreamManager)
      → ManagerStep capacity stale_after m (check_freshness capacity stale_after now m)
  stopped : (m : StreamManager) → ManagerStep capacity stale_after m (stop m).1
  event_taken :
      (id : String) (m : StreamManager)
      → ManagerStep capacity stale_after m
          (record m { clients = change_clients (λ other. other == id) take_event m.clients })
  hung_up :
      (id : String) (m : StreamManager)
      → ManagerStep capacity stale_after m
          (record m { clients = change_clients (λ other. other == id) hang_up m.clients })

abbrev pub no_clients : QuoteStore → StreamManager
no_clients quotes = record {
  clients = [];
  interests = [];
  stopping = false;
  quotes = quotes;
  calls = [];
  dropped = [];
}

pub data ManagerReach (capacity stale_after : ℕ) : StreamManager → Type 0 where
  at_start : {quotes : QuoteStore} → ManagerReach capacity stale_after (no_clients quotes)
  later :
      {m n : StreamManager}
      → ManagerReach capacity stale_after m
      → ManagerStep capacity stale_after m n
      → ManagerReach capacity stale_after n
