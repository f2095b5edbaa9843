-- ===== src/Streams/Manager/Events.antt =====
-- services/stream_manager.py: the events of the provider, the check of freshness, and the stop.
use signapse_mdg.Base.{
  ℕ, ◌-◌, Bool, true, false, not, ◌&&◌, ◌||◌, Option, none, some, List, [], ◌∷◌, map, String,
  string_eq, nat_eq, contains, ltb, Dict, lookup, values, if◌then◌else◌,
}
use signapse_mdg.Quotes.{Quote, put_many}
use signapse_mdg.Streams.{
  subscribed, stale, reconnecting, errored, state_beq, QuoteInterest, interest_eq, interest_of,
  ProviderSignal, DownstreamEvent, quote_event,
}
use signapse_mdg.Streams.Manager.{
  ClientRegistration, InterestState, StreamManager, enqueue, enqueue_status, adjust,
}

-- Changes the clients whose names pass a test.
abbrev pub change_clients :
    (String → Bool)
    → (ClientRegistration → ClientRegistration)
    → Dict String ClientRegistration
    → Dict String ClientRegistration
change_clients test f [] = []
change_clients test f ((id, c) ∷ more) =
    (id, if test id then f c else c) ∷ change_clients test f more

-- What a client gets by an event of one of its interests.
abbrev pub deliver : ℕ → ℕ → DownstreamEvent → ClientRegistration → ClientRegistration
deliver capacity now event c =
    let got = enqueue capacity event (record c { last_event_at = some now }) in
    if state_beq got.state subscribed
    then got
    else enqueue_status capacity now subscribed [] none none (record got { state = subscribed })

abbrev pub fan_out :
    ℕ → ℕ → Option InterestState → QuoteInterest → DownstreamEvent → StreamManager → StreamManager
fan_out capacity now none interest event m = m
fan_out capacity now (some s) interest event m = record m {
  interests = adjust interest (λ x. record x { last_event_at = some now }) m.interests;
  clients = change_clients (contains s.subscribers) (deliver capacity now event) m.clients;
}

-- `_mark_fresh_and_fanout`
unfoldable pub mark_fresh_and_fanout :
    ℕ → ℕ → QuoteInterest → DownstreamEvent → StreamManager → StreamManager
unfolding lookup enqueue enqueue_status
mark_fresh_and_fanout capacity now interest event m =
    fan_out capacity now (lookup interest m.interests) interest event m

-- `_handle_quote`
unfoldable pub handle_quote : ℕ → ℕ → Quote → StreamManager → StreamManager
unfolding put_many mark_fresh_and_fanout
handle_quote capacity now quote m =
    mark_fresh_and_fanout capacity now (interest_of quote) (quote_event quote)
      (record m { quotes = put_many (quote ∷ []) m.quotes })

abbrev pub subscribed_to : String → Option InterestState → Bool
subscribed_to id none = false
subscribed_to id (some s) = contains s.subscribers id

-- Whether the client subscribes to one of the interests.
abbrev pub affected_by : List QuoteInterest → Dict QuoteInterest InterestState → String → Bool
affected_by [] interests id = false
affected_by (i ∷ more) interests id =
    subscribed_to id (lookup i interests) || affected_by more interests id

-- The round of the loop of `_handle_signal` for one client.
abbrev pub signalled : ℕ → ℕ → ProviderSignal → ClientRegistration → ClientRegistration
signalled capacity now signal c =
    if signal.failed
    then record (enqueue_status capacity now errored signal.interests (some signal.code)
        (some signal.message) (record c { state = errored })) {
          close_code = 1011;
          close_reason = signal.code;
          closed = true;
        }
    else enqueue_status capacity now reconnecting signal.interests none none
        (record c { state = reconnecting })

-- `_handle_signal`
unfoldable pub handle_signal : ℕ → ℕ → ProviderSignal → StreamManager → StreamManager
unfolding lookup enqueue_status
handle_signal capacity now signal m = record m {
  clients =
      change_clients (affected_by signal.interests m.interests) (signalled capacity now signal)
        m.clients;
}

abbrev is_stale : ℕ → ℕ → Option ℕ → Bool
is_stale stale_after now none = false
is_stale stale_after now (some last_event_at) = ltb stale_after (now - last_event_at)

-- `_update_registration_state`
unfoldable pub update_registration_state : ℕ → ℕ → ℕ → ClientRegistration → ClientRegistration
unfolding enqueue_status
update_registration_state capacity stale_after now c =
    if is_stale stale_after now c.last_event_at && not (state_beq c.state stale)
    then enqueue_status capacity now stale [] none none (record c { state = stale })
    else c

-- One round of `_monitor_freshness`.
unfoldable pub check_freshness : ℕ → ℕ → ℕ → StreamManager → StreamManager
unfolding update_registration_state
check_freshness capacity stale_after now m = record m {
  clients =
      change_clients (λ id. true) (update_registration_state capacity stale_after now) m.clients;
}

abbrev pub restarting : ClientRegistration → ClientRegistration
restarting c = record c { close_code = 1012; close_reason = "SERVICE_RESTART"; closed = true }

-- `stop` where the manager is not stopping; the clients are closed as they leave.
unfoldable pub stop : StreamManager → List ClientRegistration × StreamManager
stop m = if m.stopping then ([], m) else (
  map restarting (values m.clients),
  record m { clients = []; interests = []; stopping = true },
)
