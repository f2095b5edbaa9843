-- ===== src/Tests/Streams.antt =====
-- Runs of the streams at concrete inputs.
use signapse_mdg.Base.{
  ℕ, ◌≡◌, refl, false, none, some, [], ◌∷◌, ◌++◌, string_eq, lookup, ok, err, key_error,
}
use signapse_mdg.Streams.{interest_eq, DownstreamEvent, status_event, stale, StreamRequest}
use signapse_mdg.Streams.Manager.{ClientRegistration, InterestState, StreamManager}
use signapse_mdg.Streams.Manager.Register.{StreamProvider, register_symbols, wants}
use signapse_mdg.Streams.Manager.Events.{mark_fresh_and_fanout, subscribed_to}
use signapse_mdg.Streams.Steps.{no_clients, registered, at_start, later}
use signapse_mdg.Streams.Queues.{IsOrderly, Clients}
use signapse_mdg.Streams.Orderly.{clients-IsOrderly}
use signapse_mdg.Streams.Failed.{Registered, failed_interest_stays}
use signapse_mdg.Streams.Fanout.{Outcome, mark_fresh_and_fanout_lem}
use signapse_mdg.Streams.Router.{
  StreamRouter, subscribe_quote, unsubscribe, routed_interest, unsubscribed_with, subscribed_with,
  unsubscribe_reaches_provider,
}
use signapse_mdg.Tests.{friday, eur_usd}

abbrev accepts : StreamProvider
accepts = record { subscribe_quote = λ calls symbol. ok tt; unsubscribe = λ calls interest. ok tt }

abbrev for_euros : StreamRequest
for_euros = record { symbols = "EURUSD" ∷ []; provider = none }

abbrev with_client : StreamManager
with_client =
    (register_symbols 8 friday accepts "client" for_euros (ok (eur_usd ∷ [])) (no_clients [])).1

clients-IsOrderly_example : Clients (IsOrderly 8) with_client.clients
clients-IsOrderly_example = clients-IsOrderly {capacity = 8} {stale_after = 60} {m = with_client} (
    later at_start
      (registered friday accepts "client" for_euros (ok (eur_usd ∷ [])) (no_clients [])))

abbrev an_event : DownstreamEvent
an_event = status_event (record {
  state = stale;
  symbols = "EURUSD" ∷ [];
  observed_at = friday;
  code = none;
  message = none;
})

abbrev the_client : ClientRegistration
the_client = record {
  id = "client";
  request = for_euros;
  interests = wants eur_usd ∷ [];
  price_display_decimals = [];
  queue = [];
  closed = false;
  close_code = 1000;
  close_reason = "";
  state = stale;
  last_event_at = none;
}

abbrev one_client : StreamManager
one_client = record {
  clients = ("client", the_client) ∷ [];
  interests =
      (
        wants eur_usd,
        record {
          symbol = eur_usd;
          subscribers = "client" ∷ [];
          last_event_at = none;
          has_cleanup = false;
        },
      )
      ∷ [];
  stopping = false;
  quotes = [];
  calls = [];
  dropped = [];
}

mark_fresh_and_fanout_lem_example :
    (next : ClientRegistration) × (lookup "client"
        (mark_fresh_and_fanout 8 friday (wants eur_usd) an_event one_client).clients
      ≡ some next)
    × Outcome 8 friday an_event
        (subscribed_to "client" (lookup (wants eur_usd) one_client.interests))
        the_client
        next
unfolding lookup
mark_fresh_and_fanout_lem_example =
    mark_fresh_and_fanout_lem 8 friday (wants eur_usd) an_event one_client "client" the_client refl

abbrev idle_router : StreamRouter ℕ
idle_router = record {
  providers = "TWELVE_DATA" ∷ [];
  forwarding = [];
  interest_providers = [];
  events = [];
  calls = [];
}

abbrev opened_router : StreamRouter ℕ
opened_router = record idle_router {
  forwarding = "TWELVE_DATA" ∷ [];
  interest_providers = (routed_interest eur_usd, "TWELVE_DATA") ∷ [];
  calls = subscribed_with "TWELVE_DATA" eur_usd ∷ [];
}

unsubscribe_reaches_provider_example :
    (unsubscribe (routed_interest eur_usd) opened_router).calls
    ≡ opened_router.calls ++ unsubscribed_with "TWELVE_DATA" (routed_interest eur_usd) ∷ []
unfolding subscribe_quote
unsubscribe_reaches_provider_example =
    unsubscribe_reaches_provider (λ s. ok tt) eur_usd idle_router opened_router refl

abbrev refuses : StreamProvider
refuses = record {
  subscribe_quote = λ calls symbol. err key_error;
  unsubscribe = λ calls interest. ok tt;
}

failed_interest_stays_example :
    (after : StreamManager) × Registered 8 friday refuses "first" for_euros eur_usd
      (no_clients [])
      (err key_error)
      after
    × ((state : InterestState) × (lookup (wants eur_usd) after.interests ≡ some state)
        × (state.subscribers ≡ [])
        × (state.has_cleanup ≡ false))
    × ((c : ClientRegistration) × (n : StreamManager) × Registered 8 friday accepts "second"
          for_euros eur_usd after
          (ok c)
          n
        × (n.calls ≡ after.calls))
unfolding lookup
failed_interest_stays_example =
    failed_interest_stays 8 friday friday refuses accepts "first" "second" for_euros for_euros
      eur_usd (no_clients []) key_error refl refl
