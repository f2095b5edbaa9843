-- ===== src/Streams/Orderly.antt =====
-- The clients of the manager in any order of its operations.
use signapse_mdg.Base.{
  Error, ℕ, ◌≡◌, refl, sym, inl, inr, true, Option, none, some, Option-cases, Result-cases, List,
  [], ◌∷◌, ◌++◌, String, string_eq, arith, contains, subst, Dict, lookup, Result, ok, err,
  Bool-cases,
}
use signapse_mdg.Symbols.{SupportedSymbol}
use signapse_mdg.Quotes.{Quote, put_many}
use signapse_mdg.Streams.{
  connecting, QuoteInterest, interest_eq, interest_of, DownstreamEvent, quote_event, StreamRequest,
}
use signapse_mdg.Streams.Steps.{
  take_event, hang_up, ManagerStep, registered, unregistered, dropped_idle, unsubscribed, quoted,
  signal_handled, checked, stopped, event_taken, hung_up, ManagerReach, at_start, later,
}
use signapse_mdg.Streams.Manager.{ClientRegistration, StreamManager, InterestState}
use signapse_mdg.Streams.Manager.Register.{
  StreamProvider, wants, with_interest, with_new, unsubscribed_from, left_by, finish_register,
  or_raise, register_symbols, open_interests, undo_opened, unregister, drop_interest,
  unsubscribe_dropped, new_registration, Opening, opened_all, failed_after,
}
use signapse_mdg.Streams.Manager.Events.{
  fan_out, mark_fresh_and_fanout, handle_quote, handle_signal, check_freshness,
  update_registration_state, stop, deliver, signalled,
}
use signapse_mdg.Streams.Queues.{
  IsOrderly, Clients, enqueue_status-IsOrderly, deliver-IsOrderly, signalled-IsOrderly,
  update_registration_state-IsOrderly, take_event-IsOrderly, hang_up-IsOrderly,
  change_clients-Clients, insert-Clients, remove-Clients,
}

-- The clients of the manager with which an opening ends.
abbrev opened_clients : Opening → Dict String ClientRegistration
opened_clients (opened_all m) = m.clients
opened_clients (failed_after e opened m) = m.clients

abbrev ClientsOrderly : ℕ → StreamManager → Type 0
ClientsOrderly capacity m = Clients (IsOrderly capacity) m.clients

new_registration-IsOrderly :
    (capacity : ℕ) (id : String) (request : StreamRequest) (symbols : List SupportedSymbol)
    → IsOrderly capacity (new_registration id request symbols)
new_registration-IsOrderly capacity id request symbols = record {
  bounded = λ h. omega arith;
  reason = inl refl;
}

open_interests_clients :
    (provider : StreamProvider) (id : String) (symbols : List SupportedSymbol)
    (opened : List QuoteInterest) (m : StreamManager)
    → opened_clients (open_interests provider id symbols opened m) ≡ m.clients
unfolding open_interests
open_interests_clients provider id [] opened m = refl
open_interests_clients provider id (s ∷ more) opened m =
    elim (Option-cases (lookup (wants s) m.interests)) [
      | inl e ↦ elim (Result-cases (provider.subscribe_quote m.calls s)) [
        | inl (done, f) ↦ ground (
          arith,
          e,
          f,
          open_interests_clients provider id more (opened ++ wants s ∷ [])
              (with_interest id s (with_new s m)),
        )
        | inr (error, f) ↦ ground (arith, e, f)
      ]
      | inr (state, e) ↦
          ground (arith, e, open_interests_clients provider id more opened (with_interest id s m))
    ]

or_raise_clients :
    (r : Result (Unit {0})) (m : StreamManager) (rest : StreamManager → Error × StreamManager)
    → (rest m).1.clients ≡ m.clients
    → (or_raise r m rest).1.clients ≡ m.clients
or_raise_clients (ok done) m rest h = h
or_raise_clients (err e) m rest h = refl

undo_opened_clients :
    (provider : StreamProvider) (e : Error) (opened : List QuoteInterest) (m : StreamManager)
    → (undo_opened provider e opened m).1.clients ≡ m.clients
unfolding undo_opened
undo_opened_clients provider e [] m = refl
undo_opened_clients provider e (i ∷ more) m =
    or_raise_clients (provider.unsubscribe m.calls i) _ (undo_opened provider e more)
      (undo_opened_clients provider e more _)

finish_register-orderly :
    (capacity now : ℕ) (provider : StreamProvider) (id : String) (request : StreamRequest)
    (symbols : List SupportedSymbol) (o : Opening)
    → Clients (IsOrderly capacity) (opened_clients o)
    → ClientsOrderly capacity (finish_register capacity now provider id request symbols o).1
finish_register-orderly capacity now provider id request symbols (opened_all m) h =
    insert-Clients (IsOrderly capacity) id _ m.clients
      (enqueue_status-IsOrderly capacity now connecting [] none none
        (new_registration id request symbols)
        (new_registration-IsOrderly capacity id request symbols))
      h
finish_register-orderly capacity now provider id request symbols (failed_after e opened m) h =
    subst (Clients (IsOrderly capacity)) (sym (undo_opened_clients provider e opened m)) h

register_symbols-orderly :
    (capacity now : ℕ) (provider : StreamProvider) (id : String) (request : StreamRequest)
    (symbols : Result (List SupportedSymbol)) (m : StreamManager)
    → ClientsOrderly capacity m
    → ClientsOrderly capacity (register_symbols capacity now provider id request symbols m).1
register_symbols-orderly capacity now provider id request (err e) m h = h
register_symbols-orderly capacity now provider id request (ok symbols) m h =
    finish_register-orderly capacity now provider id request symbols
      (open_interests provider id symbols [] m)
      (subst (Clients (IsOrderly capacity)) (sym (open_interests_clients provider id symbols [] m))
        h)

unregister-orderly :
    (capacity : ℕ) (id : String) (m : StreamManager)
    → ClientsOrderly capacity m
    → ClientsOrderly capacity (unregister id m)
unfolding unregister
unregister-orderly capacity id m h = left (lookup id m.clients)
  where
    left : (c : Option ClientRegistration) → ClientsOrderly capacity (left_by c id m)
    left none = h
    left (some c) = remove-Clients (IsOrderly capacity) id m.clients h

drop_interest-orderly :
    (capacity : ℕ) (interest : QuoteInterest) (m : StreamManager)
    → ClientsOrderly capacity m
    → ClientsOrderly capacity (drop_interest interest m)
unfolding drop_interest
drop_interest-orderly capacity interest m h = elim (Option-cases (lookup interest m.interests)) [
  | inl e ↦ ground (arith, e, h)
  | inr (s, e) ↦ ground (arith, e, h)
]

handle_quote-orderly :
    (capacity now : ℕ) (quote : Quote) (m : StreamManager)
    → ClientsOrderly capacity m
    → ClientsOrderly capacity (handle_quote capacity now quote m)
unfolding handle_quote mark_fresh_and_fanout
handle_quote-orderly capacity now quote m h = fanned (lookup (interest_of quote) m.interests)
  where
    event : DownstreamEvent
    event = quote_event quote

    fanned :
        (s : Option InterestState)
        → ClientsOrderly capacity (
            fan_out capacity now s
              (interest_of quote)
              event
              (record m { quotes = put_many (quote ∷ []) m.quotes }))
    fanned none = h
    fanned (some s) =
        change_clients-Clients (IsOrderly capacity) (contains s.subscribers)
          (deliver capacity now event) m.clients (deliver-IsOrderly capacity now event) h

unsubscribe_dropped-orderly :
    (capacity : ℕ) (m : StreamManager)
    → ClientsOrderly capacity m
    → ClientsOrderly capacity (unsubscribe_dropped m)
unfolding unsubscribe_dropped
unsubscribe_dropped-orderly capacity m h = rest m.dropped
  where
    rest : (dropped : List QuoteInterest) → ClientsOrderly capacity (unsubscribed_from dropped m)
    rest [] = h
    rest (i ∷ more) = h

stop-orderly :
    (capacity : ℕ) (m : StreamManager)
    → ClientsOrderly capacity m
    → ClientsOrderly capacity (stop m).1
unfolding stop
stop-orderly capacity m h = elim (Bool-cases m.stopping) [
  | inl e ↦ ground (arith, e, h)
  | inr e ↦ ground (arith, e, h)
]

ManagerStep-orderly :
    {capacity stale_after : ℕ} {m n : StreamManager}
    → ManagerStep capacity stale_after m n
    → ClientsOrderly capacity m
    → ClientsOrderly capacity n
unfolding handle_signal check_freshness
ManagerStep-orderly {capacity} (registered now provider id request symbols m) h =
    register_symbols-orderly capacity now provider id request symbols m h
ManagerStep-orderly {capacity} (unregistered id m) h = unregister-orderly capacity id m h
ManagerStep-orderly {capacity} (dropped_idle interest m) h =
    drop_interest-orderly capacity interest m h
ManagerStep-orderly {capacity} (unsubscribed m) h = unsubscribe_dropped-orderly capacity m h
ManagerStep-orderly {capacity} (quoted now quote m) h = handle_quote-orderly capacity now quote m h
ManagerStep-orderly {capacity} (signal_handled now signal m) h =
    change_clients-Clients (IsOrderly capacity) _ (signalled capacity now signal) m.clients
      (signalled-IsOrderly capacity now signal) h
ManagerStep-orderly {capacity} {stale_after} (checked now m) h =
    change_clients-Clients (IsOrderly capacity) (λ id. true)
      (update_registration_state capacity stale_after now) m.clients
      (update_registration_state-IsOrderly capacity stale_after now) h
ManagerStep-orderly {capacity} (stopped m) h = stop-orderly capacity m h
ManagerStep-orderly {capacity} (event_taken id m) h =
    change_clients-Clients (IsOrderly capacity) _ take_event m.clients
      (take_event-IsOrderly capacity) h
ManagerStep-orderly {capacity} (hung_up id m) h =
    change_clients-Clients (IsOrderly capacity) _ hang_up m.clients (hang_up-IsOrderly capacity) h

-- Whatever order the manager's operations, the provider's events and the clients' own steps come in, of every
-- registered client: its queue is never longer than a capacity above 0, and its close code is 1000, or the
-- client is closed and the code is 1011 or 1013.
pub clients-IsOrderly :
    {capacity stale_after : ℕ} {m : StreamManager}
    → ManagerReach capacity stale_after m
    → Clients (IsOrderly capacity) m.clients
clients-IsOrderly at_start = tt
clients-IsOrderly (later before st) = ManagerStep-orderly st (clients-IsOrderly before)
