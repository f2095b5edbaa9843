-- ===== src/Streams/Queues.antt =====
-- The queues and the closing of the clients, in any order of the manager's operations.
use signapse_mdg.Base.{
  ℕ, ◌≤◌, ◌<◌, ◌≡◌, refl, ◌⊎◌, inl, inr, Bool, true, Option, none, some, List, [], ◌∷◌, String,
  string_eq, arith, length, length-append, All, Dict, insert, remove, Bool-cases,
}
use signapse_mdg.Streams.{
  StreamState, subscribed, stale, reconnecting, errored, state_beq, QuoteInterest, interest_eq,
  ProviderSignal, DownstreamEvent,
}
use signapse_mdg.Streams.Steps.{tail, take_event, hang_up}
use signapse_mdg.Streams.Manager.{ClientRegistration, enqueue, enqueue_status}
use signapse_mdg.Streams.Manager.Events.{
  update_registration_state, change_clients, deliver, signalled,
}

-- No queue is longer than its capacity, and a client that got a code other than 1000 is closed: it was too
-- slow, or its provider failed.
pub record IsOrderly (capacity : ℕ) (c : ClientRegistration) : Type 0 where
  pub bounded : 0 < capacity → length c.queue ≤ capacity
  pub reason :
      (c.close_code ≡ 1000) ⊎ ((c.closed ≡ true) × ((c.close_code ≡ 1011) ⊎ (c.close_code ≡ 1013)))

enqueue-IsOrderly :
    (capacity : ℕ) (event : DownstreamEvent) (c : ClientRegistration)
    → IsOrderly capacity c
    → IsOrderly capacity (enqueue capacity event c)
unfolding enqueue
enqueue-IsOrderly capacity event c v = record {
  bounded = λ h. ground (arith, v.bounded, length-append c.queue (event ∷ []));
  reason = ground (arith, v.reason);
}

pub enqueue_status-IsOrderly :
    (capacity now : ℕ) (s : StreamState) (affected : List QuoteInterest)
    (code message : Option String) (c : ClientRegistration)
    → IsOrderly capacity c
    → IsOrderly capacity (enqueue_status capacity now s affected code message c)
unfolding enqueue_status
enqueue_status-IsOrderly capacity now s affected code message c v = enqueue-IsOrderly capacity _ c v

pub deliver-IsOrderly :
    (capacity now : ℕ) (event : DownstreamEvent) (c : ClientRegistration)
    → IsOrderly capacity c
    → IsOrderly capacity (deliver capacity now event c)
deliver-IsOrderly capacity now event c v = elim (Bool-cases (state_beq got.state subscribed)) [
  | inl e ↦ ground (arith, e, got-IsOrderly)
  | inr e ↦ ground (arith, e, told-IsOrderly)
]
  where
    got : ClientRegistration
    got = enqueue capacity event (record c { last_event_at = some now })

    got-IsOrderly : IsOrderly capacity got
    got-IsOrderly =
        enqueue-IsOrderly capacity event (record c { last_event_at = some now })
          (record { bounded = v.bounded; reason = v.reason })

    told-IsOrderly :
        IsOrderly capacity
          (enqueue_status capacity now subscribed [] none none (record got { state = subscribed }))
    told-IsOrderly =
        enqueue_status-IsOrderly capacity now subscribed [] none none
          (record got { state = subscribed })
          (record { bounded = got-IsOrderly.bounded; reason = got-IsOrderly.reason })

pub signalled-IsOrderly :
    (capacity now : ℕ) (signal : ProviderSignal) (c : ClientRegistration)
    → IsOrderly capacity c
    → IsOrderly capacity (signalled capacity now signal c)
signalled-IsOrderly capacity now signal c v = elim (Bool-cases signal.failed) [
  | inl e ↦ ground (arith, e, failed-IsOrderly)
  | inr e ↦ ground (
    arith,
    e,
    enqueue_status-IsOrderly capacity now reconnecting signal.interests none none
        (record c { state = reconnecting }) (record { bounded = v.bounded; reason = v.reason }),
  )
]
  where
    told : ClientRegistration
    told =
        enqueue_status capacity now errored signal.interests (some signal.code)
          (some signal.message) (record c { state = errored })

    told-IsOrderly : IsOrderly capacity told
    told-IsOrderly =
        enqueue_status-IsOrderly capacity now errored signal.interests (some signal.code)
          (some signal.message) (record c { state = errored })
          (record { bounded = v.bounded; reason = v.reason })

    failed-IsOrderly :
        IsOrderly capacity
          (record told { close_code = 1011; close_reason = signal.code; closed = true })
    failed-IsOrderly = record { bounded = told-IsOrderly.bounded; reason = inr (refl, inl refl) }

pub update_registration_state-IsOrderly :
    (capacity stale_after now : ℕ) (c : ClientRegistration)
    → IsOrderly capacity c
    → IsOrderly capacity (update_registration_state capacity stale_after now c)
unfolding update_registration_state
update_registration_state-IsOrderly capacity stale_after now c v = ground (
  arith,
  v,
  enqueue_status-IsOrderly capacity now stale [] none none (record c { state = stale })
      (record { bounded = v.bounded; reason = v.reason }),
)

length-tail : (queue : List DownstreamEvent) → length (tail queue) ≤ length queue
length-tail [] = omega arith
length-tail (event ∷ queue) = omega arith

pub take_event-IsOrderly :
    (capacity : ℕ) (c : ClientRegistration)
    → IsOrderly capacity c
    → IsOrderly capacity (take_event c)
take_event-IsOrderly capacity c v = record {
  bounded = λ h. omega (arith, length-tail c.queue, v.bounded h);
  reason = v.reason;
}

pub hang_up-IsOrderly :
    (capacity : ℕ) (c : ClientRegistration) → IsOrderly capacity c → IsOrderly capacity (hang_up c)
hang_up-IsOrderly capacity c v = record { bounded = v.bounded; reason = ground (arith, v.reason) }

-- What a test on its registration says of every client.
abbrev pub Clients : (ClientRegistration → Type 0) → Dict String ClientRegistration → Type 0
Clients P clients = All (λ entry. P entry.1) clients

pub change_clients-Clients :
    (P : ClientRegistration → Type 0) (test : String → Bool)
    (f : ClientRegistration → ClientRegistration) (clients : Dict String ClientRegistration)
    → ((c : ClientRegistration) → P c → P (f c))
    → Clients P clients
    → Clients P (change_clients test f clients)
change_clients-Clients P test f [] kept h = tt
change_clients-Clients P test f ((id, c) ∷ more) kept (h, hs) =
    (ground (arith, h, kept c h), change_clients-Clients P test f more kept hs)

pub insert-Clients :
    (P : ClientRegistration → Type 0) (id : String) (c : ClientRegistration)
    (clients : Dict String ClientRegistration)
    → P c
    → Clients P clients
    → Clients P (insert id c clients)
unfolding insert
insert-Clients P id c [] h hs = (h, tt)
insert-Clients P id c ((k, v) ∷ more) h (p, ps) = ground (arith, insert-Clients P id c more h ps)

pub remove-Clients :
    (P : ClientRegistration → Type 0) (id : String) (clients : Dict String ClientRegistration)
    → Clients P clients
    → Clients P (remove id clients)
unfolding remove
remove-Clients P id [] hs = tt
remove-Clients P id ((k, v) ∷ more) (p, ps) = ground (arith, remove-Clients P id more ps)
