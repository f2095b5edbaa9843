-- ===== src/Streams/Fanout.antt =====
-- How an event of an interest comes to the clients.
use mathlib.Core.List.{append_assoc}
use signapse_mdg.Base.{
  ℕ, ◌≡◌, refl, ◌∙◌, ap, inl, inr, Bool, true, false, Option, none, some, List, [], ◌∷◌, ◌++◌,
  String, string_eq, arith, eq_iff, contains, Dict, lookup, if◌then◌else◌, Bool-cases,
}
use signapse_mdg.Streams.{
  subscribed, state_beq, QuoteInterest, interest_eq, DownstreamEvent, status_event,
}
use signapse_mdg.Streams.Manager.{
  ClientRegistration, StreamManager, InterestState, is_full, enqueue, enqueue_status,
}
use signapse_mdg.Streams.Manager.Events.{
  mark_fresh_and_fanout, change_clients, deliver, fan_out, subscribed_to,
}

-- What an event at `now` makes of a client; `subscribes` is whether the event is of its interests.
pub data Outcome (capacity now : ℕ) (event : DownstreamEvent) (subscribes : Bool)
    (c next : ClientRegistration) : Type 0 where
  unaffected : subscribes ≡ false → next ≡ c → Outcome capacity now event subscribes c next
  was_closed :
      subscribes ≡ true
      → c.closed ≡ true
      → next.queue ≡ c.queue
      → next.close_code ≡ c.close_code
      → Outcome capacity now event subscribes c next
  too_slow :
      subscribes ≡ true
      → c.closed ≡ false
      → is_full capacity c.queue ≡ true
      → next.queue ≡ c.queue
      → next.closed ≡ true
      → next.close_code ≡ 1013
      → Outcome capacity now event subscribes c next
  delivered :
      subscribes ≡ true
      → c.closed ≡ false
      → is_full capacity c.queue ≡ false
      → (rest : List DownstreamEvent) → next.queue ≡ c.queue ++ event ∷ rest
      → Outcome capacity now event subscribes c next

abbrev changed_if :
    Bool
    → (ClientRegistration → ClientRegistration)
    → Option ClientRegistration
    → Option ClientRegistration
changed_if b f none = none
changed_if b f (some c) = some (if b then f c else c)

lookup-change_clients :
    (id : String) (test : String → Bool) (f : ClientRegistration → ClientRegistration)
    (clients : Dict String ClientRegistration)
    → lookup id (change_clients test f clients) ≡ changed_if (test id) f (lookup id clients)
unfolding lookup
lookup-change_clients id test f [] = refl
lookup-change_clients id test f ((k, c) ∷ more) =
    ground (arith, eq_iff k id, lookup-change_clients id test f more)

deliver-Outcome :
    (capacity now : ℕ) (event : DownstreamEvent) (c : ClientRegistration)
    → Outcome capacity now event true c (deliver capacity now event c)
unfolding enqueue enqueue_status
deliver-Outcome capacity now event c = elim (Bool-cases c.closed) [
  | inl e ↦ was_closed refl e (ground (arith, e)) (ground (arith, e))
  | inr e ↦ elim (Bool-cases (is_full capacity c.queue)) [
    | inl f ↦ too_slow refl e f (ground (arith, e, f)) (ground (arith, e, f)) (ground (arith, e, f))
    | inr f ↦ elim (Bool-cases (state_beq c.state subscribed)) [
      | inl g ↦ delivered refl e f [] (ground (arith, e, f, g))
      | inr g ↦ elim (Bool-cases (is_full capacity (c.queue ++ event ∷ []))) [
        | inl h ↦ delivered refl e f [] (ground (arith, e, f, g, h))
        | inr h ↦
            delivered refl e f
              (status_event (record {
                state = subscribed;
                symbols = c.request.symbols;
                observed_at = now;
                code = none;
                message = none;
              })
                ∷ [])
              (ground (
                arith,
                e,
                f,
                g,
                h,
                append_assoc c.queue (event ∷ []) (
                    status_event (record {
                      state = subscribed;
                      symbols = c.request.symbols;
                      observed_at = now;
                      code = none;
                      message = none;
                    })
                    ∷ []),
              ))
      ]
    ]
  ]
]

-- After an event of an interest, a registered client is registered still, and: it is as before, if it does not
-- subscribe to the interest; its queue and its code are as before, if it was closed; its queue is as before and
-- it is closed with code 1013, if its queue was full; and otherwise its queue is the old one followed by the
-- event and by what else it was told.
pub mark_fresh_and_fanout_lem :
    (capacity now : ℕ) (interest : QuoteInterest) (event : DownstreamEvent) (m : StreamManager)
    (id : String) (c : ClientRegistration)
    → lookup id m.clients ≡ some c
    → (next : ClientRegistration) × (lookup id
          (mark_fresh_and_fanout capacity now interest event m).clients
        ≡ some next)
      × Outcome capacity now event (subscribed_to id (lookup interest m.interests)) c next
unfolding mark_fresh_and_fanout
mark_fresh_and_fanout_lem capacity now interest event m id c at =
    fanned (lookup interest m.interests)
  where
    fanned :
        (s : Option InterestState)
        → (next : ClientRegistration) × (lookup id (fan_out capacity now s interest event m).clients
            ≡ some next)
          × Outcome capacity now event (subscribed_to id s) c next
    fanned none = (c, at, unaffected refl refl)
    fanned (some s) = (
      if_subscribed (contains s.subscribers id),
      at_client s,
      if_subscribed-Outcome (contains s.subscribers id),
    )
      where
        if_subscribed : Bool → ClientRegistration
        if_subscribed b = if b then deliver capacity now event c else c

        at_client :
            (s : InterestState)
            → lookup id
                (change_clients (contains s.subscribers) (deliver capacity now event) m.clients)
              ≡ some (if contains s.subscribers id then deliver capacity now event c else c)
        at_client s =
            lookup-change_clients id (contains s.subscribers) (deliver capacity now event) m.clients
            ∙ ap (changed_if (contains s.subscribers id) (deliver capacity now event)) at

        if_subscribed-Outcome : (b : Bool) → Outcome capacity now event b c (if_subscribed b)
        if_subscribed-Outcome true = deliver-Outcome capacity now event c
        if_subscribed-Outcome false = unaffected refl refl
