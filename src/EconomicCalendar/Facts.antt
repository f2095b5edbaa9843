-- ===== src/EconomicCalendar/Facts.antt =====
-- What a refresh makes of the facts of the events.
use signapse_mdg.Base.{
  ℕ, ◌+◌, ◌*◌, ◌≡◌, refl, sym, ◌∙◌, ap, subst, inl, inr, Bool, Bool-cases, Option, none, some, List,
  [], ◌∷◌, ◌++◌, string_eq, arith, keep, lookup, lookup-insert, Result, ok, err, ok-injective,
  err_not_ok, >>=-eq-ok, if◌then◌else◌,
}
use signapse_mdg.Time.{day, add_time, sub_time, add_time-eq-ok, sub_time-eq-ok}
use signapse_mdg.EconomicCalendar.{EventFacts, FetchedEvent, EnrichmentCandidate, Enrichment}
use signapse_mdg.EconomicCalendar.Store.{
  EventKey, event_key_beq, event_key_eq, EventRow, EventTable, EventTables, fetched_key,
  written_event, upsert_event, upsert_all, upsert_events, mark_claimed, is_claimable,
  claim_enrichment_candidates, enrich, enrich_all, is_usable, update_enrichments, day_start,
}
use signapse_mdg.EconomicCalendar.Claims.{event_key_lawful}
use signapse_mdg.EconomicCalendar.Once.{claim-eq-ok, upsert_events-eq-ok, enriched_tables-eq-ok}
use signapse_mdg.EconomicCalendar.Refresh.{
  CalendarProvider, calendar_types, fetch_all, after_update, after_details, after_claim,
  after_upsert, after_fetch, refresh_window, in_window, refresh,
}

-- The facts of a row, if there is one.
abbrev pub facts_of : Option EventRow → Option EventFacts
facts_of none = none
facts_of (some row) = some row.event.facts

abbrev pub facts_at : EventKey → EventTable → Option EventFacts
facts_at key table = facts_of (lookup key table)

-- The facts of the last of the events with the key, or else those that were there before.
abbrev pub last_facts : EventKey → List FetchedEvent → Option EventFacts → Option EventFacts
last_facts key [] before = before
last_facts key (e ∷ more) before =
    last_facts key more (if event_key_beq (fetched_key e) key then some e.facts else before)

written_facts :
    (now : ℕ) (e : FetchedEvent) (before : Option EventRow)
    → (written_event now e before).event.facts ≡ e.facts
written_facts now e none = refl
written_facts now e (some row) = refl

module _ (key : EventKey) where
  facts_at-upsert_event :
      (now : ℕ) (e : FetchedEvent) (table : EventTable)
      → facts_at key (upsert_event now e table)
        ≡ (if event_key_beq (fetched_key e) key then some e.facts else facts_at key table)
  unfolding upsert_event
  facts_at-upsert_event now e table =
      let row = written_event now e (lookup (fetched_key e) table) in
      elim (Bool-cases (event_key_beq (fetched_key e) key)) [
        | inl same ↦
            let at : lookup key (upsert_event now e table) ≡ some row =
              ground (arith, lookup-insert (fetched_key e) key row table, same) in
            rw (at, same) (ap some (written_facts now e (lookup (fetched_key e) table)))
        | inr other ↦
            let at : lookup key (upsert_event now e table) ≡ lookup key table =
              ground (arith, lookup-insert (fetched_key e) key row table, other) in
            rw (at, other) refl
      ]

  facts_at-upsert_all :
      (now : ℕ) (events : List FetchedEvent) (table : EventTable)
      → facts_at key (upsert_all now events table) ≡ last_facts key events (facts_at key table)
  facts_at-upsert_all now [] table = refl
  facts_at-upsert_all now (e ∷ more) table =
      facts_at-upsert_all now more (upsert_event now e table)
      ∙ ap (last_facts key more) (facts_at-upsert_event now e table)

  facts_at-mark_claimed :
      (test : EventKey × EventRow → Bool) (attempted_at : ℕ) (table : EventTable)
      → facts_at key (mark_claimed test attempted_at table) ≡ facts_at key table
  unfolding lookup
  facts_at-mark_claimed test attempted_at [] = refl
  facts_at-mark_claimed test attempted_at ((k, row) ∷ table) =
      elim (Bool-cases (event_key_beq k key)) [
        | inl same ↦ elim (Bool-cases (test (k, row))) [
          | inl passed ↦ rw (same, passed) refl
          | inr not_passed ↦ rw (same, not_passed) refl
        ]
        | inr other ↦ rw other (facts_at-mark_claimed test attempted_at table)
      ]

  facts_at-enrich :
      (now : ℕ) (e : Enrichment) (table : EventTable)
      → facts_at key (enrich now e table) ≡ facts_at key table
  unfolding lookup
  facts_at-enrich now e [] = refl
  facts_at-enrich now e ((k, row) ∷ table) = elim (Bool-cases (event_key_beq k key)) [
    | inl same ↦ elim (Bool-cases (event_key_beq k (e.calendar_type, e.external_event_id))) [
      | inl its_own ↦ rw (same, its_own) refl
      | inr another ↦ rw (same, another) refl
    ]
    | inr other ↦ rw other (facts_at-enrich now e table)
  ]

  facts_at-enrich_all :
      (now : ℕ) (es : List Enrichment) (table : EventTable)
      → facts_at key (enrich_all now es table) ≡ facts_at key table
  facts_at-enrich_all now [] table = refl
  facts_at-enrich_all now (e ∷ more) table =
      facts_at-enrich_all now more (enrich now e table) ∙ facts_at-enrich now e table

module _ (provider : CalendarProvider) (locked : EventKey → Bool)
    (now written_at enriched_at : ℕ) where
  -- The facts under every key are as in the table before.
  abbrev SameFacts : EventTables → EventTables → Type 0
  SameFacts before after = (key : EventKey) → facts_at key after.events ≡ facts_at key before.events

  after_details-facts :
      (t : EventTables) (r : Result (List Enrichment))
      → SameFacts t (after_details provider locked now written_at enriched_at t r).1
  unfolding update_enrichments
  after_details-facts t (err e) key = refl
  after_details-facts t (ok enrichments) key =
      of_update (update_enrichments enriched_at enrichments t) refl
    where
      of_update :
          (r : Result EventTables)
          → update_enrichments enriched_at enrichments t ≡ r
          → facts_at key (after_update t r).1.events ≡ facts_at key t.events
      of_update (err e) h = refl
      of_update (ok n) h =
          ap (facts_at key) (enriched_tables-eq-ok enriched_at (keep is_usable enrichments) t n h)
          ∙ facts_at-enrich_all key enriched_at (keep is_usable enrichments) t.events

  after_claim-facts :
      (start end : ℕ) (t : EventTables) (r : Result (List EnrichmentCandidate × EventTables))
      → claim_enrichment_candidates locked start end now t ≡ r
      → SameFacts t (after_claim provider locked now written_at enriched_at t r).1
  after_claim-facts start end t (err e) h key = refl
  after_claim-facts start end t (ok ([], n)) h key =
      ap (facts_at key) (claim-eq-ok locked start end now t n [] h).0
      ∙ facts_at-mark_claimed key (is_claimable locked start end now) now t.events
  after_claim-facts start end t (ok (c ∷ candidates, n)) h key =
      after_details-facts n (provider.fetch_event_details (c ∷ candidates)) key
      ∙ ap (facts_at key) (claim-eq-ok locked start end now t n (c ∷ candidates) h).0
      ∙ facts_at-mark_claimed key (is_claimable locked start end now) now t.events

  -- A table with the facts of the events written over those of the table before.
  abbrev pub Written : List FetchedEvent → EventTables → EventTables → Type 0
  Written events before after =
      (key : EventKey)
      → facts_at key after.events ≡ last_facts key events (facts_at key before.events)

  -- Where the events of a refresh come from: each of the four types, asked from two days before today to seven days
  -- after it.
  pub record AreFetched (events : List FetchedEvent) : Type 0 where
    pub start : ℕ
    pub end : ℕ
    pub two_days_back : start + 2 * day ≡ day_start now
    pub seven_days_on : end ≡ day_start now + 7 * day
    pub forex : List FetchedEvent
    pub metals : List FetchedEvent
    pub energy : List FetchedEvent
    pub crypto : List FetchedEvent
    pub of_forex : provider.fetch_events "FOREX" start end ≡ ok forex
    pub of_metals : provider.fetch_events "METALS" start end ≡ ok metals
    pub of_energy : provider.fetch_events "ENERGY" start end ≡ ok energy
    pub of_crypto : provider.fetch_events "CRYPTO" start end ≡ ok crypto
    pub in_order : events ≡ forex ++ (metals ++ (energy ++ (crypto ++ [])))

  after_upsert-facts :
      (start end : ℕ) (events : List FetchedEvent) (t : EventTables) (r : Result EventTables)
      → upsert_events written_at events t ≡ r
      → (after_upsert provider locked now written_at enriched_at start end t r).0 ≡ ok tt
      → Written events t (after_upsert provider locked now written_at enriched_at start end t r).1
  after_upsert-facts start end events t (err e) h done key = absurd (err_not_ok done)
  after_upsert-facts start end events t (ok n) h done key =
      after_claim-facts start end n (claim_enrichment_candidates locked start end now n) refl key
      ∙ ap (facts_at key) (upsert_events-eq-ok written_at events t n h)
      ∙ facts_at-upsert_all key written_at events t.events

  fetch_all-AreFetched :
      (start end : ℕ) (events : List FetchedEvent)
      → start + 2 * day ≡ day_start now
      → end ≡ day_start now + 7 * day
      → fetch_all provider calendar_types start end ≡ ok events
      → AreFetched events
  fetch_all-AreFetched start end events back on h =
      let (forex, of_forex, h1) = >>=-eq-ok (provider.fetch_events "FOREX" start end) _ h in
      let (rest1, at1, e1) =
        >>=-eq-ok (fetch_all provider ("METALS" ∷ "ENERGY" ∷ "CRYPTO" ∷ []) start end) _ h1 in
      let (metals, of_metals, h2) = >>=-eq-ok (provider.fetch_events "METALS" start end) _ at1 in
      let (rest2, at2, e2) =
        >>=-eq-ok (fetch_all provider ("ENERGY" ∷ "CRYPTO" ∷ []) start end) _ h2 in
      let (energy, of_energy, h3) = >>=-eq-ok (provider.fetch_events "ENERGY" start end) _ at2 in
      let (rest3, at3, e3) = >>=-eq-ok (fetch_all provider ("CRYPTO" ∷ []) start end) _ h3 in
      let (crypto, of_crypto, e4) = >>=-eq-ok (provider.fetch_events "CRYPTO" start end) _ at3 in
      record {
        start = start;
        end = end;
        two_days_back = back;
        seven_days_on = on;
        forex = forex;
        metals = metals;
        energy = energy;
        crypto = crypto;
        of_forex = of_forex;
        of_metals = of_metals;
        of_energy = of_energy;
        of_crypto = of_crypto;
        in_order =
            sym (ok-injective e1)
            ∙ ap (λ r. forex ++ r)
                (sym (ok-injective e2)
                  ∙ ap (λ r. metals ++ r)
                      (sym (ok-injective e3) ∙ ap (λ r. energy ++ r) (sym (ok-injective e4))));
      }

  refresh_window-lem :
      (start end : ℕ)
      → refresh_window now ≡ ok (start, end)
      → (start + 2 * day ≡ day_start now) × (end ≡ day_start now + 7 * day)
  unfolding refresh_window
  refresh_window-lem start end h =
      let (s, back, h1) = >>=-eq-ok (sub_time (day_start now) (2 * day)) _ h in
      let (e, on, h2) = >>=-eq-ok (add_time (day_start now) (7 * day)) _ h1 in
      let same = ok-injective h2 in
      (
        subst (λ x. x + 2 * day ≡ day_start now) (ap (λ p. p.0) same) (sub_time-eq-ok _ _ s back),
        subst (λ x. x ≡ day_start now + 7 * day) (ap (λ p. p.1) same) (add_time-eq-ok _ _ e on).0,
      )

  -- After a refresh that succeeds, the facts under every key are those of the last event with the key among those
  -- that the provider gave, for the four types in turn and from two days before today to seven days after it, or
  -- else the facts that stood there before: neither the claim nor the details change any.
  pub refresh-facts :
      (tables : EventTables)
      → (refresh provider locked now written_at enriched_at tables).0 ≡ ok tt
      → (events : List FetchedEvent) × AreFetched events
        × Written events tables (refresh provider locked now written_at enriched_at tables).1
  unfolding refresh
  refresh-facts tables h = windowed (refresh_window now) refl h
    where
      fetched :
          (start end : ℕ) (r : Result (List FetchedEvent))
          → refresh_window now ≡ ok (start, end)
          → fetch_all provider calendar_types start end ≡ r
          → (after_fetch provider locked now written_at enriched_at start end tables r).0 ≡ ok tt
          → (events : List FetchedEvent) × AreFetched events
            × Written events tables
                (after_fetch provider locked now written_at enriched_at start end tables r).1
      fetched start end (err e) w f done = absurd (err_not_ok done)
      fetched start end (ok events) w f done =
          let (back, on) = refresh_window-lem start end w in
          (
            events,
            fetch_all-AreFetched start end events back on f,
            after_upsert-facts start end events tables (upsert_events written_at events tables) refl
                done,
          )

      windowed :
          (r : Result (ℕ × ℕ))
          → refresh_window now ≡ r
          → (in_window provider locked now written_at enriched_at r tables).0 ≡ ok tt
          → (events : List FetchedEvent) × AreFetched events
            × Written events tables
                (in_window provider locked now written_at enriched_at r tables).1
      windowed (err e) w done = absurd (err_not_ok done)
      windowed (ok (start, end)) w done =
          fetched start end (fetch_all provider calendar_types start end) w refl done
