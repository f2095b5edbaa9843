-- ===== src/EconomicCalendar/Refreshed.antt =====
-- What a refresh does to the table.
use signapse_mdg.Base.{ℕ, ◌≡◌, refl, Bool, List, [], ◌∷◌, arith, Result, ok, err}
use signapse_mdg.EconomicCalendar.{FetchedEvent, EnrichmentCandidate, Enrichment}
use signapse_mdg.EconomicCalendar.Store.{
  EventKey, EventTables, day_start, upsert_events, claim_enrichment_candidates, update_enrichments,
}
use signapse_mdg.EconomicCalendar.Once.{EventSteps, no_step, one_more, upserted, claimed, updated}
use signapse_mdg.EconomicCalendar.Refresh.{
  CalendarProvider, calendar_types, fetch_all, after_update, after_details, after_claim,
  after_upsert, after_fetch, refresh_window, in_window, refresh,
}

module _ (provider : CalendarProvider) (locked : EventKey → Bool)
    (now written_at enriched_at : ℕ) where
  abbrev Stepped : EventTables → Result (Unit {0}) × EventTables → Type 0
  Stepped tables out = EventSteps (day_start now) tables out.1

  after_details-steps :
      (t n : EventTables) (r : Result (List Enrichment))
      → EventSteps (day_start now) t n
      → Stepped t (after_details provider locked now written_at enriched_at n r)
  after_details-steps t n (err e) before = before
  after_details-steps t n (ok enrichments) before =
      update_steps (update_enrichments enriched_at enrichments n) refl
    where
      update_steps :
          (r : Result EventTables)
          → update_enrichments enriched_at enrichments n ≡ r
          → Stepped t (after_update n r)
      update_steps (ok m) h = one_more before (updated enriched_at enrichments h)
      update_steps (err e) h = before

  after_claim-steps :
      (start end : ℕ) (t n : EventTables) (r : Result (List EnrichmentCandidate × EventTables))
      → EventSteps (day_start now) t n
      → claim_enrichment_candidates locked start end now n ≡ r
      → Stepped t (after_claim provider locked now written_at enriched_at n r)
  after_claim-steps start end t n (err e) before h = before
  after_claim-steps start end t n (ok ([], m)) before h =
      one_more before (claimed locked start end now [] (omega arith) h)
  after_claim-steps start end t n (ok (c ∷ candidates, m)) before h =
      after_details-steps t m (provider.fetch_event_details (c ∷ candidates))
        (one_more before (claimed locked start end now (c ∷ candidates) (omega arith) h))

  after_upsert-steps :
      (start end : ℕ) (events : List FetchedEvent) (t : EventTables) (r : Result EventTables)
      → upsert_events written_at events t ≡ r
      → Stepped t (after_upsert provider locked now written_at enriched_at start end t r)
  after_upsert-steps start end events t (ok n) h =
      after_claim-steps start end t n (claim_enrichment_candidates locked start end now n)
        (one_more no_step (upserted written_at events h)) refl
  after_upsert-steps start end events t (err e) h = no_step

  -- What a refresh does to the table, when it succeeds and wherever it fails, is a sequence of writes that
  -- succeeded, with every claim made at the start of its day or later, so that refreshes of one day can follow each
  -- other between two claims.
  pub refresh-EventSteps :
      (tables : EventTables)
      → EventSteps
          (day_start now)
          tables
          (refresh provider locked now written_at enriched_at tables).1
  unfolding refresh
  refresh-EventSteps tables = windowed (refresh_window now)
    where
      fetched :
          (start end : ℕ) (r : Result (List FetchedEvent))
          → Stepped tables
              (after_fetch provider locked now written_at enriched_at start end tables r)
      fetched start end (ok events) =
          after_upsert-steps start end events tables (upsert_events written_at events tables) refl
      fetched start end (err e) = no_step

      windowed :
          (r : Result (ℕ × ℕ))
          → Stepped tables (in_window provider locked now written_at enriched_at r tables)
      windowed (ok (start, end)) = fetched start end (fetch_all provider calendar_types start end)
      windowed (err e) = no_step
