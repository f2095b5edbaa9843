-- ===== src/EconomicCalendar/Refresh.antt =====
-- services/economic_calendar_refresh.py: one refresh of the calendar. `now` is the service's clock, and the
-- database's clock in each of the transactions is `written_at` and `enriched_at`.
use signapse_mdg.Base.{ℕ, ◌*◌, Bool, List, [], ◌∷◌, ◌++◌, String, Result, ok, err, ◌>>=◌}
use signapse_mdg.Time.{day, add_time, sub_time}
use signapse_mdg.EconomicCalendar.{FetchedEvent, EnrichmentCandidate, Enrichment}
use signapse_mdg.EconomicCalendar.Store.{
  EventKey, EventTables, day_start, upsert_events, claim_enrichment_candidates, update_enrichments,
}

-- `EconomicCalendarProvider`; what it answers may differ from refresh to refresh.
pub record CalendarProvider : Type 0 where
  pub fetch_events : String → ℕ → ℕ → Result (List FetchedEvent)
  pub fetch_event_details : List EnrichmentCandidate → Result (List Enrichment)

abbrev pub calendar_types : List String
calendar_types = "FOREX" ∷ "METALS" ∷ "ENERGY" ∷ "CRYPTO" ∷ []

abbrev pub fetch_all : CalendarProvider → List String → ℕ → ℕ → Result (List FetchedEvent)
fetch_all provider [] start end = ok []
fetch_all provider (calendar_type ∷ more) start end = do
  events ← provider.fetch_events calendar_type start end
  rest ← fetch_all provider more start end
  ok (events ++ rest)

-- The window of a refresh: from two days before today to seven days after it.
unfoldable pub refresh_window : ℕ → Result (ℕ × ℕ)
unfolding add_time sub_time
refresh_window now = do
  start ← sub_time (day_start now) (2 * day)
  end ← add_time (day_start now) (7 * day)
  ok (start, end)

abbrev pub after_update : EventTables → Result EventTables → Result (Unit {0}) × EventTables
after_update tables (ok next) = (ok tt, next)
after_update tables (err e) = (err e, tables)

module _ (provider : CalendarProvider) (locked : EventKey → Bool)
    (now written_at enriched_at : ℕ) where
  abbrev pub after_details :
      EventTables → Result (List Enrichment) → Result (Unit {0}) × EventTables
  after_details tables (ok enrichments) =
      after_update tables (update_enrichments enriched_at enrichments tables)
  after_details tables (err e) = (err e, tables)

  abbrev pub after_claim :
      EventTables
      → Result (List EnrichmentCandidate × EventTables)
      → Result (Unit {0}) × EventTables
  after_claim tables (ok ([], next)) = (ok tt, next)
  after_claim tables (ok (c ∷ candidates, next)) =
      after_details next (provider.fetch_event_details (c ∷ candidates))
  after_claim tables (err e) = (err e, tables)

  abbrev pub after_upsert :
      ℕ → ℕ → EventTables → Result EventTables → Result (Unit {0}) × EventTables
  after_upsert start end tables (ok next) =
      after_claim next (claim_enrichment_candidates locked start end now next)
  after_upsert start end tables (err e) = (err e, tables)

  abbrev pub after_fetch :
      ℕ → ℕ → EventTables → Result (List FetchedEvent) → Result (Unit {0}) × EventTables
  after_fetch start end tables (ok events) =
      after_upsert start end tables (upsert_events written_at events tables)
  after_fetch start end tables (err e) = (err e, tables)

  abbrev pub in_window : Result (ℕ × ℕ) → EventTables → Result (Unit {0}) × EventTables
  in_window (ok (start, end)) tables =
      after_fetch start end tables (fetch_all provider calendar_types start end)
  in_window (err e) tables = (err e, tables)

  -- `refresh`: what it returns or raises, and the tables then; what a step wrote is kept when a later one raises.
  unfoldable pub refresh : EventTables → Result (Unit {0}) × EventTables
  unfolding upsert_events claim_enrichment_candidates update_enrichments refresh_window
  refresh tables = in_window (refresh_window now) tables
