-- ===== src/EconomicCalendar/Store.antt =====
-- PostgresEconomicCalendarRepository of db/repositories.py over the table of the events. `now` is the
-- database's clock in the transaction.
use signapse_mdg.Base.{
  ℕ, zero, suc, ◌-◌, ◌%◌, Bool, true, false, not, ◌&&◌, ◌||◌, Option, none, some, List, [], ◌∷◌,
  map, String, string_eq, nat_eq, Eq, ◌==◌, contains, keep, ltb, leb, Dict, lookup, insert, values,
  database_unavailable, Result, ok, err, if◌then◌else◌,
}
use signapse_mdg.Time.{day}
use signapse_mdg.Database.{string_leb, sorted_by}
use signapse_mdg.EconomicCalendar.{
  EventFacts, FetchedEvent, CalendarEvent, EnrichmentCandidate, Enrichment, CalendarRequest,
}

-- The unique columns of an event.
abbrev pub EventKey : Type 0
EventKey = String × String

abbrev pub event_key_beq : EventKey → EventKey → Bool
event_key_beq (t, i) (t', i') = t == t' && i == i'

instance abbrev pub event_key_eq : Eq EventKey
event_key_eq = record { beq = event_key_beq }

-- A row: the event, and when its enrichment was last attempted.
pub record EventRow : Type 0 where
  pub event : CalendarEvent
  pub enrichment_attempted_at : Option ℕ

abbrev pub EventTable : Type 0
EventTable = Dict EventKey EventRow

pub record EventTables : Type 0 where
  pub events : EventTable
  pub broken : Bool

-- NOT `IS DISTINCT FROM`
abbrev pub same_text : Option String → Option String → Bool
same_text none none = true
same_text none (some b) = false
same_text (some a) none = false
same_text (some a) (some b) = a == b

abbrev pub same_facts : EventFacts → EventFacts → Bool
same_facts a b =
    a.name == b.name
    && (same_text a.currency b.currency
        && (same_text a.impact b.impact
            && (a.scheduled_at == b.scheduled_at
                && (same_text a.actual b.actual
                    && (same_text a.forecast b.forecast
                        && (same_text a.previous b.previous
                            && (same_text a.revision b.revision
                                && (same_text a.actual_better_worse b.actual_better_worse
                                    && same_text a.revision_better_worse
                                        b.revision_better_worse))))))))

abbrev pub coalesce : Option String → Option String → Option String
coalesce none b = b
coalesce (some a) b = some a

abbrev new_row : ℕ → FetchedEvent → EventRow
new_row now e = record {
  event = record {
    calendar_type = e.calendar_type;
    external_event_id = e.external_event_id;
    facts = e.facts;
    description = e.description;
    news_url = e.news_url;
    first_seen_at = now;
    last_seen_at = now;
    last_changed_at = now;
  };
  enrichment_attempted_at = none;
}

-- Whether the row changes by the event that is written over it.
abbrev pub is_changed : FetchedEvent → CalendarEvent → Bool
is_changed e row =
    not (same_facts row.facts e.facts)
    || (not (same_text row.description (coalesce e.description row.description))
        || not (same_text row.news_url (coalesce e.news_url row.news_url)))

abbrev pub overwritten : ℕ → FetchedEvent → EventRow → EventRow
overwritten now e row = record row {
  event = record row.event {
    facts = e.facts;
    description = coalesce e.description row.event.description;
    news_url = coalesce e.news_url row.event.news_url;
    last_seen_at = now;
    last_changed_at = if is_changed e row.event then now else row.event.last_changed_at;
  };
}

abbrev pub written_event : ℕ → FetchedEvent → Option EventRow → EventRow
written_event now e none = new_row now e
written_event now e (some row) = overwritten now e row

abbrev pub fetched_key : FetchedEvent → EventKey
fetched_key e = (e.calendar_type, e.external_event_id)

-- One INSERT … ON CONFLICT DO UPDATE
unfoldable pub upsert_event : ℕ → FetchedEvent → EventTable → EventTable
unfolding lookup insert
upsert_event now e table =
    insert (fetched_key e) (written_event now e (lookup (fetched_key e) table)) table

abbrev pub upsert_all : ℕ → List FetchedEvent → EventTable → EventTable
upsert_all now [] table = table
upsert_all now (e ∷ more) table = upsert_all now more (upsert_event now e table)

unfoldable pub upsert_events : ℕ → List FetchedEvent → EventTables → Result EventTables
unfolding upsert_event
upsert_events now [] tables = ok tables
upsert_events now (e ∷ more) tables =
    if tables.broken
    then err (database_unavailable "DATABASE_WRITE_FAILED")
    else ok (record tables { events = upsert_all now (e ∷ more) tables.events })

-- The order of the listings: by the scheduled time, the type, and the id.
abbrev pub event_before : CalendarEvent → CalendarEvent → Bool
event_before a b =
    ltb a.facts.scheduled_at b.facts.scheduled_at
    || (a.facts.scheduled_at == b.facts.scheduled_at
        && (if a.calendar_type == b.calendar_type
            then string_leb a.external_event_id b.external_event_id
            else string_leb a.calendar_type b.calendar_type))

abbrev pub allows : List String → Option String → Bool
allows [] value = true
allows (v ∷ more) none = false
allows (v ∷ more) (some value) = contains (v ∷ more) value

abbrev pub is_asked_for : CalendarRequest → CalendarEvent → Bool
is_asked_for request e =
    leb request.start e.facts.scheduled_at
    && (ltb e.facts.scheduled_at request.end
        && (allows request.types (some e.calendar_type)
            && (allows request.currencies e.facts.currency
                && allows request.impact e.facts.impact)))

-- LIMIT
abbrev pub take : ℕ → List CalendarEvent → List CalendarEvent
take zero events = []
take (suc n) [] = []
take (suc n) (e ∷ more) = e ∷ take n more

unfoldable pub list_events : EventTables → CalendarRequest → Result (List CalendarEvent)
unfolding string_leb
list_events tables request =
    if tables.broken
    then err (database_unavailable "DATABASE_QUERY_FAILED")
    else ok (
        take request.limit (
          sorted_by event_before
            (keep (is_asked_for request) (map (λ row. row.event) (values tables.events)))))

abbrev pub day_start : ℕ → ℕ
day_start t = t - t % day

abbrev missing : Option String → Bool
missing none = true
missing (some text) = false

abbrev pub not_since : ℕ → Option ℕ → Bool
not_since t none = true
not_since t (some attempted) = ltb attempted t

-- Whether the row is claimed; a row that another transaction has locked is skipped.
abbrev pub is_claimable : (EventKey → Bool) → ℕ → ℕ → ℕ → EventKey × EventRow → Bool
is_claimable locked start end attempted_at (key, row) =
    leb start row.event.facts.scheduled_at
    && (ltb row.event.facts.scheduled_at end
        && ((missing row.event.description || missing row.event.news_url)
            && (not_since (day_start attempted_at) row.enrichment_attempted_at
                && not (locked key))))

abbrev pub mark_claimed : (EventKey × EventRow → Bool) → ℕ → EventTable → EventTable
mark_claimed test attempted_at [] = []
mark_claimed test attempted_at ((key, row) ∷ more) =
    (
      key,
      if test (key, row) then record row { enrichment_attempted_at = some attempted_at } else row,
    )
    ∷ mark_claimed test attempted_at more

abbrev pub candidate_of : EventKey × EventRow → EnrichmentCandidate
candidate_of ((calendar_type, external_event_id), row) = record {
  calendar_type = calendar_type;
  external_event_id = external_event_id;
}

abbrev pub row_before : EventKey × EventRow → EventKey × EventRow → Bool
row_before a b = event_before a.1.event b.1.event

unfoldable pub claim_enrichment_candidates :
    (EventKey → Bool) → ℕ → ℕ → ℕ → EventTables → Result (List EnrichmentCandidate × EventTables)
unfolding string_leb
claim_enrichment_candidates locked start end attempted_at tables =
    let test = is_claimable locked start end attempted_at in
    if tables.broken
    then err (database_unavailable "DATABASE_WRITE_FAILED")
    else ok (
      map candidate_of (sorted_by row_before (keep test tables.events)),
      record tables { events = mark_claimed test attempted_at tables.events },
    )

abbrev pub enrichment_key : Enrichment → EventKey
enrichment_key e = (e.calendar_type, e.external_event_id)

-- Whether a text that is given differs from the row's.
abbrev differs : Option String → Option String → Bool
differs none old = false
differs (some new) old = not (same_text old (some new))

abbrev pub enriched : ℕ → Enrichment → EventRow → EventRow
enriched now e row = record row {
  event = record row.event {
    description = coalesce e.description row.event.description;
    news_url = coalesce e.news_url row.event.news_url;
    last_seen_at = now;
    last_changed_at =
        if differs e.description row.event.description || differs e.news_url row.event.news_url
        then now
        else row.event.last_changed_at;
  };
}

-- One UPDATE
abbrev pub enrich : ℕ → Enrichment → EventTable → EventTable
enrich now e [] = []
enrich now e ((key, row) ∷ more) =
    (key, if key == enrichment_key e then enriched now e row else row) ∷ enrich now e more

abbrev pub enrich_all : ℕ → List Enrichment → EventTable → EventTable
enrich_all now [] table = table
enrich_all now (e ∷ more) table = enrich_all now more (enrich now e table)

abbrev pub is_usable : Enrichment → Bool
is_usable e = not (missing e.description) || not (missing e.news_url)

abbrev pub enriched_tables : ℕ → List Enrichment → EventTables → Result EventTables
enriched_tables now [] tables = ok tables
enriched_tables now (e ∷ more) tables =
    if tables.broken
    then err (database_unavailable "DATABASE_WRITE_FAILED")
    else ok (record tables { events = enrich_all now (e ∷ more) tables.events })

unfoldable pub update_enrichments : ℕ → List Enrichment → EventTables → Result EventTables
update_enrichments now enrichments tables = enriched_tables now (keep is_usable enrichments) tables
