-- ===== src/EconomicCalendar/Rewrites.antt =====
-- Writing an event over itself.
use signapse_mdg.Base.{
  ℕ, ◌≡◌, ◌≢◌, ◌⊎◌, Option, none, some, String, string_eq, string_lawful, nat_eq, nat_lawful,
}
use signapse_mdg.EconomicCalendar.{FetchedEvent}
use signapse_mdg.EconomicCalendar.Store.{event_key_eq, EventRow}
use signapse_mdg.EconomicCalendar.Claims.{event_key_lawful}

abbrev pub seen_again : ℕ → EventRow → EventRow
seen_again later row = record row { event = record row.event { last_seen_at = later } }

-- The text that a row had, if it had one.
abbrev text_before : (EventRow → Option String) → Option EventRow → Option String
text_before text none = none
text_before text (some row) = text row

-- A text that is given replaces the old one; where none is given, the old one stays.
abbrev pub IsCarried : Option String → Option String → Option String → Type 0
IsCarried given old new = ((given ≢ none) × (new ≡ given)) ⊎ ((given ≡ none) × (new ≡ old))

-- What a row is, after an event was written over what stood there.
pub record IsWritten (e : FetchedEvent) (before : Option EventRow) (row : EventRow) : Type 0 where
  pub facts : row.event.facts ≡ e.facts
  pub description :
      IsCarried e.description (text_before (λ r. r.event.description) before) row.event.description
  pub news_url :
      IsCarried e.news_url (text_before (λ r. r.event.news_url) before) row.event.news_url
