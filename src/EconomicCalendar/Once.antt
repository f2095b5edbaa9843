-- ===== src/EconomicCalendar/Once.antt =====
-- No event is claimed for enrichment twice in a day.
use signapse_mdg.Base.{
  ℕ, ◌≤◌, ◌≡◌, inl, inr, sym, ◌∙◌, subst, Bool, true, false, List, [], ◌∷◌, map, string_eq, arith,
  All, All-mono, All-keep, All-keep_test, keep, has_key, HasDistinctKeys, Fresh, eq_self, ok,
  Bool-cases,
}
use signapse_mdg.Database.Ordering.{All-sorted_by}
use signapse_mdg.Database.{sorted_by}
use signapse_mdg.EconomicCalendar.{FetchedEvent, EnrichmentCandidate, Enrichment}
use signapse_mdg.EconomicCalendar.Store.{
  EventKey, event_key_beq, event_key_eq, EventRow, EventTable, EventTables, upsert_all,
  upsert_events, day_start, not_since, is_claimable, mark_claimed, candidate_of, row_before,
  claim_enrichment_candidates, enrich_all, is_usable, enriched_tables, update_enrichments,
}
use signapse_mdg.EconomicCalendar.Claims.{
  event_key_beq_iff, event_key_lawful, Attempted, Kept, mark_claimed-Kept, mark_claimed_key,
  upsert_all-Attempted, enrich_all-Attempted,
}

-- A write that succeeds; claims are made at `since` or later.
pub data EventStep (since : ℕ) : EventTables → EventTables → Type 0 where
  upserted :
      {t n : EventTables} (now : ℕ) (events : List FetchedEvent)
      → upsert_events now events t ≡ ok n
      → EventStep since t n
  claimed :
      {t n : EventTables} (locked : EventKey → Bool) (start end at : ℕ)
      (candidates : List EnrichmentCandidate)
      → since ≤ at
      → claim_enrichment_candidates locked start end at t ≡ ok (candidates, n)
      → EventStep since t n
  updated :
      {t n : EventTables} (now : ℕ) (enrichments : List Enrichment)
      → update_enrichments now enrichments t ≡ ok n
      → EventStep since t n

pub data EventSteps (since : ℕ) (t : EventTables) : EventTables → Type 0 where
  no_step : EventSteps since t t
  one_more : {n m : EventTables} → EventSteps since t n → EventStep since n m → EventSteps since t m

mark_claimed-Attempted :
    (since : ℕ) (key : EventKey) (test : EventKey × EventRow → Bool) (attempted_at : ℕ)
    (table : EventTable)
    → since ≤ attempted_at
    → Attempted since key table
    → Attempted since key (mark_claimed test attempted_at table)
mark_claimed-Attempted since key test attempted_at table le v = record {
  present = mark_claimed_key since key test attempted_at table ∙ v.present;
  rows = mark_claimed-Kept since key test attempted_at table le v.rows;
}

-- A claim that returned, and what it did.
pub claim-eq-ok :
    (locked : EventKey → Bool) (start end at : ℕ) (t n : EventTables)
    (candidates : List EnrichmentCandidate)
    → claim_enrichment_candidates locked start end at t ≡ ok (candidates, n)
    → (n.events ≡ mark_claimed (is_claimable locked start end at) at t.events)
      × (candidates
          ≡ map candidate_of
              (sorted_by row_before (keep (is_claimable locked start end at) t.events)))
unfolding claim_enrichment_candidates
claim-eq-ok locked start end at t n candidates h = ground (arith, h)

pub upsert_events-eq-ok :
    (now : ℕ) (events : List FetchedEvent) (t n : EventTables)
    → upsert_events now events t ≡ ok n
    → n.events ≡ upsert_all now events t.events
unfolding upsert_events
upsert_events-eq-ok now [] t n h = ground (arith, h)
upsert_events-eq-ok now (e ∷ events) t n h = ground (arith, h)

pub enriched_tables-eq-ok :
    (now : ℕ) (es : List Enrichment) (t n : EventTables)
    → enriched_tables now es t ≡ ok n
    → n.events ≡ enrich_all now es t.events
enriched_tables-eq-ok now [] t n h = ground (arith, h)
enriched_tables-eq-ok now (e ∷ es) t n h = ground (arith, h)

EventStep-Attempted :
    {since : ℕ} {t n : EventTables} (key : EventKey)
    → EventStep since t n
    → Attempted since key t.events
    → Attempted since key n.events
unfolding update_enrichments
EventStep-Attempted {since} {t} {n} key (upserted now events h) v =
    subst (Attempted since key) (sym (upsert_events-eq-ok now events t n h))
      (upsert_all-Attempted since key now events t.events v)
EventStep-Attempted {since} {t} {n} key (claimed locked start end at candidates le h) v =
    subst (Attempted since key) (sym (claim-eq-ok locked start end at t n candidates h).0)
      (mark_claimed-Attempted since key (is_claimable locked start end at) at t.events le v)
EventStep-Attempted {since} {t} {n} key (updated now enrichments h) v =
    subst (Attempted since key) (sym (enriched_tables-eq-ok now (keep is_usable enrichments) t n h))
      (enrich_all-Attempted since key now (keep is_usable enrichments) t.events v)

EventSteps-Attempted :
    {since : ℕ} {t n : EventTables} (key : EventKey)
    → EventSteps since t n
    → Attempted since key t.events
    → Attempted since key n.events
EventSteps-Attempted key no_step v = v
EventSteps-Attempted key (one_more before st) v =
    EventStep-Attempted key st (EventSteps-Attempted key before v)

Fresh-All :
    (k : EventKey) (table : EventTable)
    → Fresh k table
    → All (λ entry. event_key_beq entry.0 k ≡ false) table
Fresh-All k [] fresh = tt
Fresh-All k ((j, row) ∷ table) (here, fresh) = (here, Fresh-All k table fresh)

Fresh-Kept :
    (since : ℕ) (k : EventKey) (test : EventKey × EventRow → Bool) (attempted_at : ℕ)
    (table : EventTable)
    → Fresh k table
    → All (Kept since k) (mark_claimed test attempted_at table)
Fresh-Kept since k test attempted_at [] fresh = tt
Fresh-Kept since k test attempted_at ((j, row) ∷ table) (here, fresh) =
    (λ same. ground (arith, here, same), Fresh-Kept since k test attempted_at table fresh)

All-zip :
    (P Q R : EventKey × EventRow → Type 0) (table : EventTable)
    → ((entry : EventKey × EventRow) → P entry → Q entry → R entry)
    → All P table
    → All Q table
    → All R table
All-zip P Q R [] f ps qs = tt
All-zip P Q R (entry ∷ table) f (p, ps) (q, qs) = (f entry p q, All-zip P Q R table f ps qs)

marked_are_Attempted :
    (since attempted_at : ℕ) (test : EventKey × EventRow → Bool) (table : EventTable)
    → since ≤ attempted_at
    → HasDistinctKeys table
    → All
        (λ entry.
          test entry ≡ true → Attempted since entry.0 (mark_claimed test attempted_at table))
        table
marked_are_Attempted since attempted_at test [] le distinct = tt
marked_are_Attempted since attempted_at test ((k, row) ∷ table) le (fresh, distinct) = (
  λ passed. record {
    present = unfold has_key in ground (arith, eq_self k);
    rows = (λ same. ground (arith, passed, le), Fresh-Kept since k test attempted_at table fresh);
  },
  All-zip (λ entry. event_key_beq entry.0 k ≡ false)
      (λ entry. test entry ≡ true → Attempted since entry.0 (mark_claimed test attempted_at table))
      (λ entry.
        test entry ≡ true
        → Attempted since entry.0 (mark_claimed test attempted_at ((k, row) ∷ table)))
      table
      (λ entry other marked passed.
        let v = marked passed in
        let apart : event_key_beq k entry.0 ≡ false =
          ground (arith, other, event_key_beq_iff k entry.0, event_key_beq_iff entry.0 k) in
        record {
          present = unfold has_key in ground (arith, v.present);
          rows = (λ same. ground (arith, same, apart), v.rows);
        })
      (Fresh-All k table fresh) (marked_are_Attempted since attempted_at test table le distinct),
)

abbrev candidate_key : EnrichmentCandidate → EventKey
candidate_key c = (c.calendar_type, c.external_event_id)

-- Neither list has a key of the other.
abbrev pub Apart : List EnrichmentCandidate → List EnrichmentCandidate → Type 0
Apart first second =
    All (λ c. All (λ d. event_key_beq (candidate_key d) (candidate_key c) ≡ false) second) first

All-map_candidates :
    (P : EventKey → Type 0) (entries : EventTable)
    → All (λ entry. P entry.0) entries
    → All (λ c. P (candidate_key c)) (map candidate_of entries)
All-map_candidates P [] h = tt
All-map_candidates P ((k, row) ∷ entries) (here, h) = (here, All-map_candidates P entries h)

-- What is so of every claimable key is so of every candidate.
candidates-All :
    (P : EventKey → Type 0) (test : EventKey × EventRow → Bool) (table : EventTable)
    → All (λ entry. test entry ≡ true → P entry.0) table
    → All (λ c. P (candidate_key c)) (map candidate_of (sorted_by row_before (keep test table)))
candidates-All P test table h = All-map_candidates P (sorted_by row_before (keep test table)) (
    All-sorted_by row_before (λ entry. P entry.0) (keep test table)
      (All-zip (λ entry. test entry ≡ true → P entry.0) (λ entry. test entry ≡ true)
        (λ entry. P entry.0) (keep test table) (λ entry f passed. f passed)
        (All-keep _ test table h) (All-keep_test test table)))

first_claim :
    (locked : EventKey → Bool) (start end at : ℕ) (t n : EventTables)
    (candidates : List EnrichmentCandidate)
    → HasDistinctKeys t.events
    → claim_enrichment_candidates locked start end at t ≡ ok (candidates, n)
    → All (λ c. Attempted (day_start at) (candidate_key c) n.events) candidates
first_claim locked start end at t n candidates distinct h =
    let (marked, listed) = claim-eq-ok locked start end at t n candidates h in
    let test = is_claimable locked start end at in
    subst (λ l. All (λ c. Attempted (day_start at) (candidate_key c) n.events) l) (sym listed)
      (subst
        (λ e.
          All (λ c. Attempted (day_start at) (candidate_key c) e)
            (map candidate_of (sorted_by row_before (keep test t.events))))
        (sym marked)
        (candidates-All (λ k. Attempted (day_start at) k (mark_claimed test at t.events)) test
          t.events (marked_are_Attempted (day_start at) at test t.events (omega arith) distinct)))

later_claim :
    (locked : EventKey → Bool) (start end at : ℕ) (t n : EventTables)
    (candidates : List EnrichmentCandidate) (key : EventKey)
    → Attempted (day_start at) key t.events
    → claim_enrichment_candidates locked start end at t ≡ ok (candidates, n)
    → All (λ d. event_key_beq (candidate_key d) key ≡ false) candidates
later_claim locked start end at t n candidates key v h =
    let (marked, listed) = claim-eq-ok locked start end at t n candidates h in
    let test = is_claimable locked start end at in
    subst (λ l. All (λ d. event_key_beq (candidate_key d) key ≡ false) l) (sym listed)
      (candidates-All (λ k. event_key_beq k key ≡ false) test t.events
        (All-mono (Kept (day_start at) key) _ t.events
          (λ entry kept passed. elim (Bool-cases (event_key_beq entry.0 key)) [
            | inl e ↦ absurd (not_claimable entry (kept e) passed)
            | inr e ↦ e
          ])
          v.rows))
  where
    not_claimable :
        (entry : EventKey × EventRow)
        → not_since (day_start at) entry.1.enrichment_attempted_at ≡ false
        → ¬ (is_claimable locked start end at entry ≡ true)
    not_claimable (k, row) recent passed = ground (arith, recent, passed)

-- However events and enrichments are written in between, and whatever else is claimed then, later that day or
-- after it, two claims of one day have no event in common, if no key stands twice in the first one's table.
pub claims-Apart :
    (locked later_locked : EventKey → Bool) (start end at later_start later_end later_at : ℕ)
    (t n m u : EventTables) (first second : List EnrichmentCandidate)
    → HasDistinctKeys t.events
    → claim_enrichment_candidates locked start end at t ≡ ok (first, n)
    → EventSteps (day_start at) n m
    → claim_enrichment_candidates later_locked later_start later_end later_at m ≡ ok (second, u)
    → day_start later_at ≡ day_start at
    → Apart first second
claims-Apart locked later_locked start end at later_start later_end later_at t n m u first second
      distinct h steps h' same =
    All-mono (λ c. Attempted (day_start at) (candidate_key c) n.events) _ first
      (λ c v.
        later_claim later_locked later_start later_end later_at m u second (candidate_key c)
          (subst (λ s. Attempted s (candidate_key c) m.events) (sym same)
            (EventSteps-Attempted (candidate_key c) steps v))
          h')
      (first_claim locked start end at t n first distinct h)
