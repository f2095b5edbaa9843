-- ===== src/EconomicCalendar/Claims.antt =====
-- The claims of events for enrichment, whatever else is written between them.
use signapse_mdg.Base.{
  ℕ, ◌≤◌, ◌≡◌, ◌↔◌, inl, inr, refl, ◌∙◌, Bool, true, false, some, List, [], ◌∷◌, string_eq,
  LawfulEq, arith, eq_iff, All, lookup, insert, has_key, has_key-insert, Bool-cases,
}
use signapse_mdg.EconomicCalendar.{FetchedEvent, Enrichment}
use signapse_mdg.EconomicCalendar.Store.{
  EventKey, event_key_beq, event_key_eq, EventRow, EventTable, fetched_key, written_event,
  upsert_event, upsert_all, not_since, mark_claimed, enrich, enrich_all,
}

pub event_key_beq_iff : (p q : EventKey) → (event_key_beq p q ≡ true) ↔ (p ≡ q)
event_key_beq_iff (t, i) (t', i') = ground (arith, eq_iff t t', eq_iff i i')

instance abbrev pub event_key_lawful : LawfulEq EventKey event_key_eq
event_key_lawful = record { beq_iff = event_key_beq_iff }

-- The key has a row, and no row with it lacks an attempt at `since` or later.
pub record Attempted (since : ℕ) (key : EventKey) (table : EventTable) : Type 0 where
  pub present : has_key key table ≡ true
  pub rows :
      All
        (λ entry.
          event_key_beq entry.0 key ≡ true
          → not_since since entry.1.enrichment_attempted_at ≡ false)
        table

module _ (since : ℕ) (key : EventKey) where
  abbrev pub Kept : EventKey × EventRow → Type 0
  Kept entry =
      event_key_beq entry.0 key ≡ true → not_since since entry.1.enrichment_attempted_at ≡ false

  lookup-Kept :
      (table : EventTable)
      → has_key key table ≡ true
      → All Kept table
      → (row : EventRow) × (lookup key table ≡ some row)
        × (not_since since row.enrichment_attempted_at ≡ false)
  unfolding has_key lookup
  lookup-Kept [] there h = cc
  lookup-Kept ((k, row) ∷ table) there (here, h) = elim (Bool-cases (event_key_beq k key)) [
    | inl e ↦ (row, ground (arith, e), here e)
    | inr e ↦
        let (found, at, fine) = lookup-Kept table (ground (arith, e, there)) h in
        (found, ground (arith, e, at), fine)
  ]

  written-Kept :
      (now : ℕ) (e : FetchedEvent) (table : EventTable)
      → Attempted since key table
      → Kept (fetched_key e, written_event now e (lookup (fetched_key e) table))
  written-Kept now e table v same =
      let (row, at, fine) = lookup-Kept table v.present v.rows in
      rw ((event_key_beq_iff (fetched_key e) key).0 same, at) fine

  insert-Kept :
      (k : EventKey) (row : EventRow) (table : EventTable)
      → Kept (k, row)
      → All Kept table
      → All Kept (insert k row table)
  unfolding insert
  insert-Kept k row [] here h = (here, tt)
  insert-Kept k row ((j, r) ∷ table) here (there, h) = elim (Bool-cases (event_key_beq j k)) [
    | inl e ↦ ground (arith, e, here, (event_key_beq_iff j k).0 e, h)
    | inr e ↦ ground (arith, e, there, insert-Kept k row table here h)
  ]

  pub mark_claimed-Kept :
      (test : EventKey × EventRow → Bool) (attempted_at : ℕ) (table : EventTable)
      → since ≤ attempted_at
      → All Kept table
      → All Kept (mark_claimed test attempted_at table)
  mark_claimed-Kept test attempted_at [] le h = tt
  mark_claimed-Kept test attempted_at ((k, row) ∷ table) le (here, h) =
      (λ same. ground (arith, le, here same), mark_claimed-Kept test attempted_at table le h)

  enrich-Kept :
      (now : ℕ) (e : Enrichment) (table : EventTable)
      → All Kept table
      → All Kept (enrich now e table)
  enrich-Kept now e [] h = tt
  enrich-Kept now e ((k, row) ∷ table) (here, h) =
      (λ same. ground (arith, here same), enrich-Kept now e table h)

  pub mark_claimed_key :
      (test : EventKey × EventRow → Bool) (attempted_at : ℕ) (table : EventTable)
      → has_key key (mark_claimed test attempted_at table) ≡ has_key key table
  unfolding has_key
  mark_claimed_key test attempted_at [] = refl
  mark_claimed_key test attempted_at ((k, row) ∷ table) =
      ground (arith, mark_claimed_key test attempted_at table)

  enrich_key :
      (now : ℕ) (e : Enrichment) (table : EventTable)
      → has_key key (enrich now e table) ≡ has_key key table
  unfolding has_key
  enrich_key now e [] = refl
  enrich_key now e ((k, row) ∷ table) = ground (arith, enrich_key now e table)

  upsert_event-Attempted :
      (now : ℕ) (e : FetchedEvent) (table : EventTable)
      → Attempted since key table
      → Attempted since key (upsert_event now e table)
  unfolding upsert_event
  upsert_event-Attempted now e table v = record {
    present = ground (
      arith,
      v.present,
      has_key-insert (fetched_key e) key (written_event now e (lookup (fetched_key e) table)) table,
    );
    rows = insert-Kept (fetched_key e) _ table (written-Kept now e table v) v.rows;
  }

  pub upsert_all-Attempted :
      (now : ℕ) (es : List FetchedEvent) (table : EventTable)
      → Attempted since key table
      → Attempted since key (upsert_all now es table)
  upsert_all-Attempted now [] table v = v
  upsert_all-Attempted now (e ∷ more) table v =
      upsert_all-Attempted now more (upsert_event now e table)
        (upsert_event-Attempted now e table v)

  pub enrich_all-Attempted :
      (now : ℕ) (es : List Enrichment) (table : EventTable)
      → Attempted since key table
      → Attempted since key (enrich_all now es table)
  enrich_all-Attempted now [] table v = v
  enrich_all-Attempted now (e ∷ more) table v =
      enrich_all-Attempted now more (enrich now e table) (record {
        present = enrich_key now e table ∙ v.present;
        rows = enrich-Kept now e table v.rows;
      })
