-- ===== src/Database/Candles.antt =====
-- What the candle table holds, by its key.
use signapse_mdg.Base.{
  ℕ, ◌≤◌, ◌≡◌, ◌↔◌, inl, inr, refl, sym, ◌∙◌, ap, subst, Bool, true, false, ◌&&◌, Option, none,
  some, List, [], ◌∷◌, String, string_eq, nat_eq, nat_beq_iff, LawfulEq, ◌==◌, arith, eq_iff, All,
  All-mono, All-keep_test, keep, any, first, ltb, leb, Dict, insert, lookup, lookup-insert, values,
  HasDistinctKeys, HasDistinctKeys-insert, ok, ok-injective, err_not_ok, if◌then◌else◌, Bool-cases,
}
use signapse_mdg.Symbols.{SupportedSymbol}
use signapse_mdg.Candles.{Candle}
use signapse_mdg.Database.{
  place, sorted_by, CandleKey, candle_key_beq, candle_key_eq, candle_key, Tables, is_listed,
  opens_before, list_complete, has_repeats, insert_all, stored_all, upsert_complete,
}

pub candle_key_beq_iff : (p q : CandleKey) → (candle_key_beq p q ≡ true) ↔ (p ≡ q)
candle_key_beq_iff (p, s, t, o) (p', s', t', o') =
    ground (arith, eq_iff p p', eq_iff s s', eq_iff t t', nat_beq_iff o o')

instance abbrev pub candle_key_lawful : LawfulEq CandleKey candle_key_eq
candle_key_lawful = record { beq_iff = candle_key_beq_iff }

-- Every row is complete and stands under its own key, and no key stands twice.
pub record IsSound (table : Dict CandleKey Candle) : Type 0 where
  pub distinct : HasDistinctKeys table
  pub rows : All (λ entry. (entry.0 ≡ candle_key entry.1) × (entry.1.complete ≡ true)) table

-- The candle of a list that opens at an instant.
abbrev pub opening_at : ℕ → List Candle → Option Candle
opening_at t candles = first (λ c. c.open_time == t) candles

opening_at-place :
    (t : ℕ) (c : Candle) (candles : List Candle)
    → opening_at t (place opens_before c candles) ≡ opening_at t (c ∷ candles)
opening_at-place t c [] = refl
opening_at-place t c (d ∷ more) = ground (arith, opening_at-place t c more)

opening_at-sorted_by :
    (t : ℕ) (candles : List Candle)
    → opening_at t (sorted_by opens_before candles) ≡ opening_at t candles
opening_at-sorted_by t [] = refl
opening_at-sorted_by t (c ∷ more) =
    ground (arith, opening_at-place t c (sorted_by opens_before more), opening_at-sorted_by t more)

-- The row that a listing of a range is to show for an instant.
abbrev pub in_range : ℕ → ℕ → ℕ → Option Candle → Option Candle
in_range start end t row = if leb start t && ltb t end then row else none

abbrev pub row_key : SupportedSymbol → String → ℕ → CandleKey
row_key symbol timeframe t = (symbol.provider, symbol.provider_symbol, timeframe, t)

opening_at-keep :
    (symbol : SupportedSymbol) (timeframe : String) (start end t : ℕ)
    (table : Dict CandleKey Candle)
    → All (λ entry. (entry.0 ≡ candle_key entry.1) × (entry.1.complete ≡ true)) table
    → opening_at t (keep (is_listed symbol timeframe start end) (values table))
      ≡ in_range start end t (lookup (row_key symbol timeframe t) table)
unfolding lookup
opening_at-keep symbol timeframe start end t [] h = ground arith
opening_at-keep symbol timeframe start end t ((k, c) ∷ more) ((at, complete), h) = ground (
  arith,
  at,
  complete,
  candle_key_beq_iff k (row_key symbol timeframe t),
  eq_iff c.provider symbol.provider,
  eq_iff c.provider_symbol symbol.provider_symbol,
  eq_iff c.timeframe timeframe,
  nat_beq_iff c.open_time t,
  opening_at-keep symbol timeframe start end t more h,
)

rows-insert :
    (c : Candle) (table : Dict CandleKey Candle)
    → c.complete ≡ true
    → All (λ entry. (entry.0 ≡ candle_key entry.1) × (entry.1.complete ≡ true)) table
    → All
        (λ entry. (entry.0 ≡ candle_key entry.1) × (entry.1.complete ≡ true))
        (insert (candle_key c) c table)
unfolding insert
rows-insert c [] complete h = ((refl, complete), tt)
rows-insert c ((k, d) ∷ more) complete ((at, was), h) =
    elim (Bool-cases (candle_key_beq k (candle_key c))) [
      | inl e ↦ ground (arith, e, complete, (candle_key_beq_iff k (candle_key c)).0 e, h)
      | inr e ↦ ground (arith, e, at, was, rows-insert c more complete h)
    ]

insert_all-IsSound :
    (candles : List Candle) (table : Dict CandleKey Candle)
    → All (λ c. c.complete ≡ true) candles
    → IsSound table
    → IsSound (insert_all candles table)
insert_all-IsSound [] table complete sound = sound
insert_all-IsSound (c ∷ more) table (here, complete) sound =
    insert_all-IsSound more (insert (candle_key c) c table) complete (record {
      distinct = HasDistinctKeys-insert (candle_key c) c table sound.distinct;
      rows = rows-insert c table here sound.rows;
    })

-- The candle that was written under a key, or what stood there.
abbrev pub written : CandleKey → List Candle → Option Candle → Option Candle
written key candles before = elim (first (λ c. candle_key c == key) candles) [
  | none ↦ before
  | some c ↦ some c
]

first_of_others :
    (key : CandleKey) (c : Candle) (more : List Candle)
    → candle_key c ≡ key
    → any (λ d. candle_key d == candle_key c) more ≡ false
    → first (λ d. candle_key d == key) more ≡ none
first_of_others key c [] same others = refl
first_of_others key c (d ∷ more) same others = ground (arith, same, first_of_others key c more same)

lookup-insert_all :
    (key : CandleKey) (candles : List Candle) (table : Dict CandleKey Candle)
    → has_repeats candles ≡ false
    → lookup key (insert_all candles table) ≡ written key candles (lookup key table)
lookup-insert_all key [] table once = refl
lookup-insert_all key (c ∷ more) table once =
    elim (Bool-cases (candle_key_beq (candle_key c) key)) [
      | inl e ↦ ground (
        arith,
        e,
        once,
        lookup-insert_all key more (insert (candle_key c) c table),
        lookup-insert (candle_key c) key c table,
        first_of_others key c more ((candle_key_beq_iff (candle_key c) key).0 e),
      )
      | inr e ↦ ground (
        arith,
        e,
        once,
        lookup-insert_all key more (insert (candle_key c) c table),
        lookup-insert (candle_key c) key c table,
      )
    ]

-- Each candle opens no later than those after it.
abbrev pub IsOrdered : List Candle → Type 0
IsOrdered [] = Unit
IsOrdered (c ∷ more) = All (λ d. c.open_time ≤ d.open_time) more × IsOrdered more

place_above :
    (t : ℕ) (c : Candle) (candles : List Candle)
    → t ≤ c.open_time
    → All (λ d. t ≤ d.open_time) candles
    → All (λ d. t ≤ d.open_time) (place opens_before c candles)
place_above t c [] le h = (le, tt)
place_above t c (d ∷ more) le (here, h) = ground (arith, le, here, h, place_above t c more le h)

All-later :
    (s t : ℕ) (candles : List Candle)
    → s ≤ t
    → All (λ d. t ≤ d.open_time) candles
    → All (λ d. s ≤ d.open_time) candles
All-later s t candles le h =
    All-mono (λ d. t ≤ d.open_time) (λ d. s ≤ d.open_time) candles (λ d p. omega (arith, le, p)) h

place-IsOrdered :
    (c : Candle) (candles : List Candle)
    → IsOrdered candles
    → IsOrdered (place opens_before c candles)
place-IsOrdered c [] h = (tt, tt)
place-IsOrdered c (d ∷ more) (above, h) = elim (Bool-cases (opens_before c d)) [
  | inl e ↦
      let le : c.open_time ≤ d.open_time = ground (arith, e) in
      ground (arith, e, le, above, h, All-later c.open_time d.open_time more le above)
  | inr e ↦
      let le : d.open_time ≤ c.open_time = ground (arith, e) in
      ground (arith, e, place_above d.open_time c more le above, place-IsOrdered c more h)
]

pub sorted_by-IsOrdered : (candles : List Candle) → IsOrdered (sorted_by opens_before candles)
sorted_by-IsOrdered [] = tt
sorted_by-IsOrdered (c ∷ more) =
    place-IsOrdered c (sorted_by opens_before more) (sorted_by-IsOrdered more)

-- On a table whose rows are complete and stand under their keys once each, a listing that returns is ordered by
-- the open time, and shows for every instant of its range the row of the symbol's provider, the provider's
-- symbol and the timeframe there, and none for an instant outside.
pub list_complete_lem :
    (tables : Tables) (symbol : SupportedSymbol) (timeframe : String) (start end : ℕ)
    (candles : List Candle)
    → IsSound tables.candles
    → list_complete tables symbol timeframe start end ≡ ok candles
    → IsOrdered candles
      × ((t : ℕ)
          → opening_at t candles
            ≡ in_range start end t (lookup (row_key symbol timeframe t) tables.candles))
unfolding list_complete
list_complete_lem tables symbol timeframe start end candles sound listed =
    by_state tables.broken refl
  where
    listing : List Candle
    listing = keep (is_listed symbol timeframe start end) (values tables.candles)

    Shows : List Candle → Type 0
    Shows l =
        IsOrdered l
        × ((t : ℕ)
            → opening_at t l
              ≡ in_range start end t (lookup (row_key symbol timeframe t) tables.candles))

    by_state : (b : Bool) → tables.broken ≡ b → Shows candles
    by_state true e = absurd (err_not_ok (rw e at listed))
    by_state false e = subst Shows (ok-injective (rw e at listed)) (
      sorted_by-IsOrdered listing,
      λ t.
          opening_at-sorted_by t listing
          ∙ opening_at-keep symbol timeframe start end t tables.candles sound.rows,
    )

stored_all_lem :
    (candles : List Candle) (tables next : Tables)
    → stored_all candles tables ≡ ok next
    → (next.candles ≡ insert_all candles tables.candles) × (has_repeats candles ≡ false)
stored_all_lem [] tables next h = ground (arith, h)
stored_all_lem (c ∷ more) tables next h = ground (arith, h)

-- Writing candles to a table whose rows are complete and stand under their keys once each keeps the table so,
-- and puts under each key the complete candle that was given for it, or else leaves what stood there.
pub upsert_complete_lem :
    (tables next : Tables) (candles : List Candle)
    → IsSound tables.candles
    → upsert_complete tables candles ≡ ok next
    → IsSound next.candles
      × ((key : CandleKey)
          → lookup key next.candles
            ≡ written key (keep (λ c. c.complete) candles) (lookup key tables.candles))
unfolding upsert_complete
upsert_complete_lem tables next candles sound stored =
    let (same, once) = stored_all_lem (keep (λ c. c.complete) candles) tables next stored in
    (
      subst IsSound (sym same) (
          insert_all-IsSound (keep (λ c. c.complete) candles) tables.candles
            (All-keep_test (λ c. c.complete) candles) sound),
      λ key.
          ap (lookup key) same
          ∙ lookup-insert_all key (keep (λ c. c.complete) candles) tables.candles once,
    )

-- After candles have been written to a table whose rows are complete and stand under their keys once each, a
-- listing shows for every instant of its range the complete candle that was written there for the symbol's
-- provider, the provider's symbol and the timeframe, or else what stood there before.
pub upsert_then_list :
    (tables next : Tables) (written_candles listed : List Candle) (symbol : SupportedSymbol)
    (timeframe : String) (start end t : ℕ)
    → IsSound tables.candles
    → upsert_complete tables written_candles ≡ ok next
    → list_complete next symbol timeframe start end ≡ ok listed
    → opening_at t listed
      ≡ in_range start end t (
          written
            (row_key symbol timeframe t)
            (keep (λ c. c.complete) written_candles)
            (lookup (row_key symbol timeframe t) tables.candles))
upsert_then_list tables next written_candles listed symbol timeframe start end t sound stored read =
    let (sound', at) = upsert_complete_lem tables next written_candles sound stored in
    let (ordered, shown) = list_complete_lem next symbol timeframe start end listed sound' read in
    shown t ∙ ap (in_range start end t) (at (row_key symbol timeframe t))
