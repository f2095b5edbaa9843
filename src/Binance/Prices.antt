-- ===== src/Binance/Prices.antt =====
-- The prices of a batch, and the symbols without one.
use signapse_mdg.Base.{
  ◌≡◌, refl, subst, Bool, true, false, not, ◌&&◌, ◌||◌, Option, none, some, List, [], ◌∷◌, ◌++◌,
  String, string_eq, string_lawful, ◌==◌, arith, eq_iff, contains, keep, Dict, has_key,
  has_key-insert, remove, Fresh, HasDistinctKeys, HasDistinctKeys-insert, HasDistinctKeys-remove,
  ok, ok-injective, err_not_ok, Bool-cases, inl, inr,
}
use signapse_mdg.Candles.{Decimal}
use signapse_mdg.Quotes.{ProviderQuoteBatch}
use signapse_mdg.Normalization.{RawValue, DecimalParser, parse_decimal}
use signapse_mdg.Binance.{
  TickerPriceEntry, Answer, listed, other_payload, failed, FoundPrices, noted, note_price,
  note_symbol, note_entry, note_entries, batch_of, fetch_latest_prices, batch_answer,
}

contains-append :
    (xs ys : List String) (s : String) → contains (xs ++ ys) s ≡ (contains xs s || contains ys s)
contains-append [] ys s = refl
contains-append (x ∷ xs) ys s = ground (arith, contains-append xs ys s)

contains-keep :
    (test : String → Bool) (xs : List String) (s : String)
    → contains (keep test xs) s ≡ (test s && contains xs s)
contains-keep test [] s = ground arith
contains-keep test (x ∷ xs) s = ground (arith, eq_iff x s, contains-keep test xs s)

Fresh-has_key : (k : String) (d : Dict String Decimal) → Fresh k d → has_key k d ≡ false
unfolding has_key
Fresh-has_key k [] h = refl
Fresh-has_key k ((j, v) ∷ d) h = ground (arith, Fresh-has_key k d h.1)

has_key-remove :
    (k j : String) (d : Dict String Decimal)
    → HasDistinctKeys d
    → has_key j (remove k d) ≡ (not (k == j) && has_key j d)
unfolding has_key remove
has_key-remove k j [] h = ground arith
has_key-remove k j ((i, v) ∷ d) h =
    ground (arith, eq_iff k j, eq_iff i k, eq_iff i j, Fresh-has_key j d, has_key-remove k j d h.1)

-- No symbol has a price and is unavailable, and all were asked for.
record IsSplit (requested : List String) (p : FoundPrices) : Type 0 where
  distinct : HasDistinctKeys p.prices
  apart : (s : String) → (has_key s p.prices && contains p.unavailable s) ≡ false
  asked :
      (s : String)
      → (has_key s p.prices || contains p.unavailable s) ≡ true
      → contains requested s ≡ true

module _ (requested : List String) where
  note_price-IsSplit :
      (symbol : String) (price : Option Decimal) (p : FoundPrices)
      → contains requested symbol ≡ true
      → IsSplit requested p
      → IsSplit requested (note_price symbol price p)
  note_price-IsSplit symbol price p asked v =
      elim (Bool-cases (has_key symbol p.prices || contains p.unavailable symbol)) [
        | inl e ↦ ground (arith, e, removed)
        | inr e ↦ ground (arith, e, new e price)
      ]
    where
      removed :
          IsSplit requested
            (record { prices = remove symbol p.prices; unavailable = symbol ∷ p.unavailable })
      removed = record {
        distinct = HasDistinctKeys-remove symbol p.prices v.distinct;
        apart = λ s. ground (arith, v.apart s, has_key-remove symbol s p.prices v.distinct);
        asked = λ s h. ground (
          arith,
          h,
          asked,
          v.asked s,
          eq_iff symbol s,
          has_key-remove symbol s p.prices v.distinct,
        );
      }

      new :
          (has_key symbol p.prices || contains p.unavailable symbol) ≡ false
          → (price : Option Decimal) → IsSplit requested (noted symbol price p)
      new e none = record {
        distinct = v.distinct;
        apart = λ s. ground (arith, e, v.apart s, eq_iff symbol s);
        asked = λ s h. ground (arith, h, asked, v.asked s, eq_iff symbol s);
      }
      new e (some found) = record {
        distinct = HasDistinctKeys-insert symbol found p.prices v.distinct;
        apart = λ s.
            ground (arith, e, v.apart s, eq_iff symbol s, has_key-insert symbol s found p.prices);
        asked = λ s h.
            ground
              (arith, h, asked, v.asked s, eq_iff symbol s, has_key-insert symbol s found p.prices);
      }

  note_entries-IsSplit :
      (decimal : DecimalParser) (items : List (Option TickerPriceEntry)) (p : FoundPrices)
      → IsSplit requested p
      → IsSplit requested (note_entries decimal requested items p)
  note_entries-IsSplit decimal [] p v = v
  note_entries-IsSplit decimal (item ∷ more) p v =
      note_entries-IsSplit decimal more (note_entry decimal requested item p) (of_item item)
    where
      of_symbol :
          (symbol : Option String) (price : RawValue)
          → IsSplit requested (note_symbol decimal requested symbol price p)
      of_symbol none price = v
      of_symbol (some symbol) price = elim (Bool-cases (contains requested symbol)) [
        | inl e ↦ ground (
          arith,
          e,
          note_price-IsSplit symbol (parse_decimal decimal true false false price) p e v,
        )
        | inr e ↦ ground (arith, e, v)
      ]

      of_item :
          (item : Option TickerPriceEntry) → IsSplit requested (note_entry decimal requested item p)
      of_item none = v
      of_item (some entry) = of_symbol entry.symbol entry.price

-- Every symbol that was asked for has a price or is unavailable, no other one does, and none is both.
pub record IsPartition (requested : List String) (batch : ProviderQuoteBatch) : Type 0 where
  pub covers :
      (s : String)
      → (has_key s batch.prices || contains batch.unavailable_symbols s) ≡ contains requested s
  pub disjoint :
      (s : String) → (has_key s batch.prices && contains batch.unavailable_symbols s) ≡ false

batch_of-IsPartition :
    (requested : List String) (p : FoundPrices)
    → IsSplit requested p
    → IsPartition requested (batch_of requested p)
batch_of-IsPartition requested p v = record {
  covers = λ s. ground (
    arith,
    v.apart s,
    v.asked s,
    contains-append p.unavailable (keep (λ s. not (has_key s p.prices)) requested) s,
    contains-keep (λ s. not (has_key s p.prices)) requested s,
  );
  disjoint = λ s. ground (
    arith,
    v.apart s,
    contains-append p.unavailable (keep (λ s. not (has_key s p.prices)) requested) s,
    contains-keep (λ s. not (has_key s p.prices)) requested s,
  );
}

-- Whatever the client lists, in whatever order and however often, a batch that is returned splits the symbols
-- asked for, and no other ones, into those with a price and those that are unavailable.
pub fetch_latest_prices_splits :
    (decimal : DecimalParser) (client : List String → Answer TickerPriceEntry)
    (requested : List String) (batch : ProviderQuoteBatch)
    → fetch_latest_prices decimal client requested ≡ ok batch
    → IsPartition requested batch
unfolding fetch_latest_prices has_key
fetch_latest_prices_splits decimal client [] batch h =
    subst (IsPartition []) (ok-injective h) (record { covers = λ s. refl; disjoint = λ s. refl })
fetch_latest_prices_splits decimal client (s ∷ more) batch h = of_answer (client (s ∷ more)) h
  where
    of_answer :
        (a : Answer TickerPriceEntry)
        → batch_answer decimal (s ∷ more) a ≡ ok batch
        → IsPartition (s ∷ more) batch
    of_answer (failed reason) h = absurd (err_not_ok h)
    of_answer other_payload h = absurd (err_not_ok h)
    of_answer (listed items) h = subst (IsPartition (s ∷ more)) (ok-injective h) (
        batch_of-IsPartition (s ∷ more) _ (
          note_entries-IsSplit (s ∷ more) decimal items (record { prices = []; unavailable = [] })
            (record { distinct = tt; apart = λ s. refl; asked = λ s h. cc })))
