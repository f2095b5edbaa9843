-- ===== src/HistoricalPrices/Latest.antt =====
-- The candle that prices an instant.
use mathlib.Core.List.{Memᴰ}
use signapse_mdg.Base.{
  ℕ, ◌≤◌, ◌≡◌, refl, sym, ◌∙◌, inl, inr, ◌⊎◌, Bool, true, false, none, some, List, [], ◌∷◌, arith,
  All, keep, ltb, if◌then◌else◌, Bool-cases, subst,
}
use signapse_mdg.Candles.{Candle}
use signapse_mdg.HistoricalPrices.{eligible, latest_of, latest_or_none, latest_eligible}

-- The candle is one of those that are closed at the instant, and none of those opened after it.
pub record IsLatest (at : ℕ) (candles : List Candle) (candle : Candle) : Type 0 where
  pub complete : candle.complete ≡ true
  pub closed : candle.close_time ≤ at
  pub member : Memᴰ candle candles
  pub latest : All (λ c. eligible at c ≡ true → c.open_time ≤ candle.open_time) candles

replace_head :
    (b : Bool) (c best d : Candle) (l : List Candle)
    → Memᴰ d ((if b then c else best) ∷ l)
    → Memᴰ d (best ∷ c ∷ l)
replace_head true c best d l m = Memᴰ.tail m
replace_head false c best d l (Memᴰ.head e) = Memᴰ.head e
replace_head false c best d l (Memᴰ.tail m) = Memᴰ.tail (Memᴰ.tail m)

latest_of-Memᴰ : (best : Candle) (l : List Candle) → Memᴰ (latest_of best l) (best ∷ l)
latest_of-Memᴰ best [] = Memᴰ.head refl
latest_of-Memᴰ best (c ∷ l) =
    replace_head (ltb best.open_time c.open_time) c best _ l
      (latest_of-Memᴰ (if ltb best.open_time c.open_time then c else best) l)

latest_of-bound :
    (best : Candle) (l : List Candle)
    → (best.open_time ≤ (latest_of best l).open_time)
      × All (λ c. c.open_time ≤ (latest_of best l).open_time) l
latest_of-bound best [] = (omega arith, tt)
latest_of-bound best (c ∷ l) =
    let ih = latest_of-bound (if ltb best.open_time c.open_time then c else best) l in
    elim (Bool-cases (ltb best.open_time c.open_time)) [
      | inl e ↦ (ground (arith, e, ih.0), (ground (arith, e, ih.0), ih.1))
      | inr e ↦ (ground (arith, e, ih.0), (ground (arith, e, ih.0), ih.1))
    ]

-- What one more element does to the members that pass a test.
Memᴰ-cons :
    (test : Candle → Bool) (d c : Candle) (kept l : List Candle)
    → test d ≡ true
    → (Memᴰ c kept → Memᴰ c l × (test c ≡ true))
    → Memᴰ c (d ∷ kept)
    → Memᴰ c (d ∷ l) × (test c ≡ true)
Memᴰ-cons test d c kept l e ih (Memᴰ.head q) = (Memᴰ.head q, subst (λ x. test x ≡ true) (sym q) e)
Memᴰ-cons test d c kept l e ih (Memᴰ.tail m) = (Memᴰ.tail (ih m).0, (ih m).1)

Memᴰ-keep :
    (test : Candle → Bool) (l : List Candle) (c : Candle)
    → Memᴰ c (keep test l)
    → Memᴰ c l × (test c ≡ true)
Memᴰ-keep test [] c m = elim m [ ]
Memᴰ-keep test (d ∷ l) c m = elim (Bool-cases (test d)) [
  | inl e ↦ Memᴰ-cons test d c (keep test l) l e (Memᴰ-keep test l c) (rw e at m)
  | inr e ↦ let ih = Memᴰ-keep test l c (rw e at m) in (Memᴰ.tail ih.0, ih.1)
]

All-of_keep :
    (test : Candle → Bool) (b : ℕ) (l : List Candle)
    → All (λ c. c.open_time ≤ b) (keep test l)
    → All (λ c. test c ≡ true → c.open_time ≤ b) l
All-of_keep test b [] h = tt
All-of_keep test b (d ∷ l) h = elim (Bool-cases (test d)) [
  | inl e ↦
      let k : (d.open_time ≤ b) × All (λ c. c.open_time ≤ b) (keep test l) = rw e at h in
      (λ q. k.0, All-of_keep test b l k.1)
  | inr e ↦ (λ q. absurd (true_not_false (sym q ∙ e)), All-of_keep test b l (rw e at h))
]
  where
    true_not_false : true ≡ false → ⊥
    true_not_false q = cc

-- No candle passes, if none is kept.
none_kept :
    (test : Candle → Bool) (l : List Candle) → keep test l ≡ [] → All (λ c. test c ≡ false) l
none_kept test [] h = tt
none_kept test (d ∷ l) h = elim (Bool-cases (test d)) [
  | inl e ↦ absurd (cons_not_nil (rw e at h))
  | inr e ↦ (e, none_kept test l (rw e at h))
]
  where
    cons_not_nil : d ∷ keep test l ≡ [] → ⊥
    cons_not_nil q = cc

-- The eligible candle that opened last, or none where no candle is eligible.
pub latest_eligible_lem :
    (at : ℕ) (candles : List Candle)
    → ((c : Candle) × (latest_eligible at candles ≡ some c) × IsLatest at candles c)
      ⊎ ((latest_eligible at candles ≡ none) × All (λ c. eligible at c ≡ false) candles)
unfolding latest_eligible
latest_eligible_lem at candles = go (keep (eligible at) candles) refl
  where
    go :
        (kept : List Candle)
        → keep (eligible at) candles ≡ kept
        → ((c : Candle) × (latest_or_none kept ≡ some c) × IsLatest at candles c)
          ⊎ ((latest_or_none kept ≡ none) × All (λ c. eligible at c ≡ false) candles)
    go [] e = inr (refl, none_kept (eligible at) candles e)
    go (best ∷ l) e =
        let m =
          Memᴰ-keep (eligible at) candles _
            (subst (Memᴰ (latest_of best l)) (sym e) (latest_of-Memᴰ best l)) in
        let bound = latest_of-bound best l in
        inl (
          latest_of best l,
          refl,
          record {
            complete = ground (arith, m.1);
            closed = ground (arith, m.1);
            member = m.0;
            latest =
                All-of_keep (eligible at) _ candles
                  (subst (All (λ c. c.open_time ≤ (latest_of best l).open_time)) (sym e) bound);
          },
        )
