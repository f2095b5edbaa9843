-- ===== src/CandleService/Merged.antt =====
-- Which candle stands at an open when persisted, fetched and current candles are merged.
use signapse_mdg.Base.{
  ℕ, ◌≡◌, refl, inl, inr, Bool, true, false, ◌&&◌, Option, none, some, List, [], ◌∷◌, arith, nat_eq,
  ◌==◌, lookup, update, insert, has_key, set_default, Bool-cases, if◌then◌else◌, ◌∙◌,
}
use signapse_mdg.Candles.{Candle}
use signapse_mdg.Candles.Merge.{ByOpen, entries, by_open_time}
use signapse_mdg.Candles.Merge.Laws.{or_else, lookup-update}
use signapse_mdg.CandleService.{merge}

-- The current candle at open `t`, if there is one and it passes the test.
abbrev pub current_at : ℕ → (Candle → Bool) → Option Candle → Option Candle
current_at t test none = none
current_at t test (some c) = if c.open_time == t && test c then some c else none

lookup-insert_new :
    (t : ℕ) (c : Candle) (d : ByOpen)
    → has_key c.open_time d ≡ false
    → lookup t (insert c.open_time c d)
      ≡ or_else (lookup t d) (if c.open_time == t then some c else none)
unfolding lookup has_key insert
lookup-insert_new t c [] h = ground arith
lookup-insert_new t c ((k, x) ∷ d) h = ground (arith, lookup-insert_new t c d)

lookup-has_key :
    (t : ℕ) (c : Candle) (d : ByOpen)
    → has_key c.open_time d ≡ true
    → lookup t d ≡ or_else (lookup t d) (if c.open_time == t then some c else none)
unfolding lookup has_key
lookup-has_key t c [] h = cc
lookup-has_key t c ((k, x) ∷ d) h = ground (arith, lookup-has_key t c d)

or_else-none : (o : Option Candle) → o ≡ or_else o none
or_else-none none = refl
or_else-none (some c) = refl

-- At an open the merged candles have the persisted candle, else the fetched one, else the current one if it
-- opens then and passes the test.
pub lookup-merge :
    (t : ℕ) (normalized persisted : List Candle) (test : Candle → Bool) (current : Option Candle)
    → lookup t (merge normalized persisted test current)
      ≡ or_else
          (or_else (lookup t (by_open_time persisted)) (lookup t (by_open_time normalized)))
          (current_at t test current)
unfolding merge set_default
lookup-merge t normalized persisted test none =
    lookup-update t (by_open_time normalized) persisted ∙ or_else-none _
lookup-merge t normalized persisted test (some c) =
    let e = lookup-update t (by_open_time normalized) persisted in
    let d = update (by_open_time normalized) (entries persisted) in
    elim (Bool-cases (test c)) [
      | inl p ↦ elim (Bool-cases (has_key c.open_time d)) [
        | inl q ↦ ground (arith, e, p, q, lookup-has_key t c d)
        | inr q ↦ ground (arith, e, p, q, lookup-insert_new t c d)
      ]
      | inr p ↦ ground (arith, e, p, or_else-none (lookup t d))
    ]
