-- ===== src/Candles/Merge.antt =====
-- Candles keyed and ordered by their open time.
pub mod Laws
use signapse_mdg.Base.{
  ℕ, ◌≤◌, ◌<◌, ◌≡◌, ◌↔◌, Bool, true, false, List, [], ◌∷◌, map, Dict, insert, update, has_key,
  lookup, nat_eq, nat_beq, leb, arith, if◌then◌else◌, All, HasDistinctKeys, Fresh, values, keep,
  Above,
}
use signapse_mdg.Candles.{Candle}

abbrev pub ByOpen : Type 0
ByOpen = Dict ℕ Candle

abbrev pub entries : List Candle → List (ℕ × Candle)
entries = map (λ candle. (candle.open_time, candle))

-- `{candle.open_time: candle for candle in candles}`
abbrev pub by_open_time : List Candle → ByOpen
by_open_time candles = update [] (entries candles)

unfoldable pub place : Candle → List Candle → List Candle
place c [] = c ∷ []
place c (d ∷ ds) =
    let rest = place c ds in if leb c.open_time d.open_time then c ∷ d ∷ ds else d ∷ rest

-- `sorted(candles, key=lambda candle: candle.open_time)`
unfoldable pub sort_by_open_time : List Candle → List Candle
unfolding place
sort_by_open_time [] = []
sort_by_open_time (c ∷ cs) = place c (sort_by_open_time cs)
