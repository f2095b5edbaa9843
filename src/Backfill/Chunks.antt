-- ===== src/Backfill/Chunks.antt =====
-- The chunks of a backfill.
use signapse_mdg.Base.{
  ℕ, zero, suc, ◌+◌, ◌-◌, ◌*◌, ◌/◌, ◌%◌, ◌≤◌, ◌<◌, ◌≡◌, refl, subst, inl, inr, min, true, false,
  Bool, some, List, [], ◌∷◌, String, arith, ltb, ltb→lt, Bool-cases, ok,
}
use signapse_mdg.Symbols.{SupportedSymbol}
use signapse_mdg.Time.{day, add_time_fits, max_instant}
use signapse_mdg.Time.Civil.{
  days_in_month, fields, month_instant, days_before_year, days_before_month,
}
use signapse_mdg.Time.Civil.Months.{month_length_pos}
use signapse_mdg.Time.Civil.Roundtrip.{instant_fits, fields-day}
use signapse_mdg.Time.Timeframe.Months.{month_of, month_of_lem}
use signapse_mdg.Time.Timeframe.Opens.{month_instant_mono, month_instant_lt}
use signapse_mdg.Time.Timeframe.{Timeframe, get_timeframe, add_month, pos}
use signapse_mdg.Backfill.{BackfillChunk, advance, chunk_loop, iter_chunks}

-- The chunks follow each other from `start` to `end` with no gap, and none goes past what the step allows.
abbrev pub Tiles : SupportedSymbol → Timeframe → String → ℕ → ℕ → ℕ → List BackfillChunk → Type 0
Tiles symbol model timeframe max_candles start end [] = start ≡ end
Tiles symbol model timeframe max_candles start end (c ∷ more) =
    (c.symbol ≡ symbol)
    × (c.timeframe ≡ timeframe)
    × (c.start ≡ start)
    × (c.start < c.end)
    × ((reached : ℕ) × (advance model max_candles c.start ≡ ok reached) × (c.end ≡ min reached end))
    × Tiles symbol model timeframe max_candles c.end end more

-- Each step before the end goes forward.
abbrev Advances : Timeframe → ℕ → ℕ → Type 0
Advances model max_candles end =
    (cursor : ℕ)
    → cursor < end
    → (reached : ℕ) × (advance model max_candles cursor ≡ ok reached) × (cursor < reached)

chunk_loop-Tiles :
    (fuel : ℕ) (symbol : SupportedSymbol) (model : Timeframe) (timeframe : String)
    (cursor end max_candles : ℕ)
    → Advances model max_candles end
    → cursor ≤ end
    → end - cursor < fuel
    → (chunks : List BackfillChunk) × (chunk_loop fuel symbol model timeframe cursor end max_candles
        ≡ ok chunks)
      × Tiles symbol model timeframe max_candles cursor end chunks
unfolding chunk_loop
chunk_loop-Tiles zero symbol model timeframe cursor end max_candles forward le enough =
    absurd (omega (arith, enough))
chunk_loop-Tiles (suc fuel) symbol model timeframe cursor end max_candles forward le enough =
    elim (Bool-cases (ltb cursor end)) [
      | inl e ↦
          let lt = ltb→lt cursor end e in
          let (reached, at, up) = forward cursor lt in
          let (chunks, rest, tiles) =
            chunk_loop-Tiles fuel symbol model timeframe (min reached end) end max_candles forward
              (omega arith) (omega arith) in
          (
            record { symbol = symbol; timeframe = timeframe; start = cursor; end = min reached end }
                ∷ chunks,
            ground (arith, e, at, rest),
            (refl, refl, refl, omega arith, (reached, at, refl), tiles),
          )
      | inr e ↦ ([], ground (arith, e), ground arith)
    ]

-- A shift by months goes forward.
add_month_forward :
    (t n : ℕ)
    → 0 < n
    → month_of t + n < 120000
    → (reached : ℕ) × (add_month t (pos n) ≡ ok reached) × (t < reached)
unfolding add_month month_instant
add_month_forward t n up fits =
    let f = fields t in
    let index = month_of t + n in
    let (low, from, to) = month_of_lem t in
    let shift : suc (month_of t) + (n - 1) ≡ index = omega arith in
    let later =
      (rw shift at (month_instant_mono (n - 1) (suc (month_of t)) (omega (arith, low)))) in
    let m : index % 12 + 1 ≡ suc (index % 12) = omega arith in
    let first = min f.day_of_month (days_in_month (index / 12) (suc (index % 12))) in
    let first_pos : 1 ≤ first =
      omega (arith, fields-day t, month_length_pos (index / 12) (suc (index % 12))) in
    (
      (days_before_year (index / 12)
              + days_before_month (index / 12) (suc (index % 12))
              + first
              - 1)
            * day
          + f.time_of_day,
      rw
          (
            m,
            instant_fits (index / 12) (suc (index % 12)) first f.time_of_day (omega (arith, low))
                (omega arith),
          )
          refl,
      omega (arith, first_pos),
    )

-- What the end leaves room for: a whole step past it is an instant still.
abbrev pub LeavesRoom : Timeframe → ℕ → ℕ → Bool → Type 0
LeavesRoom model max_candles end true = month_of end + max_candles < 120000
LeavesRoom model max_candles end false =
    (0 < model.duration) × (end + model.duration * max_candles ≤ max_instant)

month_of_mono : (s t : ℕ) → s < t → month_of s ≤ month_of t
month_of_mono s t lt =
    let (low, from, to) = month_of_lem s in
    let (low', from', to') = month_of_lem t in
    omega (
      arith,
      month_instant_lt (month_of s) (suc (month_of t)) (omega (arith, low'))
          (omega (arith, from, to', lt)),
    )

mul_pos : (a b : ℕ) → 0 < a → 0 < b → 1 ≤ a * b
mul_pos zero b up up' = absurd (omega (arith, up))
mul_pos (suc a) b up up' = omega arith

Advances-of_room :
    (model : Timeframe) (max_candles end : ℕ)
    → 0 < max_candles
    → LeavesRoom model max_candles end model.calendar_month
    → Advances model max_candles end
Advances-of_room model max_candles end up room cursor lt = by_kind model.calendar_month refl
  where
    by_kind :
        (b : Bool)
        → model.calendar_month ≡ b
        → (reached : ℕ) × (advance model max_candles cursor ≡ ok reached) × (cursor < reached)
    by_kind true e =
        let room' = subst (LeavesRoom model max_candles end) e room in
        let (reached, at, forward) =
          add_month_forward cursor max_candles up
            (omega (arith, month_of_mono cursor end lt, room')) in
        (reached, ground (arith, e, at), forward)
    by_kind false e =
        let room' = subst (LeavesRoom model max_candles end) e room in
        let more : 1 ≤ model.duration * max_candles =
          mul_pos model.duration max_candles room'.0 up in
        (
          cursor + model.duration * max_candles,
          ground (
            arith,
            e,
            add_time_fits cursor (model.duration * max_candles) (omega (arith, lt, room'.1)),
          ),
          omega (arith, more),
        )

-- For a timeframe of the table, at least one candle per chunk, and a range that leaves room for a whole step
-- past its end, the chunks of a backfill cover the range from start to end with no gap and no overlap, each is
-- not empty, and none goes past what its timeframe allows the given number of candles.
pub iter_chunks_lem :
    (symbol : SupportedSymbol) (timeframe : String) (model : Timeframe) (start end max_candles : ℕ)
    → get_timeframe timeframe ≡ some model
    → 0 < max_candles
    → LeavesRoom model max_candles end model.calendar_month
    → start ≤ end
    → (chunks : List BackfillChunk) × (iter_chunks symbol timeframe start end max_candles
        ≡ ok chunks)
      × Tiles symbol model timeframe max_candles start end chunks
unfolding iter_chunks
iter_chunks_lem symbol timeframe model start end max_candles known up room le = rw known (
    chunk_loop-Tiles (suc (end - start)) symbol model timeframe start end max_candles
      (Advances-of_room model max_candles end up room) le (omega arith))
