-- ===== src/Schedule/Fixed.antt =====
-- `FixedOffsetCandleSchedule` of domain/candle_schedules.py. A policy tells which opens a market
-- trades at; each loop has fuel, which its caller gives in full.
pub mod Grid
pub mod Expected
pub mod AlwaysOpen
pub mod Slots
pub mod Latest
pub mod Next
use signapse_mdg.Base.{
  ℕ, zero, suc, ◌+◌, ◌-◌, ◌*◌, ◌/◌, ◌++◌, Bool, List, [], ◌∷◌, Result, ok, err, out_of_fuel, ◌>>=◌,
  String, length, ltb, leb, if◌then◌else◌,
}
use signapse_mdg.Time.{epoch, max_instant, add_time, sub_time}

-- `MarketSessionPolicy.is_eligible`, of a policy that raises nothing at the instants that it is asked about.
abbrev pub Policy : Type 0
Policy = ℕ → String → Bool

pub record FixedOffset : Type 0 where
  pub duration : ℕ
  pub offset : ℕ

-- `anchor + (elapsed // duration) * duration`, where `//` rounds down on both sides of the anchor.
unfoldable pub floor_open : ℕ → ℕ → ℕ → Result ℕ
floor_open anchor duration value =
    if leb anchor value
    then ok (anchor + (value - anchor) / duration * duration)
    else sub_time anchor ((anchor - value + duration - 1) / duration * duration)

-- `_first_open_at_or_after`
unfoldable pub first_open_at_or_after : FixedOffset → ℕ → Result ℕ
unfolding floor_open
first_open_at_or_after s value = do
  anchor ← add_time epoch s.offset
  candidate ← floor_open anchor s.duration value
  if ltb candidate value then add_time candidate s.duration else ok candidate

-- The loop of `expected_opens`.
unfoldable pub expected_loop : ℕ → ℕ → ℕ → (ℕ → Bool) → ℕ → Result (List ℕ)
expected_loop zero duration end eligible cursor = err out_of_fuel
expected_loop (suc fuel) duration end eligible cursor =
    let rest = (do
      next ← add_time cursor duration
      opens ← expected_loop fuel duration end eligible next
      ok (if eligible cursor then cursor ∷ opens else opens)) in
    if ltb cursor end then rest else ok []

unfoldable pub expected_opens : FixedOffset → ℕ → ℕ → Policy → String → Result (List ℕ)
expected_opens s start end policy timeframe = do
  cursor ← first_open_at_or_after s start
  expected_loop (suc end) s.duration end (λ t. policy t timeframe) cursor

-- The loop of `latest_opens`: `opens` is what was appended so far, the last append first.
unfoldable pub latest_loop : ℕ → ℕ → ℕ → (ℕ → Bool) → List ℕ → ℕ → Result (List ℕ)
latest_loop zero duration limit eligible opens cursor = err out_of_fuel
latest_loop (suc fuel) duration limit eligible opens cursor =
    let rest = (do
      previous ← sub_time cursor duration
      latest_loop fuel duration limit eligible (if eligible cursor then cursor ∷ opens else opens)
          previous) in
    if ltb (length opens) limit then rest else ok opens

unfoldable pub latest_opens : FixedOffset → ℕ → ℕ → Policy → String → Result (List ℕ)
latest_opens s end limit policy timeframe = do
  first ← first_open_at_or_after s end
  cursor ← (if leb end first then sub_time first s.duration else ok first)
  latest_loop (suc (suc cursor)) s.duration limit (λ t. policy t timeframe) [] cursor

-- The loop of `next_opens`, which appends at the end.
unfoldable pub next_loop : ℕ → ℕ → ℕ → (ℕ → Bool) → List ℕ → ℕ → Result (List ℕ)
next_loop zero duration limit eligible opens cursor = err out_of_fuel
next_loop (suc fuel) duration limit eligible opens cursor =
    let rest = (do
      next ← add_time cursor duration
      next_loop fuel duration limit eligible
          (if eligible cursor then opens ++ cursor ∷ [] else opens) next) in
    if ltb (length opens) limit then rest else ok opens

unfoldable pub next_opens : FixedOffset → ℕ → ℕ → Policy → String → Result (List ℕ)
next_opens s start limit policy timeframe = do
  cursor ← first_open_at_or_after s start
  next_loop (suc (suc max_instant)) s.duration limit (λ t. policy t timeframe) [] cursor

unfoldable pub end_after : FixedOffset → ℕ → Result ℕ
end_after s open_time = add_time open_time s.duration
