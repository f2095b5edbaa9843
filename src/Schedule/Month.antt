-- ===== src/Schedule/Month.antt =====
-- `CalendarMonthCandleSchedule` of domain/candle_schedules.py.
use signapse_mdg.Base.{
  ℕ, zero, suc, Bool, List, [], ◌∷◌, ◌++◌, Result, ok, err, out_of_fuel, ◌>>=◌, String, length,
  keep, ltb, leb, if◌then◌else◌,
}
use signapse_mdg.Time.Timeframe.{pos, negsuc, add_month, month_start, month_opens}
use signapse_mdg.Schedule.Fixed.{Policy}

unfoldable pub expected_opens : ℕ → ℕ → Policy → String → Result (List ℕ)
expected_opens start end policy timeframe = do
  opens ← month_opens start end
  ok (keep (λ value. policy value timeframe) opens)

-- `opens` is what was appended so far, the last append first.
unfoldable pub latest_loop : ℕ → ℕ → (ℕ → Bool) → List ℕ → ℕ → Result (List ℕ)
latest_loop zero limit eligible opens cursor = err out_of_fuel
latest_loop (suc fuel) limit eligible opens cursor =
    let rest = (do
      previous ← add_month cursor (negsuc 0)
      latest_loop fuel limit eligible (if eligible cursor then cursor ∷ opens else opens)
          previous) in
    if ltb (length opens) limit then rest else ok opens

-- No month comes before the first one of the year 1, and there are 119988 months.
abbrev pub month_fuel : ℕ
month_fuel = 120000

unfoldable pub latest_opens : ℕ → ℕ → Policy → String → Result (List ℕ)
latest_opens end limit policy timeframe = do
  start ← month_start end
  cursor ← (if leb end start then add_month start (negsuc 0) else ok start)
  latest_loop month_fuel limit (λ t. policy t timeframe) [] cursor

unfoldable pub next_loop : ℕ → ℕ → (ℕ → Bool) → List ℕ → ℕ → Result (List ℕ)
next_loop zero limit eligible opens cursor = err out_of_fuel
next_loop (suc fuel) limit eligible opens cursor =
    let rest = (do
      next ← add_month cursor (pos 1)
      next_loop fuel limit eligible (if eligible cursor then opens ++ cursor ∷ [] else opens)
          next) in
    if ltb (length opens) limit then rest else ok opens

unfoldable pub next_opens : ℕ → ℕ → Policy → String → Result (List ℕ)
next_opens start limit policy timeframe = do
  first ← month_start start
  cursor ← (if ltb first start then add_month first (pos 1) else ok first)
  next_loop month_fuel limit (λ t. policy t timeframe) [] cursor

unfoldable pub end_after : ℕ → Result ℕ
end_after open_time = add_month open_time (pos 1)
