-- ===== src/Sessions/Week.antt =====
-- The weekly sessions as stretches of the week.
use signapse_mdg.Base.{
  ℕ, ◌+◌, ◌*◌, ◌%◌, ◌≤◌, ◌<◌, ◌≡◌, ◌↔◌, ◌⊎◌, ◌≢◌, true, arith, String, string_eq, string_lawful,
  eq_iff,
}
use signapse_mdg.Time.{day, hour}
use signapse_mdg.Sessions.{Calendars, forex_weekly, is_eligible, forex_open, wti_open}

-- The time since Monday, midnight.
abbrev pub week_time : ℕ → ℕ
week_time local = local % (7 * day)

-- On the wall clock, currencies trade from Sunday 17:00 to Friday 17:00.
forex_open_iff :
    (local : ℕ)
    → (forex_open local ≡ true)
      ↔ ((week_time local < 4 * day + 17 * hour) ⊎ (6 * day + 17 * hour ≤ week_time local))
unfolding forex_open
forex_open_iff local = (λ h. ground arith, λ h. ground arith)

-- When the policy of currencies lets an open through, for a timeframe below the daily one and for the others.
abbrev pub TradesForex : Calendars → ℕ → String → Type 0
TradesForex c t timeframe =
    (timeframe ≡ "1mo")
    ⊎ (((timeframe ≡ "1d") ⊎ (timeframe ≡ "1w")) × (week_time t < 5 * day))
    ⊎ ((timeframe ≢ "1mo")
        × (timeframe ≢ "1d")
        × (timeframe ≢ "1w")
        × ((week_time (c.new_york t) < 4 * day + 17 * hour)
            ⊎ (6 * day + 17 * hour ≤ week_time (c.new_york t))))

-- The weekly policy of currencies lets every open of a month through, the opens of days and weeks from Monday to
-- Friday in UTC, and any other open if and only if the wall clock of New York then stands between Sunday 17:00 and
-- Friday 17:00.
pub forex_eligible_iff :
    (c : Calendars) (t : ℕ) (timeframe : String)
    → (is_eligible c forex_weekly t timeframe ≡ true) ↔ TradesForex c t timeframe
unfolding is_eligible
forex_eligible_iff c t timeframe = (
  λ h. ground (
    arith,
    h,
    eq_iff timeframe "1mo",
    eq_iff "1d" timeframe,
    eq_iff "1w" timeframe,
    forex_open_iff (c.new_york t),
  ),
  λ h. ground (
    arith,
    h,
    eq_iff timeframe "1mo",
    eq_iff "1d" timeframe,
    eq_iff "1w" timeframe,
    forex_open_iff (c.new_york t),
  ),
)

-- Oil trades from Sunday 18:00 to Friday 17:00, but for the hour from 17:00 of each day.
pub wti_open_iff :
    (local : ℕ)
    → (wti_open local ≡ true) ↔ (
        ((week_time local < 4 * day + 17 * hour) ⊎ (6 * day + 18 * hour ≤ week_time local))
        × ((local % day < 17 * hour) ⊎ (18 * hour ≤ local % day)))
unfolding wti_open
wti_open_iff local = (λ h. ground arith, λ h. ground arith)
