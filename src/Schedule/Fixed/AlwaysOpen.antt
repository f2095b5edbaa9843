-- ===== src/Schedule/Fixed/AlwaysOpen.antt =====
-- The schedule of a market that is always open, whose policy raises nothing.
use signapse_mdg.Base.{ℕ, ◌+◌, ◌≤◌, ◌<◌, ◌≡◌, refl, List, ok, String, Above}
use signapse_mdg.Time.{max_instant}
use signapse_mdg.Base.Opens.{Exactly}
use signapse_mdg.Sessions.{Calendars, always_open, is_eligible}
use signapse_mdg.Schedule.Fixed.{FixedOffset, expected_opens}
use signapse_mdg.Schedule.Fixed.Grid.{SameGrid, anchor}
use signapse_mdg.Schedule.Fixed.Expected.{expected_opens_exact, expected_opens_total}

module _ (c : Calendars) (s : FixedOffset) (start end : ℕ) (timeframe : String) where
  -- A slot of the grid from the start on and before the end.
  abbrev pub Slot : ℕ → Type 0
  Slot t = SameGrid s.duration t (anchor s) × (start ≤ t) × (t < end)

  -- For a market that is always open and a positive duration, `expected_opens` succeeds, and lists in ascending
  -- order exactly the slots of the grid from the start on and before the end, if the anchor, the start and the end
  -- one duration later, and the start one duration earlier are in the range of `datetime`.
  pub always_open_opens :
      0 < s.duration
      → s.duration ≤ start
      → anchor s ≤ max_instant
      → start + s.duration ≤ max_instant
      → end + s.duration ≤ max_instant
      → (opens : List ℕ) × (expected_opens s start end (is_eligible c always_open) timeframe
          ≡ ok opens)
        × Exactly Slot opens
        × Above start opens
  unfolding is_eligible
  always_open_opens pos low mid high end_fits =
      let (opens, e) =
        expected_opens_total s start end (is_eligible c always_open) timeframe pos low mid high
          end_fits in
      let (exact, up) =
        expected_opens_exact s start end (is_eligible c always_open) timeframe opens pos e in
      (
        opens,
        e,
        λ t. (
          λ inside. let (on, from, before, trades) = (exact t).0 inside in (on, from, before),
          λ (on, from, before). (exact t).1 (on, from, before, refl),
        ),
        up,
      )
