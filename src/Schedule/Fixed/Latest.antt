-- ===== src/Schedule/Fixed/Latest.antt =====
-- What `latest_opens` returns, and that its loop ends.
use signapse_mdg.Base.{
  ℕ, zero, suc, ◌+◌, ◌≤◌, ◌<◌, ◌≡◌, inl, inr, Bool, true, List, [], ◌∷◌, ok, err, subst, ◌≢◌,
  le→leb, ◌-◌, out_of_fuel, arith, String, length, ltb, leb, Above, >>=-eq-ok, Bool-cases,
  Result-cases, if◌then◌else◌,
}
use signapse_mdg.Time.{sub_time, sub_time-eq-ok}
use signapse_mdg.Base.Opens.{Exactly, Above-mono, Exactly-nil}
use signapse_mdg.Schedule.Fixed.{
  Policy, FixedOffset, first_open_at_or_after, latest_loop, latest_opens,
}
use signapse_mdg.Schedule.Fixed.Grid.{
  SameGrid, SameGrid-trans, anchor, first_open_lem, first_open_ends,
}
use signapse_mdg.Schedule.Fixed.Slots.{Between, widen_down}

abbrev step_opens : (ℕ → Bool) → ℕ → List ℕ → List ℕ
step_opens eligible cursor opens = if eligible cursor then cursor ∷ opens else opens

length-step_opens :
    (eligible : ℕ → Bool) (cursor limit : ℕ) (opens : List ℕ)
    → ltb (length opens) limit ≡ true
    → length (step_opens eligible cursor opens) ≤ limit
length-step_opens eligible cursor limit opens h = ground arith

Above-step_opens :
    (eligible : ℕ → Bool) (cursor d : ℕ) (opens : List ℕ)
    → 0 < d
    → Above (cursor + d) opens
    → Above cursor (step_opens eligible cursor opens)
Above-step_opens eligible cursor d opens pos up = elim (Bool-cases (eligible cursor)) [
  | inl e ↦ rw e (omega arith, Above-mono (suc cursor) (cursor + d) opens (omega arith) up)
  | inr e ↦ rw e (Above-mono cursor (cursor + d) opens (omega arith) up)
]

module _ (d a limit hi : ℕ) (eligible : ℕ → Bool) (pos : 0 < d) where
  abbrev pub Latest : ℕ → List ℕ → Type 0
  Latest lo opens =
      Exactly (Between d a eligible lo hi) opens × Above lo opens × (length opens ≤ limit)

  latest_loop_exact :
      (fuel : ℕ) (opens : List ℕ) (cursor : ℕ) (result : List ℕ)
      → SameGrid d cursor a
      → cursor < hi
      → Latest (cursor + d) opens
      → latest_loop fuel d limit eligible opens cursor ≡ ok result
      → (lo : ℕ) × Latest lo result × (length result ≡ limit)
  unfolding latest_loop
  latest_loop_exact zero opens cursor result on below v h = cc
  latest_loop_exact (suc fuel) opens cursor result on below (exact, up, fits) h =
      elim (Bool-cases (ltb (length opens) limit)) [
        | inl more ↦
            let (previous, e, rest) = >>=-eq-ok (sub_time cursor d) _ (rw more at h) in
            let back = sub_time-eq-ok cursor d previous e in
            let now : Latest cursor (step_opens eligible cursor opens) = (
              widen_down d a eligible pos cursor hi opens on below exact,
              Above-step_opens eligible cursor d opens pos up,
              length-step_opens eligible cursor limit opens more,
            ) in
            latest_loop_exact fuel (step_opens eligible cursor opens) previous result
              (SameGrid-trans d previous cursor a (1, inr (omega arith)) on) (omega arith)
              (rw back now) rest
        | inr enough ↦
            let same : opens ≡ result = cc (rw enough at h) in
            (
              cursor + d,
              subst (λ l. Latest (cursor + d) l) same (exact, up, fits),
              subst (λ l. length l ≡ limit) same (ground arith),
            )
      ]

  -- With fuel above the cursor the loop ends: by its test, or below the least datetime.
  latest_loop_ends :
      (fuel : ℕ) (opens : List ℕ) (cursor : ℕ)
      → cursor < fuel
      → latest_loop (suc fuel) d limit eligible opens cursor ≢ err out_of_fuel
  unfolding latest_loop sub_time
  latest_loop_ends zero opens cursor room = absurd (omega arith)
  latest_loop_ends (suc fuel) opens cursor room =
      ground (arith, latest_loop_ends fuel (step_opens eligible cursor opens) (cursor - d))

module _ (s : FixedOffset) (end limit : ℕ) (policy : Policy) (timeframe : String) where
  -- With a positive duration, a successful call returns exactly `limit` opens in ascending order: the eligible slots between
  -- some time `lo` and `end`, each of them and no other. So no eligible slot is skipped.
  pub latest_opens_exact :
      (opens : List ℕ)
      → 0 < s.duration
      → latest_opens s end limit policy timeframe ≡ ok opens
      → (lo : ℕ) × Exactly (Between s.duration (anchor s) (λ t. policy t timeframe) lo end) opens
        × Above lo opens
        × (length opens ≡ limit)
  unfolding latest_opens
  latest_opens_exact opens pos h =
      let (first, e, h1) = >>=-eq-ok (first_open_at_or_after s end) _ h in
      let (grid, low, high) = first_open_lem s end first pos e in
      let (cursor, e', loop) =
        >>=-eq-ok (sub_time first s.duration) _ (rw (le→leb end first low) at h1) in
      let back = sub_time-eq-ok first s.duration cursor e' in
      let d = s.duration in
      let a = anchor s in
      let (lo, (exact, up, fits), count) =
        latest_loop_exact d a limit end (λ t. policy t timeframe) pos (suc (suc cursor)) [] cursor
          opens (SameGrid-trans d cursor first a (1, inr (omega arith)) grid) (omega arith)
          (Exactly-nil _ (λ t p. omega arith), tt, omega arith) loop in
      (lo, exact, up, count)

  step_back_ends :
      (first : ℕ)
      → (if leb end first then sub_time first s.duration else ok first) ≢ err out_of_fuel
  unfolding sub_time
  step_back_ends first h = ground arith

  -- With a positive duration, the fuel suffices: the loop ends by its test or by leaving the range of
  -- `datetime`.
  pub latest_opens_ends :
      0 < s.duration → latest_opens s end limit policy timeframe ≢ err out_of_fuel
  unfolding latest_opens
  latest_opens_ends pos h = elim (Result-cases (first_open_at_or_after s end)) [
    | inl (first, e) ↦
        let h1 = (rw e at h) in
        elim (Result-cases (if leb end first then sub_time first s.duration else ok first)) [
          | inl (cursor, e') ↦
              latest_loop_ends s.duration (anchor s) limit end (λ t. policy t timeframe) pos
                (suc cursor) [] cursor (omega arith) (rw e' at h1)
          | inr (x, e') ↦ step_back_ends first (cc (e', rw e' at h1))
        ]
    | inr (x, e) ↦ first_open_ends s end (cc (e, rw e at h))
  ]
