-- ===== src/Schedule/Fixed/Next.antt =====
-- What `next_opens` returns, and that its loop ends.
use signapse_mdg.Base.{
  ℕ, zero, suc, ◌+◌, ◌≤◌, ◌<◌, ◌≡◌, ◌≢◌, inl, inr, Bool, true, List, [], ◌∷◌, ◌++◌, ok, err, subst,
  out_of_fuel, arith, String, length, length-append, ltb, Above, All, All-append, All-mono,
  >>=-eq-ok, Bool-cases, Result-cases, if◌then◌else◌,
}
use signapse_mdg.Time.{max_instant, add_time, add_time-eq-ok}
use signapse_mdg.Base.Opens.{Exactly, Above-append_one, Exactly-nil}
use signapse_mdg.Schedule.Fixed.{Policy, FixedOffset, first_open_at_or_after, next_loop, next_opens}
use signapse_mdg.Schedule.Fixed.Grid.{
  SameGrid, SameGrid-trans, anchor, first_open_lem, first_open_ends,
}
use signapse_mdg.Schedule.Fixed.Slots.{Between, no_gap, widen_up}

abbrev step_opens : (ℕ → Bool) → ℕ → List ℕ → List ℕ
step_opens eligible cursor opens = if eligible cursor then opens ++ cursor ∷ [] else opens

length-step_opens :
    (eligible : ℕ → Bool) (cursor limit : ℕ) (opens : List ℕ)
    → ltb (length opens) limit ≡ true
    → length (step_opens eligible cursor opens) ≤ limit
length-step_opens eligible cursor limit opens h = ground (arith, length-append opens (cursor ∷ []))

step_opens-in_order :
    (eligible : ℕ → Bool) (cursor d lo : ℕ) (opens : List ℕ)
    → 0 < d
    → lo ≤ cursor
    → Above lo opens × All (λ t. t < cursor) opens
    → Above lo (step_opens eligible cursor opens)
      × All (λ t. t < cursor + d) (step_opens eligible cursor opens)
step_opens-in_order eligible cursor d lo opens pos low (up, under) =
    let under' =
      All-mono (λ t. t < cursor) (λ t. t < cursor + d) opens (λ t h. omega arith) under in
    elim (Bool-cases (eligible cursor)) [
      | inl e ↦ rw e (
        Above-append_one lo cursor opens up under low,
        All-append (λ t. t < cursor + d) opens (cursor ∷ []) under' (omega arith, tt),
      )
      | inr e ↦ rw e (up, under')
    ]

module _ (d a limit lo : ℕ) (eligible : ℕ → Bool) (pos : 0 < d) where
  abbrev Next : ℕ → List ℕ → Type 0
  Next hi opens =
      Exactly (Between d a eligible lo hi) opens
      × (Above lo opens × All (λ t. t < hi) opens)
      × (length opens ≤ limit)

  next_loop_exact :
      (fuel : ℕ) (opens : List ℕ) (cursor : ℕ) (result : List ℕ)
      → SameGrid d cursor a
      → lo ≤ cursor
      → Next cursor opens
      → next_loop fuel d limit eligible opens cursor ≡ ok result
      → (hi : ℕ) × Next hi result × (length result ≡ limit)
  unfolding next_loop
  next_loop_exact zero opens cursor result on low v h = cc
  next_loop_exact (suc fuel) opens cursor result on low (exact, up, fits) h =
      elim (Bool-cases (ltb (length opens) limit)) [
        | inl more ↦
            let (next, e, rest) = >>=-eq-ok (add_time cursor d) _ (rw more at h) in
            let ahead = (add_time-eq-ok cursor d next e).0 in
            let now : Next (cursor + d) (step_opens eligible cursor opens) = (
              widen_up d a eligible pos lo cursor opens on low exact,
              step_opens-in_order eligible cursor d lo opens pos low up,
              length-step_opens eligible cursor limit opens more,
            ) in
            next_loop_exact fuel (step_opens eligible cursor opens) next result
              (SameGrid-trans d next cursor a (1, inl (omega arith)) on) (omega arith)
              (rw ahead now) rest
        | inr enough ↦
            let same : opens ≡ result = cc (rw enough at h) in
            (
              cursor,
              subst (λ l. Next cursor l) same (exact, up, fits),
              subst (λ l. length l ≡ limit) same (ground arith),
            )
      ]

  -- With fuel for every remaining datetime the loop ends: by its test, or past the greatest one.
  next_loop_ends :
      (fuel : ℕ) (opens : List ℕ) (cursor : ℕ)
      → max_instant < fuel + cursor
      → next_loop (suc fuel) d limit eligible opens cursor ≢ err out_of_fuel
  unfolding next_loop add_time
  next_loop_ends zero opens cursor room = ground arith
  next_loop_ends (suc fuel) opens cursor room =
      ground (arith, next_loop_ends fuel (step_opens eligible cursor opens) (cursor + d))

module _ (s : FixedOffset) (start limit : ℕ) (policy : Policy) (timeframe : String) where
  -- With a positive duration, a successful call returns exactly `limit` opens in ascending order: the eligible slots from
  -- `start` on and before some time `hi`, each of them and no other. So no eligible slot is skipped.
  pub next_opens_exact :
      (opens : List ℕ)
      → 0 < s.duration
      → next_opens s start limit policy timeframe ≡ ok opens
      → (hi : ℕ) × Exactly (Between s.duration (anchor s) (λ t. policy t timeframe) start hi) opens
        × Above start opens
        × (length opens ≡ limit)
  unfolding next_opens
  next_opens_exact opens pos h =
      let (first, e, loop) = >>=-eq-ok (first_open_at_or_after s start) _ h in
      let (grid, low, high) = first_open_lem s start first pos e in
      let d = s.duration in
      let a = anchor s in
      let (hi, (exact, up, fits), count) =
        next_loop_exact d a limit start (λ t. policy t timeframe) pos (suc (suc max_instant)) []
          first opens grid low
          (
            Exactly-nil _ (λ t p.
                let same =
                  no_gap d a (λ t. policy t timeframe) pos t first p.0 grid (omega arith)
                    (omega arith) in
                omega arith),
            (tt, tt),
            omega arith,
          )
          loop in
      (hi, exact, up.0, count)

  -- With a positive duration, the fuel suffices: the loop ends by its test or by leaving the range of
  -- `datetime`.
  pub next_opens_ends : 0 < s.duration → next_opens s start limit policy timeframe ≢ err out_of_fuel
  unfolding next_opens
  next_opens_ends pos h = elim (Result-cases (first_open_at_or_after s start)) [
    | inl (first, e) ↦
        next_loop_ends s.duration (anchor s) limit start (λ t. policy t timeframe) pos
          (suc max_instant) [] first (omega arith) (rw e at h)
    | inr (x, e) ↦ first_open_ends s start (cc (e, rw e at h))
  ]
