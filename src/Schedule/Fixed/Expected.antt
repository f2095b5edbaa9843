-- ===== src/Schedule/Fixed/Expected.antt =====
-- What `expected_opens` returns, and that it returns.
use signapse_mdg.Base.{
  ltb→lt, ℕ, zero, suc, ◌+◌, ◌*◌, ◌≤◌, ◌<◌, ◌≡◌, inl, inr, Bool, true, List, [], ◌∷◌, ok, arith,
  String, nat_eq, ◌⊎◌, false, subst, if◌then◌else◌, ltb, Above, >>=-eq-ok, Bool-cases,
}
use signapse_mdg.Time.{max_instant, add_time, add_time-eq-ok, add_time_fits}
use signapse_mdg.Schedule.Fixed.{
  Policy, FixedOffset, first_open_at_or_after, expected_loop, expected_opens,
}
use signapse_mdg.Base.Opens.{Exactly, Above-mono, Exactly-cons, Exactly-change, Exactly-nil}
use signapse_mdg.Schedule.Fixed.Grid.{
  SameGrid, SameGrid-trans, SameGrid-above, SameGrid-sym, anchor, first_open_lem, first_open_total,
}

module _ (d end : ℕ) (eligible : ℕ → Bool) (pos : 0 < d) where
  abbrev Slot : ℕ → ℕ → Type 0
  Slot cursor t = ((k : ℕ) × (t ≡ cursor + k * d)) × (t < end) × (eligible t ≡ true)

  -- A slot from the cursor on is the cursor, or a slot from the next one on.
  Slot-here : (cursor t : ℕ) → Slot cursor t → (cursor ≡ t) ⊎ Slot (cursor + d) t
  Slot-here cursor t ((zero, e), b, p) = inl (omega arith)
  Slot-here cursor t ((suc k, e), b, p) = inr ((k, omega arith), b, p)

  Slot-there : (cursor t : ℕ) → Slot (cursor + d) t → Slot cursor t
  Slot-there cursor t ((k, e), b, p) = ((suc k, omega arith), b, p)

  cons_exact :
      (cursor : ℕ) (opens : List ℕ)
      → cursor < end
      → eligible cursor ≡ true
      → Exactly (Slot (cursor + d)) opens
      → Exactly (Slot cursor) (cursor ∷ opens)
  cons_exact cursor opens b e =
      Exactly-cons (Slot (cursor + d)) (Slot cursor) cursor opens ((0, omega arith), b, e)
        (Slot-there cursor) (Slot-here cursor)

  skip_exact :
      (cursor : ℕ) (opens : List ℕ)
      → eligible cursor ≡ false
      → Exactly (Slot (cursor + d)) opens
      → Exactly (Slot cursor) opens
  skip_exact cursor opens e = Exactly-change (Slot (cursor + d)) (Slot cursor) opens (λ t. (
    Slot-there cursor t,
    λ slot. elim (Slot-here cursor t slot) [
      | inl q ↦ let out : eligible cursor ≡ true = rw q slot.2 in cc
      | inr later ↦ later
    ],
  ))

  nothing_exact : (cursor : ℕ) → ltb cursor end ≡ false → Exactly (Slot cursor) []
  nothing_exact cursor e =
      Exactly-nil (Slot cursor) (λ t slot. let (k, at) = slot.0 in absurd (ground arith))

  expected_step :
      (cursor : ℕ) (opens : List ℕ)
      → cursor < end
      → Exactly (Slot (cursor + d)) opens × Above (cursor + d) opens
      → let l = (if eligible cursor then cursor ∷ opens else opens) in
        Exactly (Slot cursor) l × Above cursor l
  expected_step cursor opens b (ih, up) = elim (Bool-cases (eligible cursor)) [
    | inl e ↦ rw e (
      cons_exact cursor opens b e ih,
      (omega arith, Above-mono (suc cursor) (cursor + d) opens (omega arith) up),
    )
    | inr e ↦
        rw e (skip_exact cursor opens e ih, Above-mono cursor (cursor + d) opens (omega arith) up)
  ]

  expected_loop_exact :
      (fuel cursor : ℕ) (opens : List ℕ)
      → expected_loop fuel d end eligible cursor ≡ ok opens
      → Exactly (Slot cursor) opens × Above cursor opens
  unfolding expected_loop
  expected_loop_exact zero cursor opens h = cc
  expected_loop_exact (suc fuel) cursor opens h = elim (Bool-cases (ltb cursor end)) [
    | inl more ↦
        let (next, e1, h1) = >>=-eq-ok (add_time cursor d) _ (rw more at h) in
        let (rest, e2, h2) = >>=-eq-ok (expected_loop fuel d end eligible next) _ h1 in
        let next_is = (add_time-eq-ok cursor d next e1).0 in
        let ih = expected_loop_exact fuel next rest e2 in
        let ih' = subst (λ n. Exactly (Slot n) rest × Above n rest) next_is ih in
        let opens_is : (if eligible cursor then cursor ∷ rest else rest) ≡ opens = cc in
        subst (λ l. Exactly (Slot cursor) l × Above cursor l) opens_is
          (expected_step cursor rest (ltb→lt cursor end more) ih')
    | inr stop ↦
        let opens_is : [] ≡ opens = cc (rw stop at h) in
        subst (λ l. Exactly (Slot cursor) l × Above cursor l) opens_is
          (nothing_exact cursor stop, tt)
  ]

  -- The fuel suffices, and the loop does not leave the range of `datetime`.
  expected_loop_total :
      (fuel cursor : ℕ)
      → end + d ≤ max_instant
      → 0 < fuel
      → end < fuel + cursor
      → (opens : List ℕ) × (expected_loop fuel d end eligible cursor ≡ ok opens)
  unfolding expected_loop
  expected_loop_total zero cursor fits some_fuel enough = absurd (omega arith)
  expected_loop_total (suc fuel) cursor fits some_fuel enough = elim (Bool-cases (ltb cursor end)) [
    | inl more ↦
        let step = add_time_fits cursor d (ground arith) in
        let (rest, e) = expected_loop_total fuel (cursor + d) fits (ground arith) (omega arith) in
        ((if eligible cursor then cursor ∷ rest else rest), rw (more, step, e))
    | inr stop ↦ ([], rw stop)
  ]

module _ (s : FixedOffset) (start end : ℕ) (policy : Policy) (timeframe : String) where
  -- A slot that `expected_opens` has to list.
  abbrev pub Expected : ℕ → Type 0
  Expected t =
      SameGrid s.duration t (anchor s) × (start ≤ t) × (t < end) × (policy t timeframe ≡ true)

  -- With a positive duration, what a successful call lists ascends from the start on, and holds exactly the
  -- slots of the grid from the start on and before the end that the policy lets through.
  pub expected_opens_exact :
      (opens : List ℕ)
      → 0 < s.duration
      → expected_opens s start end policy timeframe ≡ ok opens
      → Exactly Expected opens × Above start opens
  unfolding expected_opens
  expected_opens_exact opens pos h =
      let (cursor, e, loop) = >>=-eq-ok (first_open_at_or_after s start) _ h in
      let (grid, low, high) = first_open_lem s start cursor pos e in
      let (exact, up) =
        expected_loop_exact s.duration end (λ t. policy t timeframe) pos (suc end) cursor opens
          loop in
      (
        λ t. (
          λ inside.
              let ((k, at), before, trades) = (exact t).0 inside in
              (
                SameGrid-trans s.duration t cursor (anchor s) (k, inl at) grid,
                omega arith,
                before,
                trades,
              ),
          λ (on, from, before, trades). (exact t).1 (
            SameGrid-above s.duration cursor t
                (SameGrid-trans s.duration cursor (anchor s) t grid
                  (SameGrid-sym s.duration t (anchor s) on))
                (omega arith),
            before,
            trades,
          ),
        ),
        Above-mono start cursor opens low up,
      )

  -- With a positive duration and a policy that raises nothing, a call succeeds if the anchor, the start and the end one duration later, and
  -- the start one duration earlier are in the range of `datetime`.
  pub expected_opens_total :
      0 < s.duration
      → s.duration ≤ start
      → anchor s ≤ max_instant
      → start + s.duration ≤ max_instant
      → end + s.duration ≤ max_instant
      → (opens : List ℕ) × (expected_opens s start end policy timeframe ≡ ok opens)
  unfolding expected_opens
  expected_opens_total pos low mid high end_fits =
      let (cursor, e) = first_open_total s start pos low mid high in
      let (opens, loop) =
        expected_loop_total s.duration end (λ t. policy t timeframe) pos (suc end) cursor end_fits
          (omega arith) (omega arith) in
      (opens, rw e loop)
