-- ===== src/Time/Timeframe/Opens.antt =====
-- `month_opens` lists exactly the months that begin in the range.
use signapse_mdg.Base.{
  ℕ, zero, suc, ◌+◌, ◌-◌, ◌≤◌, ◌<◌, ◌≡◌, ◌⊎◌, inl, inr, sym, ap, ◌/◌, ◌%◌, refl, ok, arith, List,
  [], ◌∷◌, ltb, ltb→lt, Bool-cases, Above, dec_lt, dec_le,
}
use signapse_mdg.Base.Opens.{Exactly, Exactly-nil, Exactly-cons, Exactly-change, Above-mono}
use signapse_mdg.Time.{day, max_instant}
use signapse_mdg.Time.Civil.{days_before_year, days_before_month, month_instant}
use signapse_mdg.Time.Civil.Months.{month_instant-suc, month_length_pos}
use signapse_mdg.Time.Timeframe.{month_loop, month_opens}
use signapse_mdg.Time.Timeframe.Months.{
  month_of, month_of_lem, month_start_lem, add_month-month_instant,
}

-- December 9999, the last month of `datetime`.
abbrev pub last_month : ℕ
last_month = 119999

month_instant_step : (i : ℕ) → 12 ≤ i → month_instant i + day ≤ month_instant (suc i)
month_instant_step i low =
    omega (arith, month_instant-suc i low, month_length_pos (i / 12) (suc (i % 12)))

pub month_instant_mono : (k i : ℕ) → 12 ≤ i → month_instant i ≤ month_instant (i + k)
month_instant_mono zero i low = let same : i + 0 ≡ i = omega arith in rw same (omega arith)
month_instant_mono (suc k) i low =
    let shift : i + suc k ≡ suc (i + k) = omega arith in
    rw shift (omega (arith, month_instant_mono k i low, month_instant_step (i + k) (omega arith)))

-- A month that begins before another one has a smaller number.
pub month_instant_lt : (i j : ℕ) → 12 ≤ j → month_instant i < month_instant j → i < j
month_instant_lt i j low h = elim (dec_lt i j) [
  | yes p ↦ p
  | no p ↦
      let e : j + (i - j) ≡ i = omega arith in
      absurd (omega (arith, rw e at (month_instant_mono (i - j) j low)))
]

-- The months from number `i` on that begin before `end`.
abbrev MonthsFrom : ℕ → ℕ → ℕ → Type 0
MonthsFrom end i t = ((k : ℕ) × (t ≡ month_instant (i + k))) × (t < end)

MonthsFrom-here :
    (end i t : ℕ) → MonthsFrom end i t → (month_instant i ≡ t) ⊎ MonthsFrom end (suc i) t
MonthsFrom-here end i t ((zero, e), b) =
    let same : i + 0 ≡ i = omega arith in inl (rw same at (sym e))
MonthsFrom-here end i t ((suc k, e), b) =
    let shift : i + suc k ≡ suc i + k = omega arith in inr ((k, rw shift at e), b)

MonthsFrom-there : (end i t : ℕ) → MonthsFrom end (suc i) t → MonthsFrom end i t
MonthsFrom-there end i t ((k, e), b) =
    let shift : suc i + k ≡ i + suc k = omega arith in ((suc k, rw shift at e), b)

MonthsFrom-past : (end i : ℕ) → 12 ≤ i → end ≤ month_instant i → (t : ℕ) → ¬ MonthsFrom end i t
MonthsFrom-past end i low h t ((k, e), b) = omega (arith, month_instant_mono k i low)

month_loop_exact :
    (fuel end i : ℕ)
    → 12 ≤ i
    → end ≤ month_instant last_month
    → 0 < fuel
    → end < fuel + month_instant i
    → (opens : List ℕ) × (month_loop fuel end (month_instant i) ≡ ok opens)
      × Exactly (MonthsFrom end i) opens
      × Above (month_instant i) opens
unfolding month_loop
month_loop_exact zero end i low fits some_fuel enough = absurd (omega arith)
month_loop_exact (suc fuel) end i low fits some_fuel enough =
    elim (Bool-cases (ltb (month_instant i) end)) [
      | inl more ↦
          let before = ltb→lt (month_instant i) end more in
          let inside = month_instant_lt i last_month (omega arith) (omega arith) in
          let step = add_month-month_instant i low (omega arith) in
          let gap = month_instant_step i low in
          let (opens, done, exact, up) =
            month_loop_exact fuel end (suc i) (omega arith) fits (omega arith) (omega arith) in
          (
            month_instant i ∷ opens,
            rw (more, step, done),
            Exactly-cons (MonthsFrom end (suc i)) (MonthsFrom end i) (month_instant i) opens
                ((0, rw (same i)), before) (MonthsFrom-there end i) (MonthsFrom-here end i) exact,
            (
              omega arith,
              Above-mono (suc (month_instant i)) (month_instant (suc i)) opens (omega arith) up,
            ),
          )
      | inr stop ↦ (
        [],
        rw stop,
        Exactly-nil (MonthsFrom end i) (MonthsFrom-past end i low (ground arith)),
        tt,
      )
    ]
  where
    same : (i : ℕ) → i + 0 ≡ i
    same i = omega arith

-- The months that begin in the range.
abbrev pub MonthOpens : ℕ → ℕ → ℕ → Type 0
MonthOpens start end t = ((i : ℕ) × (12 ≤ i) × (t ≡ month_instant i)) × (start ≤ t) × (t < end)

-- `first` is the first month that begins at `start` or after it.
first_month_lem :
    (start first i : ℕ)
    → 12 ≤ first
    → ((suc i ≡ first) × (month_instant i < start)) ⊎ ((i ≡ first) × (month_instant i ≡ start))
    → (j : ℕ) → 12 ≤ j
    → start ≤ month_instant j
    → first ≤ j
first_month_lem start first i low (inl (e, before)) j high h =
    let inside = month_instant_lt i j high (omega arith) in omega arith
first_month_lem start first i low (inr (e, at)) j high h = elim (dec_le first j) [
  | yes p ↦ p
  | no p ↦
      let gap = month_instant_step j high in
      let e' : suc j + (first - suc j) ≡ first = omega arith in
      let up = (rw e' at (month_instant_mono (first - suc j) (suc j) (omega arith))) in
      absurd (omega (arith, ap month_instant e))
]

MonthOpens-from :
    (start end first : ℕ)
    → 12 ≤ first
    → start ≤ month_instant first
    → ((j : ℕ) → 12 ≤ j → start ≤ month_instant j → first ≤ j)
    → (opens : List ℕ) → Exactly (MonthsFrom end first) opens
    → Exactly (MonthOpens start end) opens
MonthOpens-from start end first low after least opens =
    Exactly-change (MonthsFrom end first) (MonthOpens start end) opens (λ t. (
      λ ((k, e), b). ((first + k, omega arith, e), from t k e, b),
      λ ((j, high, e), s, b).
          let reach = least j high (rw (← e) s) in
          let split : first + (j - first) ≡ j = omega arith in ((j - first, rw split e), b),
    ))
  where
    from : (t k : ℕ) → t ≡ month_instant (first + k) → start ≤ t
    from t k e = omega (arith, month_instant_mono k first low)

-- Up to the first instant of December 9999, `month_opens` succeeds and lists, in ascending order,
-- exactly the first instants of months from `start` on and before `end`.
pub month_opens_exact :
    (start end : ℕ)
    → start ≤ month_instant last_month
    → end ≤ month_instant last_month
    → (opens : List ℕ) × (month_opens start end ≡ ok opens)
      × Exactly (MonthOpens start end) opens
      × Above start opens
unfolding month_opens
month_opens_exact start end fits end_fits =
    let i = month_of start in
    let (low, here, ahead) = month_of_lem start in
    let at = month_start_lem start (max_fits start fits) in
    elim (Bool-cases (ltb (month_instant i) start)) [
      | inl before ↦
          let begun = ltb→lt (month_instant i) start before in
          let inside = month_instant_lt i last_month (omega arith) (omega arith) in
          let step = add_month-month_instant i low (omega arith) in
          let (opens, done, exact, up) =
            month_loop_exact (suc end) end (suc i) (omega arith) end_fits (omega arith)
              (omega arith) in
          (
            opens,
            rw (at, before, step) done,
            MonthOpens-from start end (suc i) (omega arith) (omega arith)
                (first_month_lem start (suc i) i (omega arith) (inl (refl, begun))) opens exact,
            Above-mono start (month_instant (suc i)) opens (omega arith) up,
          )
      | inr exactly ↦
          let same : month_instant i ≡ start = ground arith in
          let (opens, done, exact, up) =
            month_loop_exact (suc end) end i low end_fits (omega arith) (omega arith) in
          (
            opens,
            rw (at, exactly) done,
            MonthOpens-from start end i low (omega arith)
                (first_month_lem start i i low (inr (refl, same))) opens exact,
            Above-mono start (month_instant i) opens (omega arith) up,
          )
    ]
  where
    max_fits : (t : ℕ) → t ≤ month_instant last_month → t ≤ max_instant
    max_fits t h = unfold month_instant days_before_year days_before_month in omega arith
