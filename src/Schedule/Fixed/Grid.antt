-- ===== src/Schedule/Fixed/Grid.antt =====
-- The grid of a fixed schedule: `anchor`, `anchor ± duration`, `anchor ± 2 * duration`, ….
use signapse_mdg.Base.{
  ℕ, zero, suc, ◌+◌, ◌-◌, ◌*◌, ◌/◌, ◌≤◌, ◌<◌, ◌≡◌, ap, ◌⊎◌, inl, inr, ok, arith, dec_le, subst,
  >>=-eq-ok, Bool-cases, ◌≢◌, err, out_of_fuel, ltb, if◌then◌else◌,
}
use signapse_mdg.Time.{epoch, max_instant, add_time_fits, add_time, sub_time, add_time-eq-ok}
use signapse_mdg.Schedule.Fixed.{FixedOffset, floor_open, first_open_at_or_after}

-- A whole number of durations apart.
abbrev pub SameGrid : ℕ → ℕ → ℕ → Type 0
SameGrid duration a b = (k : ℕ) × ((a ≡ b + k * duration) ⊎ (b ≡ a + k * duration))

abbrev pub anchor : FixedOffset → ℕ
anchor s = epoch + s.offset

mul-split : (a b d : ℕ) → a ≤ b → b * d ≡ a * d + (b - a) * d
mul-split a b d h = let e : b ≡ a + (b - a) = omega arith in grind (arith, ap (λ (t : ℕ). t * d) e)

up_down : (d a c k m : ℕ) → a ≡ c + k * d → a + m * d ≡ c + (k + m) * d
up_down d a c k m e = omega arith

pub SameGrid-sym : (d a b : ℕ) → SameGrid d a b → SameGrid d b a
SameGrid-sym d a b (k, inl e) = (k, inr e)
SameGrid-sym d a b (k, inr e) = (k, inl e)

-- Two numbers above one base.
SameGrid-both : (d a b c k m : ℕ) → a ≡ c + k * d → b ≡ c + m * d → SameGrid d a b
SameGrid-both d a b c k m e f = elim (dec_le k m) [
  | yes h ↦ (m - k, inr (omega (arith, mul-split k m d h)))
  | no h ↦ (k - m, inl (omega (arith, mul-split m k d (omega arith))))
]

pub SameGrid-trans : (d a b c : ℕ) → SameGrid d a b → SameGrid d b c → SameGrid d a c
SameGrid-trans d a b c (k, inl e) (m, inl f) = (k + m, inl (omega arith))
SameGrid-trans d a b c (k, inr e) (m, inr f) = (k + m, inr (omega arith))
SameGrid-trans d a b c (k, inl e) (m, inr f) = SameGrid-both d a c b k m e f
SameGrid-trans d a b c (k, inr e) (m, inl f) = elim (dec_le k m) [
  | yes h ↦ (m - k, inl (omega (arith, mul-split k m d h)))
  | no h ↦ (k - m, inr (omega (arith, mul-split m k d (omega arith))))
]

pub floor_open_lem :
    (a d value t : ℕ)
    → 0 < d
    → floor_open a d value ≡ ok t
    → SameGrid d t a × (t ≤ value) × (value < t + d)
unfolding floor_open sub_time
floor_open_lem a d value t pos h = elim (dec_le a value) [
  | yes above ↦ (((value - a) / d, inl (ground arith)), ground arith, ground arith)
  | no below ↦ (((a - value + d - 1) / d, inr (ground arith)), ground arith, ground arith)
]

round_up :
    (d a value c t : ℕ)
    → SameGrid d c a
    → c ≤ value
    → value < c + d
    → (if ltb c value then add_time c d else ok c) ≡ ok t
    → SameGrid d t a × (value ≤ t) × (t < value + d)
unfolding add_time
round_up d a value c t grid below above h = elim (Bool-cases (ltb c value)) [
  | inl up ↦
      let t_is : t ≡ c + d = ground arith in
      (SameGrid-trans d t c a (1, inl (omega arith)) grid, omega arith, ground arith)
  | inr exact ↦
      let t_is : c ≡ t = ground arith in
      (subst (λ x. SameGrid d x a) t_is grid, ground arith, ground arith)
]

pub first_open_lem :
    (s : FixedOffset) (value t : ℕ)
    → 0 < s.duration
    → first_open_at_or_after s value ≡ ok t
    → SameGrid s.duration t (anchor s) × (value ≤ t) × (t < value + s.duration)
unfolding first_open_at_or_after
first_open_lem s value t pos h =
    let (a, at_anchor, h1) = >>=-eq-ok (add_time epoch s.offset) _ h in
    let (c, floored, h2) = >>=-eq-ok (floor_open a s.duration value) _ h1 in
    let on = floor_open_lem a s.duration value c pos floored in
    let a_is = (add_time-eq-ok epoch s.offset a at_anchor).0 in
    let grid : SameGrid s.duration c (anchor s) = subst (λ x. SameGrid s.duration c x) a_is on.0 in
    round_up s.duration (anchor s) value c t grid on.1 on.2 h2

-- Going up from a grid point reaches every later one.
pub SameGrid-above : (d a b : ℕ) → SameGrid d a b → a < b + d → (k : ℕ) × (b ≡ a + k * d)
SameGrid-above d a b (k, inr e) h = (k, e)
SameGrid-above d a b (zero, inl e) h = (0, omega arith)
SameGrid-above d a b (suc k, inl e) h = absurd (omega arith)

-- Away from both ends of the range of `datetime` there is a first open.
floor_open_total : (a d value : ℕ) → 0 < d → d ≤ value → (c : ℕ) × (floor_open a d value ≡ ok c)
unfolding floor_open sub_time
floor_open_total a d value pos low = elim (dec_le a value) [
  | yes above ↦ (a + (value - a) / d * d, ground arith)
  | no below ↦ (a - (a - value + d - 1) / d * d, ground arith)
]

pub first_open_total :
    (s : FixedOffset) (value : ℕ)
    → 0 < s.duration
    → s.duration ≤ value
    → anchor s ≤ max_instant
    → value + s.duration ≤ max_instant
    → (t : ℕ) × (first_open_at_or_after s value ≡ ok t)
unfolding first_open_at_or_after
first_open_total s value pos low mid high =
    let at_anchor = add_time_fits epoch s.offset mid in
    let (c, floored) = floor_open_total (anchor s) s.duration value pos low in
    let bounds = floor_open_lem (anchor s) s.duration value c pos floored in
    elim (Bool-cases (ltb c value)) [
      | inl up ↦
          (c + s.duration, rw (at_anchor, floored, up) (add_time_fits c s.duration (omega arith)))
      | inr exact ↦ (c, rw (at_anchor, floored, exact))
    ]

pub first_open_ends :
    (s : FixedOffset) (value : ℕ) → first_open_at_or_after s value ≢ err out_of_fuel
unfolding first_open_at_or_after floor_open add_time sub_time
first_open_ends s value h = ground arith
