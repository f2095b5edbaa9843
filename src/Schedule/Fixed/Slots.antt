-- ===== src/Schedule/Fixed/Slots.antt =====
-- The eligible slots of a grid between two times, and how the set grows by one slot.
use signapse_mdg.Base.{
  ℕ, zero, suc, ◌+◌, ◌*◌, ◌≤◌, ◌<◌, ◌≡◌, inl, inr, Bool, true, List, [], ◌∷◌, ◌++◌, arith,
  Bool-cases, dec_lt, if◌then◌else◌,
}
use signapse_mdg.Base.Opens.{Exactly, Exactly-cons, Exactly-change, Exactly-append_one}
use signapse_mdg.Schedule.Fixed.Grid.{SameGrid, SameGrid-trans, SameGrid-above, SameGrid-sym}

-- The eligible slots of a grid above `lo` and before `hi`.
abbrev pub Between : ℕ → ℕ → (ℕ → Bool) → ℕ → ℕ → ℕ → Type 0
Between d a eligible lo hi t = SameGrid d t a × (lo ≤ t) × (t < hi) × (eligible t ≡ true)

module _ (d a : ℕ) (eligible : ℕ → Bool) (pos : 0 < d) where
  -- No grid point lies strictly between one and the next.
  pub no_gap : (c t : ℕ) → SameGrid d c a → SameGrid d t a → c ≤ t → t < c + d → c ≡ t
  no_gap c t p q low high =
      go (SameGrid-above d c t (SameGrid-trans d c a t p (SameGrid-sym d t a q)) (omega arith))
    where
      go : (k : ℕ) × (t ≡ c + k * d) → c ≡ t
      go (zero, e) = omega arith
      go (suc k, e) = absurd (omega arith)

  -- Moving the lower end down by one slot adds that slot, if it is eligible.
  pub widen_down :
      (c hi : ℕ) (opens : List ℕ)
      → SameGrid d c a
      → c < hi
      → Exactly (Between d a eligible (c + d) hi) opens
      → Exactly (Between d a eligible c hi) (if eligible c then c ∷ opens else opens)
  widen_down c hi opens on below ih = elim (Bool-cases (eligible c)) [
    | inl e ↦ rw e (
        Exactly-cons (Between d a eligible (c + d) hi) (Between d a eligible c hi) c opens
          (on, omega arith, below, e) (λ t p. (p.0, omega arith, p.2, p.3))
          (λ t p. elim (dec_lt t (c + d)) [
            | yes near ↦ inl (no_gap c t on p.0 p.1 near)
            | no far ↦ inr (p.0, omega arith, p.2, p.3)
          ])
          ih)
    | inr e ↦ rw e (
        Exactly-change (Between d a eligible (c + d) hi) (Between d a eligible c hi) opens
          (λ t. (
            λ p. (p.0, omega arith, p.2, p.3),
            λ p. elim (dec_lt t (c + d)) [
              | yes near ↦
                  let same = no_gap c t on p.0 p.1 near in
                  let open_there : eligible c ≡ true = rw same p.3 in cc
              | no far ↦ (p.0, omega arith, p.2, p.3)
            ],
          ))
          ih)
  ]

  -- Moving the upper end up by one slot.
  pub widen_up :
      (lo c : ℕ) (opens : List ℕ)
      → SameGrid d c a
      → lo ≤ c
      → Exactly (Between d a eligible lo c) opens
      → Exactly (Between d a eligible lo (c + d)) (if eligible c then opens ++ c ∷ [] else opens)
  widen_up lo c opens on low ih = elim (Bool-cases (eligible c)) [
    | inl e ↦ rw e (
        Exactly-append_one (Between d a eligible lo (c + d)) c opens (
          Exactly-cons (Between d a eligible lo c) (Between d a eligible lo (c + d)) c opens
            (on, low, omega arith, e) (λ t p. (p.0, p.1, omega arith, p.3))
            (λ t p. elim (dec_lt t c) [
              | yes near ↦ inr (p.0, p.1, near, p.3)
              | no far ↦ inl (no_gap c t on p.0 (omega arith) p.2)
            ])
            ih))
    | inr e ↦ rw e (
        Exactly-change (Between d a eligible lo c) (Between d a eligible lo (c + d)) opens
          (λ t. (
            λ p. (p.0, p.1, omega arith, p.3),
            λ p. elim (dec_lt t c) [
              | yes near ↦ (p.0, p.1, near, p.3)
              | no far ↦
                  let same = no_gap c t on p.0 (omega arith) p.2 in
                  let open_there : eligible c ≡ true = rw same p.3 in cc
            ],
          ))
          ih)
  ]
