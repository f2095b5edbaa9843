-- ===== src/Base/Opens.antt =====
-- Lists of opens: the numbers that they hold, and their order.
use signapse_mdg.Base.{
  ℕ, suc, ◌≤◌, ◌<◌, ◌≡◌, ◌↔◌, ◌⊎◌, inl, inr, true, List, [], ◌∷◌, ◌++◌, arith, contains, nat_eq,
  nat_beq, nat_beq_iff, Above, All, subst, Bool-cases,
}

-- The list holds just the numbers with the property.
abbrev pub Exactly : (ℕ → Type 0) → List ℕ → Type 0
Exactly P l = (t : ℕ) → (contains l t ≡ true) ↔ P t

pub Exactly-nil : (P : ℕ → Type 0) → ((t : ℕ) → ¬ P t) → Exactly P []
Exactly-nil P none_there t = (λ h. cc, λ p. absurd (none_there t p))

pub Exactly-cons :
    (P Q : ℕ → Type 0) (x : ℕ) (l : List ℕ)
    → Q x
    → ((t : ℕ) → P t → Q t)
    → ((t : ℕ) → Q t → (x ≡ t) ⊎ P t)
    → Exactly P l
    → Exactly Q (x ∷ l)
Exactly-cons P Q x l here there split ih t = (
  λ h. elim (Bool-cases (nat_beq x t)) [
    | inl q ↦ subst Q ((nat_beq_iff x t).0 q) here
    | inr q ↦ there t ((ih t).0 (rw q at h))
  ],
  λ qt. elim (split t qt) [
    | inl e ↦ rw ((nat_beq_iff x t).1 e)
    | inr p ↦ ground (arith, (ih t).1 p)
  ],
)

pub Exactly-change :
    (P Q : ℕ → Type 0) (l : List ℕ) → ((t : ℕ) → P t ↔ Q t) → Exactly P l → Exactly Q l
Exactly-change P Q l same ih t = (λ h. (same t).0 ((ih t).0 h), λ q. (ih t).1 ((same t).1 q))

contains-append_one : (l : List ℕ) (x t : ℕ) → contains (l ++ x ∷ []) t ≡ contains (x ∷ l) t
contains-append_one [] x t = ground arith
contains-append_one (y ∷ l) x t = ground (arith, contains-append_one l x t)

pub Exactly-append_one :
    (P : ℕ → Type 0) (x : ℕ) (l : List ℕ) → Exactly P (x ∷ l) → Exactly P (l ++ x ∷ [])
Exactly-append_one P x l h t = rw (contains-append_one l x t) (h t)

pub Above-mono : (a b : ℕ) (l : List ℕ) → a ≤ b → Above b l → Above a l
Above-mono a b [] h v = tt
Above-mono a b (x ∷ l) h v = (omega arith, v.1)

pub Above-append_one :
    (b x : ℕ) (l : List ℕ) → Above b l → All (λ y. y < x) l → b ≤ x → Above b (l ++ x ∷ [])
Above-append_one b x [] v under h = (h, tt)
Above-append_one b x (y ∷ l) v under h = (v.0, Above-append_one (suc y) x l v.1 under.1 under.0)
