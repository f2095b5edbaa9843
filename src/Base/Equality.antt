-- ===== src/Base/Equality.antt =====
-- Equality tests as an interface: the test alone, and the law that it decides equality.
use Prim.Native.Nat.{ℕ}
use Prim.Native.String.{String}
use mathlib.Core.Path.{◌≡◌, refl}
use mathlib.Core.Logic.{◌↔◌}
use mathlib.Core.Bool.{Bool, true, false, ◌&&◌, ◌||◌}
use mathlib.Core.List.{List, [], ◌∷◌}
use native.Mathlib.Omega.{arith}
use text.Mathlib.Text.{◌==◌ as str_beq}
use text.Mathlib.TextEquality.{eq_iff}
use signapse_mdg.Base.Tests.{nat_beq, nat_beq_iff}

pub record Eq {ℓ} (A : Type ℓ) : Type ℓ where
  pub beq : A → A → Bool

pub record LawfulEq {ℓ} (A : Type ℓ) (e : Eq A) : Type ℓ where
  pub beq_iff : (a b : A) → (e.beq a b ≡ true) ↔ (a ≡ b)

infix 50 ◌==◌
abbrev pub ◌==◌ {ℓ} : {A : Type ℓ} ⦃e : Eq A⦄ → A → A → Bool
◌==◌ ⦃e⦄ = e.beq

-- `a in xs`
abbrev pub contains {ℓ} : {A : Type ℓ} ⦃e : Eq A⦄ → List A → A → Bool
contains [] a = false
contains (x ∷ xs) a = x == a || contains xs a

instance abbrev pub nat_eq : Eq ℕ
nat_eq = record { beq = nat_beq }

instance abbrev pub nat_lawful : LawfulEq ℕ nat_eq
nat_lawful = record { beq_iff = nat_beq_iff }

instance abbrev pub string_eq : Eq String
string_eq = record { beq = str_beq }

instance abbrev pub string_lawful : LawfulEq String string_eq
string_lawful = record { beq_iff = eq_iff }

module _ {ℓ κ} {A : Type ℓ} {B : Type κ} ⦃e : Eq A⦄ ⦃f : Eq B⦄ where
  abbrev pub pair_beq : A × B → A × B → Bool
  pair_beq (a, b) (c, d) = a == c && b == d

  instance abbrev pub pair_eq : Eq (A × B)
  pair_eq = record { beq = pair_beq }

module _ {ℓ} {A : Type ℓ} ⦃e : Eq A⦄ ⦃l : LawfulEq A e⦄ where
  pub eq_self : (a : A) → (a == a) ≡ true
  eq_self a = (l.beq_iff a a).1 refl

module _ {ℓ κ} {A : Type ℓ} {B : Type κ} (e : Eq A) (f : Eq B) (l : LawfulEq A e)
    (m : LawfulEq B f) where
  pub pair_beq_iff : (p q : A × B) → ((e.beq p.0 q.0 && f.beq p.1 q.1) ≡ true) ↔ (p ≡ q)
  pair_beq_iff p q = ground (arith, l.beq_iff p.0 q.0, m.beq_iff p.1 q.1)
