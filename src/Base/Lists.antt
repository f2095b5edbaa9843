-- ===== src/Base/Lists.antt =====
-- Lists measured by native numbers, predicates on their elements, and Boolean filters.
use Prim.Native.Nat.{ℕ, suc, ◌+◌, ◌≤◌}
use mathlib.Core.Path.{◌≡◌, refl, ap}
use mathlib.Core.Bool.{Bool, true, false, ◌||◌}
use mathlib.Core.List.{List, [], ◌∷◌, ◌++◌, map}
use mathlib.Core.Option.{Option, none, some}
use native.Mathlib.Omega.{arith}
use signapse_mdg.Base.Tests.{if◌then◌else◌}

module _ {ℓ} {A : Type ℓ} where
  abbrev pub length : List A → ℕ
  length [] = 0
  length (x ∷ xs) = suc (length xs)

  pub length-append : (xs ys : List A) → length (xs ++ ys) ≡ length xs + length ys
  length-append [] ys = omega arith
  length-append (x ∷ xs) ys = omega (arith, length-append xs ys)

  abbrev pub All {κ} : (A → Type κ) → List A → Type κ
  All P [] = Unit
  All P (x ∷ xs) = P x × All P xs

  -- `[x for x in xs if test(x)]`
  abbrev pub keep : (A → Bool) → List A → List A
  keep test [] = []
  keep test (x ∷ xs) = let rest = keep test xs in if test x then x ∷ rest else rest

  abbrev pub any : (A → Bool) → List A → Bool
  any test [] = false
  any test (x ∷ xs) = test x || any test xs

  -- `next((x for x in xs if test(x)), None)`
  abbrev pub first : (A → Bool) → List A → Option A
  first test [] = none
  first test (x ∷ xs) = if test x then some x else first test xs

  -- `xs[-1]`
  abbrev pub last : List A → Option A
  last [] = none
  last (x ∷ []) = some x
  last (x ∷ y ∷ xs) = last (y ∷ xs)

module _ {ℓ} {A : Type ℓ} where
  pub All-append {κ} : (P : A → Type κ) (xs ys : List A) → All P xs → All P ys → All P (xs ++ ys)
  All-append P [] ys hx hy = hy
  All-append P (x ∷ xs) ys hx hy = (hx.0, All-append P xs ys hx.1 hy)

  pub All-mono {κ μ} :
      (P : A → Type κ) (Q : A → Type μ) (xs : List A) → ((x : A) → P x → Q x) → All P xs → All Q xs
  All-mono P Q [] f h = tt
  All-mono P Q (x ∷ xs) f h = (f x h.0, All-mono P Q xs f h.1)

  pub All-keep {κ} :
      (P : A → Type κ) (test : A → Bool) (xs : List A) → All P xs → All P (keep test xs)
  All-keep P test [] h = tt
  All-keep P test (x ∷ xs) h = ground (arith, All-keep P test xs h.1)

  pub All-keep_test : (test : A → Bool) (xs : List A) → All (λ x. test x ≡ true) (keep test xs)
  All-keep_test test [] = tt
  All-keep_test test (x ∷ xs) = ground (arith, All-keep_test test xs)

  pub length-keep-le : (test : A → Bool) (xs : List A) → length (keep test xs) ≤ length xs
  length-keep-le test [] = omega arith
  length-keep-le test (x ∷ xs) = ground (arith, length-keep-le test xs)

  pub keep-append :
      (test : A → Bool) (xs ys : List A) → keep test (xs ++ ys) ≡ keep test xs ++ keep test ys
  keep-append test [] ys = refl
  keep-append test (x ∷ xs) ys = ground (arith, keep-append test xs ys)

  -- A list whose elements all pass is kept whole.
  pub keep_of_All :
      (test : A → Bool) (xs : List A) → All (λ x. test x ≡ true) xs → keep test xs ≡ xs
  keep_of_All test [] h = refl
  keep_of_All test (x ∷ xs) h = ground (arith, keep_of_All test xs h.1)

  pub length-map {κ} : {B : Type κ} (f : A → B) (xs : List A) → length (map f xs) ≡ length xs
  length-map f [] = refl
  length-map f (x ∷ xs) = ap suc (length-map f xs)

-- Increasing and decreasing lists of numbers, from a bound on.
abbrev pub Above : ℕ → List ℕ → Type 0
Above b [] = Unit {0}
Above b (x ∷ xs) = (b ≤ x) × Above (suc x) xs
