-- ===== src/Base/Text.antt =====
-- What the source uses of Python's `str` and of `dict.fromkeys`.
use Prim.Native.Char.{Char, code}
use Prim.Native.String.{String}
use mathlib.Core.Path.{◌≡◌, refl}
use mathlib.Core.Bool.{Bool, true, false, ◌&&◌, ◌||◌}
use mathlib.Core.List.{List, [], ◌∷◌}
use native.Mathlib.Omega.{arith}
use signapse_mdg.Base.{leb, nat_beq, if◌then◌else◌, Eq, LawfulEq, ◌==◌, contains, string_eq, not}

-- The code points that `str.strip` removes.
unfoldable pub is_space : Char → Bool
is_space ch =
    let c = code ch in
    (leb 9 c && leb c 13)
    || (leb 28 c && leb c 32)
    || nat_beq c 133
    || nat_beq c 160
    || nat_beq c 5760
    || (leb 8192 c && leb c 8202)
    || nat_beq c 8232
    || nat_beq c 8233
    || nat_beq c 8239
    || nat_beq c 8287
    || nat_beq c 12288

unfoldable pub strip_left : String → String
unfolding is_space
strip_left String.[] = ""
strip_left (String.◌∷◌ c s) = let rest = strip_left s in if is_space c then rest else String.◌∷◌ c s

unfoldable pub strip_right : String → String
unfolding is_space
strip_right String.[] = ""
strip_right (String.◌∷◌ c s) =
    let rest = strip_right s in if rest == "" && is_space c then "" else String.◌∷◌ c rest

unfoldable pub strip : String → String
unfolding strip_left strip_right
strip s = strip_right (strip_left s)

abbrev grow_first : Char → List String → List String
grow_first c [] = String.◌∷◌ c "" ∷ []
grow_first c (part ∷ parts) = String.◌∷◌ c part ∷ parts

-- `s.split(",")`
unfoldable pub split_commas : String → List String
split_commas String.[] = "" ∷ []
split_commas (String.◌∷◌ c s) =
    let parts = split_commas s in if nat_beq (code c) b',' then "" ∷ parts else grow_first c parts

-- `s.endswith(suffix)`
unfoldable pub ends_with : String → String → Bool
ends_with suffix String.[] = suffix == ""
ends_with suffix (String.◌∷◌ c s) = suffix == String.◌∷◌ c s || ends_with suffix s

-- `s.replace("Z", "+00:00")`
unfoldable pub replace_z : String → String
replace_z String.[] = ""
replace_z (String.◌∷◌ c s) =
    let rest = replace_z s in
    if nat_beq (code c) b'Z'
    then String.◌∷◌ "+"
        (String.◌∷◌ "0" (String.◌∷◌ "0" (String.◌∷◌ ":" (String.◌∷◌ "0" (String.◌∷◌ "0" rest)))))
    else String.◌∷◌ c rest

-- `dict.fromkeys`: each value once, where it first stands.
module _ {ℓ} {A : Type ℓ} ⦃e : Eq A⦄ where
  unfoldable pub dedupe : List A → List A → List A
  dedupe seen [] = []
  dedupe seen (x ∷ xs) = elim (contains seen x) [
    | true ↦ dedupe seen xs
    | false ↦ x ∷ dedupe (x ∷ seen) xs
  ]

  -- No value of the list tests equal to a later one.
  abbrev pub HasDistinct : List A → Type 0
  HasDistinct [] = Unit
  HasDistinct (x ∷ xs) = (contains xs x ≡ false) × HasDistinct xs

module _ {ℓ} {A : Type ℓ} ⦃e : Eq A⦄ ⦃l : LawfulEq A e⦄ where
  dedupe-avoids :
      (x : A) (seen xs : List A) → contains seen x ≡ true → contains (dedupe seen xs) x ≡ false
  unfolding dedupe
  dedupe-avoids x seen [] h = refl
  dedupe-avoids x seen (y ∷ xs) h =
      ground (arith, l.beq_iff y x, dedupe-avoids x seen xs, dedupe-avoids x (y ∷ seen) xs)

  pub dedupe-HasDistinct : (seen xs : List A) → HasDistinct (dedupe seen xs)
  unfolding dedupe
  dedupe-HasDistinct seen [] = tt
  dedupe-HasDistinct seen (x ∷ xs) = ground (
    arith,
    l.beq_iff x x,
    dedupe-avoids x (x ∷ seen) xs,
    dedupe-HasDistinct seen xs,
    dedupe-HasDistinct (x ∷ seen) xs,
  )

  pub contains-dedupe :
      (x : A) (seen xs : List A)
      → contains (dedupe seen xs) x ≡ (contains xs x && not (contains seen x))
  unfolding dedupe
  contains-dedupe x seen [] = refl
  contains-dedupe x seen (y ∷ xs) =
      ground (arith, l.beq_iff y x, contains-dedupe x seen xs, contains-dedupe x (y ∷ seen) xs)
