-- ===== src/Keys/Rotation.antt =====
-- Which key the pool gives, and when it gives none.
use signapse_mdg.Base.{
  ℕ, zero, suc, ◌+◌, ◌-◌, ◌%◌, ◌<◌, ◌≡◌, ◌⊎◌, inl, inr, refl, sym, ◌∙◌, ap, true, false, Option,
  some, some_inj, List, [], ◌∷◌, String, string_eq, string_lawful, Dict, length, arith, eq_iff,
  Result, ok, err, Bool-cases, dec_le, contains, subst, All,
}
use native.Mathlib.Nat.{mod-add-mod, add-mod_right, mod-eq_of_lt, mod-lt}
use signapse_mdg.Keys.{Pool, key_at, usable, next_loop, next_key, no_key}

key_at_total :
    (keys : List String) (i : ℕ) → i < length keys → (key : String) × (key_at keys i ≡ some key)
key_at_total [] i h = absurd (omega arith)
key_at_total (key ∷ keys) zero h = (key, refl)
key_at_total (key ∷ keys) (suc i) h = key_at_total keys i (omega arith)

contains-key_at :
    (keys : List String) (i : ℕ) (key : String)
    → key_at keys i ≡ some key
    → contains keys key ≡ true
contains-key_at [] i key h = cc
contains-key_at (k ∷ keys) zero key h = ground (arith, some_inj h, eq_iff k key)
contains-key_at (k ∷ keys) (suc i) key h = ground (arith, contains-key_at keys i key h)

-- A round that finds no key leaves the search to the rounds after it.
module _ (now : ℕ) (exclude : Option String) where
  -- The key that a round looks at is of no use.
  abbrev Useless : Pool → ℕ → Type 0
  Useless pool i =
      (key : String) × (key_at pool.keys (i % length pool.keys) ≡ some key)
      × (usable pool.cooldowns now exclude key ≡ false)

  -- The search gave a usable key, or none, after looking at useless keys only.
  abbrev Outcome : ℕ → Pool → Result String → Type 0
  Outcome rounds pool r =
      ((key : String) × (contains pool.keys key ≡ true)
        × (usable pool.cooldowns now exclude key ≡ true)
        × (r ≡ ok key))
      ⊎ (((j : ℕ) → j < rounds → Useless pool (pool.index + j)) × (r ≡ err no_key))

  next_loop_lem :
      (rounds : ℕ) (pool : Pool)
      → 0 < length pool.keys
      → Outcome rounds pool (next_loop rounds now exclude pool).0
  unfolding next_loop
  next_loop_lem zero pool some_keys = inr (λ j h. absurd (omega arith), refl)
  next_loop_lem (suc rounds) pool some_keys =
      let ih = next_loop_lem rounds (record pool { index = pool.index + 1 }) some_keys in
      let (key, e) = key_at_total pool.keys (pool.index % length pool.keys) (grind arith) in
      elim (Bool-cases (usable pool.cooldowns now exclude key)) [
        | inl u ↦ inl (key, contains-key_at pool.keys _ key e, u, rw (e, u) refl)
        | inr u ↦
            rw (e, u)
              (later
                (
                  key,
                  subst (λ k. key_at pool.keys (k % length pool.keys) ≡ some key) (omega arith) e,
                  u,
                )
                ih)
      ]
    where
      later :
          {r : Result String}
          → Useless pool (pool.index + 0)
          → Outcome rounds (record pool { index = pool.index + 1 }) r
          → Outcome (suc rounds) pool r
      later u (inl found) = inl found
      later u (inr (f, q)) = inr (each, q)
        where
          each : (j : ℕ) → j < suc rounds → Useless pool (pool.index + j)
          each zero h = u
          each (suc j) h = subst (Useless pool) (omega arith) (f j (omega arith))

  All-useless :
      (cooldowns : Dict String ℕ) (keys : List String)
      → ((i : ℕ) (key : String)
          → key_at keys i ≡ some key
          → usable cooldowns now exclude key ≡ false)
      → All (λ key. usable cooldowns now exclude key ≡ false) keys
  All-useless cooldowns [] h = tt
  All-useless cooldowns (key ∷ keys) h = (h 0 key refl, All-useless cooldowns keys (λ i. h (suc i)))

  key_at_inside :
      (keys : List String) (i : ℕ) (key : String) → key_at keys i ≡ some key → i < length keys
  key_at_inside [] i key h = cc
  key_at_inside (k ∷ keys) zero key h = omega arith
  key_at_inside (k ∷ keys) (suc i) key h = let ih = key_at_inside keys i key h in omega arith

  -- As many rounds as there are keys look at each of them, from any index on.
  round_of : (n index i : ℕ) → i < n → (j : ℕ) × (j < n) × ((index + j) % n ≡ i)
  round_of n index i h = elim (dec_le (index % n) i) [
    | yes low ↦
        let j = i - index % n in
        let whole : index % n + j ≡ i = omega arith in
        (j, omega arith, sym (mod-add-mod index n j) ∙ ap (λ k. k % n) whole ∙ mod-eq_of_lt h)
    | no high ↦
        let j = i + n - index % n in
        let small : index % n < n = mod-lt index (omega arith) in
        let whole : index % n + j ≡ i + n = omega arith in
        (
          j,
          omega arith,
          sym (mod-add-mod index n j) ∙ ap (λ k. k % n) whole ∙ add-mod_right i n ∙ mod-eq_of_lt h,
        )
  ]

  -- A usable key of the pool, or none where no key is usable.
  abbrev pub Given : Pool → Result String → Type 0
  Given pool r =
      ((key : String) × (contains pool.keys key ≡ true)
        × (usable pool.cooldowns now exclude key ≡ true)
        × (r ≡ ok key))
      ⊎ (All (λ key. usable pool.cooldowns now exclude key ≡ false) pool.keys × (r ≡ err no_key))

  -- If the pool has keys, `next_key` gives a key of the pool that is not the excluded one and is not resting;
  -- or there is no such key, and it raises ProviderUnavailableError.
  pub next_key_lem : (pool : Pool) → 0 < length pool.keys → Given pool (next_key now exclude pool).0
  unfolding next_key
  next_key_lem pool some_keys = go (next_loop_lem (length pool.keys) pool some_keys)
    where
      useless_at :
          ((j : ℕ) → j < length pool.keys → Useless pool (pool.index + j))
          → (i : ℕ) (key : String) → key_at pool.keys i ≡ some key
          → usable pool.cooldowns now exclude key ≡ false
      useless_at f i key e =
          let (j, small, at) =
            round_of (length pool.keys) pool.index i (key_at_inside pool.keys i key e) in
          let (other, e', u) = f j small in
          let same : key ≡ other = some_inj (sym e ∙ (rw at at e')) in rw same u

      go :
          Outcome (length pool.keys) pool (next_loop (length pool.keys) now exclude pool).0
          → Given pool (next_loop (length pool.keys) now exclude pool).0
      go (inl found) = inl found
      go (inr (f, q)) = inr (All-useless pool.cooldowns pool.keys (useless_at f), q)
