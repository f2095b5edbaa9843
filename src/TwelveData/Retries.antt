-- ===== src/TwelveData/Retries.antt =====
-- The keys that a retry tries.
use signapse_mdg.Base.{
  ℕ, ◌≤◌, ◌<◌, ◌≡◌, refl, sym, ap, subst, ◌∙◌, inl, inr, true, false, Option, none, some, List,
  String, string_eq, string_lawful, eq_self, ◌==◌, arith, contains, length, All, Error, Result, ok,
  err, ok-injective, err_not_ok,
}
use signapse_mdg.Base.Text.{HasDistinct}
use signapse_mdg.Keys.{Pool, usable, next_key, cool_down}
use signapse_mdg.Keys.Rotation.{next_key_lem}
use signapse_mdg.Keys.Resting.{next_key_keys}
use signapse_mdg.TwelveData.{
  Attempt, answered, refused, raised, RetryReadings, Retried, after_second, second_try, after_first,
  first_try, with_key_retry,
}

-- A result is the answer to one of the keys.
abbrev pub IsAnswer : {A : Type 0} → (String → Attempt A) → List String → Result A → Type 0
IsAnswer operation tried (ok a) =
    (key : String) × (contains tried key ≡ true) × (operation key ≡ answered a)
IsAnswer operation tried (err e) = Unit

-- The keys are of the pool, none is tried twice, and what is returned is the answer to one of them.
pub record IsTried {A : Type 0} (keys : List String) (operation : String → Attempt A)
    (r : Retried A) : Type 0 where
  pub inside : All (λ key. contains keys key ≡ true) r.tried
  pub once : HasDistinct r.tried
  pub few : length r.tried ≤ 2
  pub from : IsAnswer operation r.tried r.result

-- A key that `next_key` gives is of the pool, and is not the excluded one.
given_key :
    (now : ℕ) (exclude : Option String) (pool : Pool) (key : String)
    → 0 < length pool.keys
    → (next_key now exclude pool).0 ≡ ok key
    → (contains pool.keys key ≡ true) × (usable pool.cooldowns now exclude key ≡ true)
given_key now exclude pool key some_keys h = elim (next_key_lem now exclude pool some_keys) [
  | inl (found, inside, use_it, e) ↦
      subst (λ k. (contains pool.keys k ≡ true) × (usable pool.cooldowns now exclude k ≡ true))
        (ok-injective (sym e ∙ h)) (inside, use_it)
  | inr (all, e) ↦ absurd (err_not_ok (sym e ∙ h))
]

module _ {A : Type 0} (at : RetryReadings) (failure : Error) (operation : String → Attempt A)
    (keys : List String) where
  abbrev Tried : Retried A → Type 0
  Tried r = IsTried keys operation r

  after_second-IsTried :
      (key alternate : String) (pool : Pool) (a : Attempt A)
      → operation alternate ≡ a
      → contains keys key ≡ true
      → contains keys alternate ≡ true
      → (alternate == key) ≡ false
      → Tried (after_second at failure operation key alternate pool a)
  after_second-IsTried key alternate pool (answered a) e in_first in_second other = record {
    inside = (in_first, (in_second, tt));
    once = (ground (arith, other), (refl, tt));
    few = omega arith;
    from = (alternate, ground (arith, eq_self alternate), e);
  }
  after_second-IsTried key alternate pool refused e in_first in_second other = record {
    inside = (in_first, (in_second, tt));
    once = (ground (arith, other), (refl, tt));
    few = omega arith;
    from = tt;
  }
  after_second-IsTried key alternate pool (raised x) e in_first in_second other = record {
    inside = (in_first, (in_second, tt));
    once = (ground (arith, other), (refl, tt));
    few = omega arith;
    from = tt;
  }

  second_try-IsTried :
      (key : String) (now : ℕ) (pool : Pool) (out : Result String × Pool)
      → next_key now (some key) pool ≡ out
      → 0 < length pool.keys
      → pool.keys ≡ keys
      → contains keys key ≡ true
      → Tried (second_try at failure operation key out)
  second_try-IsTried key now pool (ok alternate, after) e some_keys same in_first =
      let (inside, use_it) = given_key now (some key) pool alternate some_keys (ap (λ p. p.0) e) in
      after_second-IsTried key alternate after (operation alternate) refl in_first
        (subst (λ ks. contains ks alternate ≡ true) same inside) (ground (arith, use_it))
  second_try-IsTried key now pool (err x, after) e some_keys same in_first = record {
    inside = (in_first, tt);
    once = (refl, tt);
    few = omega arith;
    from = tt;
  }

  after_first-IsTried :
      (key : String) (pool : Pool) (a : Attempt A)
      → operation key ≡ a
      → 0 < length pool.keys
      → pool.keys ≡ keys
      → contains keys key ≡ true
      → Tried (after_first at failure operation key pool a)
  unfolding cool_down
  after_first-IsTried key pool (answered a) e some_keys same in_first = record {
    inside = (in_first, tt);
    once = (refl, tt);
    few = omega arith;
    from = (key, ground (arith, eq_self key), e);
  }
  after_first-IsTried key pool refused e some_keys same in_first =
      second_try-IsTried key at.second (cool_down at.first_refused key pool) _ refl some_keys same
        in_first
  after_first-IsTried key pool (raised x) e some_keys same in_first = record {
    inside = (in_first, tt);
    once = (refl, tt);
    few = omega arith;
    from = tt;
  }

-- With a pool that has keys, a retry tries at most two keys, of the pool and not the same one twice, and what it
-- returns is the answer to one of them.
pub with_key_retry_lem :
    {A : Type 0} (at : RetryReadings) (failure : Error) (operation : String → Attempt A)
    (pool : Pool)
    → 0 < length pool.keys
    → IsTried pool.keys operation (with_key_retry at failure operation pool)
unfolding with_key_retry
with_key_retry_lem {A} at failure operation pool some_keys =
    chosen (next_key at.first none pool) refl
  where
    chosen :
        (out : Result String × Pool)
        → next_key at.first none pool ≡ out
        → IsTried pool.keys operation (first_try at failure operation out)
    chosen (ok key, after) e =
        let same : after.keys ≡ pool.keys =
          sym (ap (λ p. p.1.keys) e) ∙ next_key_keys at.first none pool in
        after_first-IsTried at failure operation pool.keys key after (operation key) refl
          (subst (λ ks. 0 < length ks) (sym same) some_keys) same
          (given_key at.first none pool key some_keys (ap (λ p. p.0) e)).0
    chosen (err x, after) e = record { inside = tt; once = tt; few = omega arith; from = tt }
