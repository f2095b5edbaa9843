-- ===== src/Keys/Resting.antt =====
-- How long a key that failed rests, whatever the pool is asked in between.
use signapse_mdg.Base.{
  ℕ, zero, suc, ◌+◌, ◌≤◌, ◌<◌, ◌≡◌, ◌≢◌, inl, inr, refl, sym, ◌∙◌, ap, subst, true, false,
  Bool-cases, Option, none, some, String, string_eq, string_lawful, lookup, lookup-insert, length,
  arith, eq_iff, Result, ok, err, ok-injective, err_not_ok, ◌==◌,
}
use signapse_mdg.Keys.{Pool, usable, next_loop, next_key, cool_down, taken}
use signapse_mdg.Keys.Rotation.{next_key_lem}

-- What may happen to a pool from the time `since` on, in any order: it is asked for keys, and keys fail.
pub data PoolSteps (since : ℕ) (pool : Pool) : Pool → Type 0 where
  no_step : PoolSteps since pool pool
  then_asked :
      {p : Pool}
      → PoolSteps since pool p
      → (now : ℕ) (exclude : Option String) → PoolSteps since pool (next_key now exclude p).1
  then_failed :
      {p : Pool}
      → PoolSteps since pool p
      → (now : ℕ) (key : String) → since ≤ now
      → PoolSteps since pool (cool_down now key p)

-- What a search leaves as it is.
record IsSame (before after : Pool) : Type 0 where
  keys : after.keys ≡ before.keys
  cooldown : after.cooldown ≡ before.cooldown
  cooldowns : after.cooldowns ≡ before.cooldowns

taken-IsSame :
    (before pool : Pool) (t : Result (Option String)) (rest : Result String × Pool)
    → IsSame before pool
    → IsSame before rest.1
    → IsSame before (taken pool t rest).1
taken-IsSame before pool (err e) rest here later = here
taken-IsSame before pool (ok none) rest here later = later
taken-IsSame before pool (ok (some key)) rest here later = here

next_loop-IsSame :
    (rounds now : ℕ) (exclude : Option String) (before pool : Pool)
    → IsSame before pool
    → IsSame before (next_loop rounds now exclude pool).1
unfolding next_loop
next_loop-IsSame zero now exclude before pool same = same
next_loop-IsSame (suc rounds) now exclude before pool same =
    let moved : IsSame before (record pool { index = pool.index + 1 }) = record {
      keys = same.keys;
      cooldown = same.cooldown;
      cooldowns = same.cooldowns;
    } in
    taken-IsSame before (record pool { index = pool.index + 1 }) _ _ moved
      (next_loop-IsSame rounds now exclude before (record pool { index = pool.index + 1 }) moved)

next_key-IsSame :
    (now : ℕ) (exclude : Option String) (pool : Pool) → IsSame pool (next_key now exclude pool).1
unfolding next_key
next_key-IsSame now exclude pool =
    next_loop-IsSame (length pool.keys) now exclude pool pool
      (record { keys = refl; cooldown = refl; cooldowns = refl })

-- The keys of a pool stay the same.
pub next_key_keys :
    (now : ℕ) (exclude : Option String) (pool : Pool)
    → (next_key now exclude pool).1.keys ≡ pool.keys
next_key_keys now exclude pool = (next_key-IsSame now exclude pool).keys

-- The key rests until the given time at least, and the pool still has its keys and its cooldown.
record Rests (key : String) (until : ℕ) (before pool : Pool) : Type 0 where
  keys : pool.keys ≡ before.keys
  cooldown : pool.cooldown ≡ before.cooldown
  rests : (t : ℕ) × (lookup key pool.cooldowns ≡ some t) × (until ≤ t)

cool_down-Rests :
    (key other : String) (since now : ℕ) (before pool : Pool)
    → since ≤ now
    → Rests key (since + before.cooldown) before pool
    → Rests key (since + before.cooldown) before (cool_down now other pool)
unfolding cool_down
cool_down-Rests key other since now before pool le r =
    let (t, at, long) = r.rests in
    let after = lookup-insert other key (now + pool.cooldown) pool.cooldowns in
    record {
      keys = r.keys;
      cooldown = r.cooldown;
      rests = elim (Bool-cases (other == key)) [
        | inl e ↦ (now + pool.cooldown, ground (arith, after, e), ground (arith, le, r.cooldown))
        | inr e ↦ (t, ground (arith, after, e, at), long)
      ];
    }

failed-Rests :
    (failed : String) (at : ℕ) (pool : Pool)
    → Rests failed (at + pool.cooldown) pool (cool_down at failed pool)
unfolding cool_down
failed-Rests failed at pool = record {
  keys = refl;
  cooldown = refl;
  rests = (
    at + pool.cooldown,
    ground (
      arith,
      lookup-insert failed failed (at + pool.cooldown) pool.cooldowns,
      eq_iff failed failed,
    ),
    omega arith,
  );
}

PoolSteps-Rests :
    (failed : String) {at : ℕ} {pool later : Pool}
    → PoolSteps at (cool_down at failed pool) later
    → Rests failed (at + pool.cooldown) pool later
PoolSteps-Rests failed {at} {pool} no_step = failed-Rests failed at pool
PoolSteps-Rests failed {at} {pool} (then_asked {p} steps now exclude) =
    let r = PoolSteps-Rests failed {at = at} {pool = pool} {later = p} steps in
    let same = next_key-IsSame now exclude p in
    let (t, found, long) = r.rests in
    record {
      keys = same.keys ∙ r.keys;
      cooldown = same.cooldown ∙ r.cooldown;
      rests = (t, ap (λ c. lookup failed c) same.cooldowns ∙ found, long);
    }
PoolSteps-Rests failed {at} {pool} (then_failed {p} steps now key le) =
    cool_down-Rests failed key at now pool p le
      (PoolSteps-Rests failed {at = at} {pool = pool} {later = p} steps)

-- A key that failed is not given again before its cooldown is over, whichever keys are asked for and whichever fail
-- in between, in any order and none earlier than it.
pub cool_down_lem :
    (pool later : Pool) (failed : String) (at now : ℕ) (exclude : Option String)
    → 0 < length pool.keys
    → PoolSteps at (cool_down at failed pool) later
    → now < at + pool.cooldown
    → (next_key now exclude later).0 ≢ ok failed
cool_down_lem pool later failed at now exclude some_keys steps early given =
    let r = PoolSteps-Rests failed {at = at} {pool = pool} {later = later} steps in
    let (t, found, long) = r.rests in
    elim (next_key_lem now exclude later (subst (λ ks. 0 < length ks) (sym r.keys) some_keys)) [
      | inl (key, inside, u, e) ↦
          let same : failed ≡ key = ok-injective (sym given ∙ e) in
          let unused : usable later.cooldowns now exclude failed ≡ false =
            ground (arith, found, long, early) in
          absurd (
            true_not_false
              (sym u ∙ subst (λ k. usable later.cooldowns now exclude k ≡ false) same unused))
      | inr (all, e) ↦ absurd (err_not_ok (sym e ∙ given))
    ]
  where
    true_not_false : true ≡ false → ⊥
    true_not_false q = cc
