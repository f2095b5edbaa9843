-- ===== src/Keys.antt =====
-- providers/twelvedata_keys.py: the pool of API keys, taken in turn, each resting after a failure.
pub mod Rotation
pub mod Resting
use signapse_mdg.Base.{
  ℕ, zero, suc, ◌+◌, ◌%◌, Bool, true, false, not, ◌&&◌, Option, none, some, List, [], ◌∷◌, map,
  String, string_eq, ◌==◌, Dict, lookup, insert, keep, length, leb, Error, provider_unavailable,
  value_error, Result, ok, err, if◌then◌else◌,
}
use signapse_mdg.Base.Text.{strip, dedupe}

pub record Pool : Type 0 where
  pub keys : List String
  pub cooldown : ℕ
  pub cooldowns : Dict String ℕ
  pub index : ℕ

abbrev no_key : Error
no_key = provider_unavailable "REQUEST_FAILED"

abbrev pub pool_of : ℕ → List String → Result Pool
pool_of cooldown [] = err no_key
pool_of cooldown (key ∷ more) =
    ok (record { keys = key ∷ more; cooldown = cooldown; cooldowns = []; index = 0 })

-- `__init__`; a cooldown below 0 is 0.
unfoldable pub new_pool : List String → ℕ → Result Pool
new_pool api_keys cooldown =
    pool_of cooldown (dedupe [] (keep (λ key. not (key == "")) (map strip api_keys)))

-- `keys[i]`, none where Python raises IndexError.
abbrev pub key_at : List String → ℕ → Option String
key_at [] i = none
key_at (key ∷ keys) zero = some key
key_at (key ∷ keys) (suc i) = key_at keys i

abbrev rested : ℕ → Option ℕ → Bool
rested now none = true
rested now (some cooled_until) = leb cooled_until now

abbrev excluded : Option String → String → Bool
excluded none key = false
excluded (some other) key = key == other

-- The two tests that the loop makes on a key.
abbrev pub usable : Dict String ℕ → ℕ → Option String → String → Bool
usable cooldowns now exclude key = not (excluded exclude key) && rested now (lookup key cooldowns)

abbrev tried : Dict String ℕ → ℕ → Option String → Option String → Result (Option String)
tried cooldowns now exclude none = err value_error
tried cooldowns now exclude (some key) =
    ok (if usable cooldowns now exclude key then some key else none)

abbrev pub taken : Pool → Result (Option String) → Result String × Pool → Result String × Pool
taken pool (err e) rest = (err e, pool)
taken pool (ok none) rest = rest
taken pool (ok (some key)) rest = (ok key, pool)

-- The loop of `next_key`, for as many rounds as are left.
unfoldable pub next_loop : ℕ → ℕ → Option String → Pool → Result String × Pool
unfolding lookup
next_loop zero now exclude pool = (err no_key, pool)
next_loop (suc rounds) now exclude pool =
    let moved = record pool { index = pool.index + 1 } in
    let rest = next_loop rounds now exclude moved in
    taken moved
      (tried pool.cooldowns now exclude (key_at pool.keys (pool.index % length pool.keys))) rest

unfoldable pub next_key : ℕ → Option String → Pool → Result String × Pool
unfolding next_loop
next_key now exclude pool = next_loop (length pool.keys) now exclude pool

unfoldable pub cool_down : ℕ → String → Pool → Pool
unfolding insert
cool_down now key pool = record pool { cooldowns = insert key (now + pool.cooldown) pool.cooldowns }
