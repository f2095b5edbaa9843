-- ===== src/TwelveData/Build.antt =====
-- `build_twelvedata_market_data_provider`, up to the pool of keys that it makes.
use signapse_mdg.Base.{
  ℕ, ◌*◌, ◌<◌, ◌≡◌, subst, not, List, [], ◌∷◌, map, keep, length, String, string_eq, string_lawful,
  ◌==◌, arith, provider_unavailable, Result, ok, err, ok-injective, err_not_ok,
}
use signapse_mdg.Base.Text.{strip, dedupe, dedupe-HasDistinct, HasDistinct}
use signapse_mdg.Time.{second}
use signapse_mdg.Keys.{Pool, new_pool, pool_of}

pub data ApiKeys : Type 0 where
  no_keys : ApiKeys
  single : String → ApiKeys
  several : List String → ApiKeys

distinct_keys : List String → List String
unfolding dedupe strip
distinct_keys api_keys = dedupe [] (keep (λ key. not (key == "")) (map strip api_keys))

normalize_api_keys : ApiKeys → List String
unfolding distinct_keys
normalize_api_keys no_keys = []
normalize_api_keys (single key) = distinct_keys (key ∷ [])
normalize_api_keys (several keys) = distinct_keys keys

abbrev pool_or_error : List String → Result Pool
pool_or_error [] = err (provider_unavailable "PROVIDER_NOT_CONFIGURED")
pool_or_error (key ∷ more) = new_pool (key ∷ more) (60 * second)

build_pool : ApiKeys → Result Pool
unfolding normalize_api_keys new_pool
build_pool api_keys = pool_or_error (normalize_api_keys api_keys)

-- A pool that `new_pool` makes has keys, and none twice.
new_pool_lem :
    (api_keys : List String) (cooldown : ℕ) (pool : Pool)
    → new_pool api_keys cooldown ≡ ok pool
    → (0 < length pool.keys) × HasDistinct pool.keys
unfolding new_pool
new_pool_lem api_keys cooldown pool h =
    made (dedupe [] (keep (λ key. not (key == "")) (map strip api_keys))) (dedupe-HasDistinct [] _)
      h
  where
    made :
        (keys : List String)
        → HasDistinct keys
        → pool_of cooldown keys ≡ ok pool
        → (0 < length pool.keys) × HasDistinct pool.keys
    made [] once e = absurd (err_not_ok e)
    made (key ∷ more) once e =
        subst (λ p. (0 < length p.keys) × HasDistinct p.keys) (ok-injective e) (omega arith, once)

-- A provider that is built has keys, and none twice, as its retry needs.
build_pool_lem :
    (api_keys : ApiKeys) (pool : Pool)
    → build_pool api_keys ≡ ok pool
    → (0 < length pool.keys) × HasDistinct pool.keys
unfolding build_pool
build_pool_lem api_keys pool h = built (normalize_api_keys api_keys) h
  where
    built :
        (keys : List String)
        → pool_or_error keys ≡ ok pool
        → (0 < length pool.keys) × HasDistinct pool.keys
    built [] e = absurd (err_not_ok e)
    built (key ∷ more) e = new_pool_lem (key ∷ more) (60 * second) pool e
