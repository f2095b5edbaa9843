-- ===== src/CandleCache.antt =====
-- cache/candle_cache.py. A method returns the new store beside its result. The locks only order the
-- methods, and are left out.
pub mod Laws
use signapse_mdg.Base.{
  ℕ, ◌-◌, Bool, true, false, not, ◌&&◌, ◌||◌, Option, none, some, List, [], ◌∷◌, String, string_eq,
  Eq, ◌==◌, Dict, lookup, insert, remove, keys, keep, ltb, leb, nat_beq, if◌then◌else◌,
}
use signapse_mdg.Candles.{Candle}

pub record CacheKey : Type 0 where
  pub symbol : String
  pub provider : String
  pub provider_symbol : String
  pub timeframe : String

abbrev pub key_beq : CacheKey → CacheKey → Bool
key_beq a b =
    a.symbol == b.symbol
    && (a.provider == b.provider
        && (a.provider_symbol == b.provider_symbol && a.timeframe == b.timeframe))

instance abbrev pub cache_key_eq : Eq CacheKey
cache_key_eq = record { beq = key_beq }

-- A candle and when it was stored.
abbrev pub Store : Type 0
Store = Dict CacheKey (Candle × ℕ)

-- `_cache_key`
unfoldable pub cache_key : Candle → CacheKey
cache_key candle = record {
  symbol = candle.symbol;
  provider = candle.provider;
  provider_symbol = candle.provider_symbol;
  timeframe = candle.timeframe;
}

abbrev pub expired : ℕ → ℕ → Candle × ℕ → Bool
expired ttl now (candle, stored_at) =
    candle.complete || (leb candle.close_time now || ltb ttl (now - stored_at))

-- `_get_valid_locked`
unfoldable pub get_valid : ℕ → CacheKey → ℕ → Store → Option Candle × Store
unfolding lookup remove
get_valid ttl key now store = elim (lookup key store) [
  | none ↦ (none, store)
  | some snapshot ↦
      if expired ttl now snapshot then (none, remove key store) else (some snapshot.0, store)
]

-- `_get_valid_locked` at each key in turn, with the candles that are valid.
unfoldable pub get_each : ℕ → List CacheKey → ℕ → Store → List Candle × Store
unfolding get_valid
get_each ttl [] now store = ([], store)
get_each ttl (key ∷ more) now store =
    let (found, store') = get_valid ttl key now store in
    let (valid, store'') = get_each ttl more now store' in
    (elim found [ none ↦ valid | some candle ↦ candle ∷ valid ], store'')

abbrev pub only_one : List Candle → Option Candle
only_one [] = none
only_one (candle ∷ []) = some candle
only_one (a ∷ b ∷ more) = none

abbrev pub named : String → String → CacheKey → Bool
named symbol timeframe key = key.symbol == symbol && key.timeframe == timeframe

-- `get` where the provider or its symbol is not given.
unfoldable pub get_any : ℕ → String → String → ℕ → Store → Option Candle × Store
unfolding get_each
get_any ttl symbol timeframe now store =
    let (valid, store') = get_each ttl (keep (named symbol timeframe) (keys store)) now store in
    (only_one valid, store')

unfoldable pub get :
    ℕ → String → String → Option String → Option String → ℕ → Store → Option Candle × Store
unfolding get_valid get_any
get ttl symbol timeframe (some provider) (some provider_symbol) now store =
    get_valid ttl
      (record {
        symbol = symbol;
        provider = provider;
        provider_symbol = provider_symbol;
        timeframe = timeframe;
      })
      now store
get ttl symbol timeframe (some provider) none now store = get_any ttl symbol timeframe now store
get ttl symbol timeframe none provider_symbol now store = get_any ttl symbol timeframe now store

unfoldable pub put : Candle → ℕ → Store → Store
unfolding cache_key insert
put candle stored_at store =
    if candle.complete
    then store
    else if leb candle.close_time stored_at
    then store
    else insert (cache_key candle) (candle, stored_at) store

-- The test of `remove` on one entry: no open time is given, or it is the entry's.
abbrev opens_at : Option ℕ → Candle → Bool
opens_at none candle = true
opens_at (some open_time) candle = nat_beq candle.open_time open_time

unfoldable pub remove_key : CacheKey → Option ℕ → Store → Store
unfolding lookup remove
remove_key key open_time store = elim (lookup key store) [
  | none ↦ store
  | some (candle, stored_at) ↦ if opens_at open_time candle then remove key store else store
]

unfoldable pub remove_each : List CacheKey → Option ℕ → Store → Store
unfolding remove_key
remove_each [] open_time store = store
remove_each (key ∷ more) open_time store =
    remove_each more open_time (remove_key key open_time store)

abbrev remove_keys : String → String → Option String → Option String → Store → List CacheKey
remove_keys symbol timeframe (some provider) (some provider_symbol) store =
    record {
      symbol = symbol;
      provider = provider;
      provider_symbol = provider_symbol;
      timeframe = timeframe;
    }
    ∷ []
remove_keys symbol timeframe (some provider) none store = keep (named symbol timeframe) (keys store)
remove_keys symbol timeframe none provider_symbol store = keep (named symbol timeframe) (keys store)

-- `CandleCache.remove`
unfoldable pub drop_candles :
    String → String → Option ℕ → Option String → Option String → Store → Store
unfolding remove_each
drop_candles symbol timeframe open_time provider provider_symbol store =
    remove_each (remove_keys symbol timeframe provider provider_symbol store) open_time store
