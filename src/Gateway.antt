-- ===== src/Gateway.antt =====
-- What the candle services stand on: a repository and a provider behind their protocols, the cache of
-- forming candles, and code that may raise and keeps what it wrote before.
pub mod Keeps
use signapse_mdg.Base.{
  ℕ, ◌+◌, Bool, Option, none, some, List, [], ◌∷◌, ◌++◌, String, Error, Result, ok, err, length,
}
use signapse_mdg.Symbols.{SupportedSymbol}
use signapse_mdg.Candles.{Candle}
use signapse_mdg.CandleCache
use signapse_mdg.CandleCache.{Store}

-- `CandleRepository`, over the state `S` of its tables.
pub record Repository (S : Type 0) : Type 0 where
  pub get_enabled_symbol : S → String → Result (Option SupportedSymbol)
  pub list_complete : S → SupportedSymbol → String → ℕ → ℕ → Result (List Candle)
  pub upsert_complete : S → List Candle → Result S

pub record FetchCall : Type 0 where
  pub symbol : SupportedSymbol
  pub timeframe : String
  pub provider_interval : String
  pub start : ℕ
  pub end : ℕ
  pub limit : ℕ

-- `CandleProvider.fetch_candles`. What it answers may differ from call to call: it sees the calls
-- that were made before.
abbrev pub CandleProvider : Type 0
CandleProvider = List FetchCall → FetchCall → Result (List Candle)

pub record World (S : Type 0) : Type 0 where
  pub tables : S
  pub cache : Option Store
  pub calls : List FetchCall

abbrev pub Exec : Type 0 → Type 0 → Type 0
Exec S A = World S → Result A × World S

module _ {S A : Type 0} where
  abbrev pub pure : A → Exec S A
  pure a w = (ok a, w)

  abbrev pub raise : Error → Exec S A
  raise e w = (err e, w)

  abbrev pub lift : Result A → Exec S A
  lift r w = (r, w)

module _ {S A B : Type 0} where
  abbrev pub continue : Result A → (A → Exec S B) → Exec S B
  continue (ok a) f w = f a w
  continue (err e) f w = (err e, w)

  infixl 5 ◌>>=◌ ◌>>◌
  abbrev pub ◌>>=◌ : Exec S A → (A → Exec S B) → Exec S B
  ◌>>=◌ m f w = let (r, w') = m w in continue r f w'

  abbrev pub ◌>>◌ : Exec S A → Exec S B → Exec S B
  m >> k = m >>= λ _. k

module _ {S : Type 0} (repo : Repository S) where
  unfoldable pub list_complete : SupportedSymbol → String → ℕ → ℕ → Exec S (List Candle)
  list_complete symbol timeframe start end w =
      (repo.list_complete w.tables symbol timeframe start end, w)

  abbrev stored : World S → Result S → Result (Unit {0}) × World S
  stored w (ok tables) = (ok tt, record w { tables = tables })
  stored w (err e) = (err e, w)

  unfoldable pub upsert_complete : List Candle → Exec S (Unit {0})
  upsert_complete candles w = stored w (repo.upsert_complete w.tables candles)

module _ {S : Type 0} (provider : CandleProvider) where
  unfoldable pub fetch_candles : FetchCall → Exec S (List Candle)
  fetch_candles call w = (provider w.calls call, record w { calls = w.calls ++ call ∷ [] })

module _ {S : Type 0} where
  abbrev get_from :
      ℕ → String → String → SupportedSymbol → ℕ → Option Store → Exec S (Option Candle)
  get_from ttl symbol timeframe selected now none w = (ok none, w)
  get_from ttl symbol timeframe selected now (some store) w =
      let (candle, store') =
        CandleCache.get ttl symbol timeframe (some selected.provider)
          (some selected.provider_symbol) now store in
      (ok candle, record w { cache = some store' })

  -- `self._cache.get(…)`, or None where there is no cache.
  unfoldable pub cache_get : ℕ → String → String → SupportedSymbol → ℕ → Exec S (Option Candle)
  cache_get ttl symbol timeframe selected now w =
      get_from ttl symbol timeframe selected now w.cache w

  abbrev put_into : Candle → ℕ → Option Store → Exec S (Unit {0})
  put_into candle stored_at none w = (ok tt, w)
  put_into candle stored_at (some store) w =
      (ok tt, record w { cache = some (CandleCache.put candle stored_at store) })

  unfoldable pub cache_put : Candle → ℕ → Exec S (Unit {0})
  cache_put candle stored_at w = put_into candle stored_at w.cache w
