-- ===== src/Gateway/Keeps.antt =====
-- Inversion of the `do` blocks of the services, and invariants that hold after each of them, whether it
-- returns or raises.
use signapse_mdg.Base.{
  ℕ, ◌≡◌, refl, Bool, true, false, Option, none, some, List, String, Error, Result, ok, err,
  if◌then◌else◌, ap, subst, ok-injective,
}
use signapse_mdg.Symbols.{SupportedSymbol}
use signapse_mdg.Candles.{Candle}
use signapse_mdg.CandleCache
use signapse_mdg.CandleCache.Laws.{IsValid, get_valid-IsValid, put-IsValid}
use signapse_mdg.Gateway.{
  Repository, CandleProvider, FetchCall, World, Exec, pure, raise, lift, continue, ◌>>=◌,
  list_complete, upsert_complete, fetch_candles, cache_get, cache_put, get_from, put_into, stored,
}

module _ {S A B : Type 0} where
  continue-eq-ok :
      (r : Result A) (w w1 : World S) (f : A → Exec S B) (b : B)
      → (continue r f w).0 ≡ ok b
      → (a : A) × (r ≡ ok a) × ((f a w).0 ≡ ok b)
  continue-eq-ok (ok a) w w1 f b h = (a, refl, h)
  continue-eq-ok (err e) w w1 f b h = cc

  -- A block that returns has run its first action to the end.
  pub bind-eq-ok :
      (m : Exec S A) (f : A → Exec S B) (w : World S) (b : B)
      → ((m >>= f) w).0 ≡ ok b
      → (a : A) × ((m w).0 ≡ ok a) × ((f a (m w).1).0 ≡ ok b)
  bind-eq-ok m f w b h = continue-eq-ok (m w).0 (m w).1 w f b h

  -- The state after a block whose first action returned.
  pub bind-state :
      (m : Exec S A) (f : A → Exec S B) (w : World S) (a : A)
      → (m w).0 ≡ ok a
      → (m >>= f) w ≡ f a (m w).1
  bind-state m f w a h = ap (λ r. continue r f (m w).1) h

-- What the action leaves valid, whatever its outcome.
pub record Keeps {S A : Type 0} (P : World S → Type 0) (m : Exec S A) : Type 0 where
  pub at : (w : World S) → P w → P (m w).1

module _ {S A : Type 0} {P : World S → Type 0} where
  pub Keeps-pure : (a : A) → Keeps P (pure a)
  Keeps-pure a = record { at = λ w h. h }

  pub Keeps-raise : (e : Error) → Keeps P (raise {A = A} e)
  Keeps-raise e = record { at = λ w h. h }

  pub Keeps-lift : (r : Result A) → Keeps P (lift r)
  Keeps-lift r = record { at = λ w h. h }

  pub Keeps-if : (b : Bool) (m n : Exec S A) → Keeps P m → Keeps P n → Keeps P (if b then m else n)
  Keeps-if true m n km kn = km
  Keeps-if false m n km kn = kn

module _ {S A B : Type 0} {P : World S → Type 0} where
  Keeps-continue :
      (r : Result A) (f : A → Exec S B) → ((a : A) → Keeps P (f a)) → Keeps P (continue r f)
  Keeps-continue (ok a) f kf = kf a
  Keeps-continue (err e) f kf = record { at = λ w h. h }

  pub Keeps-bind :
      (m : Exec S A) (f : A → Exec S B) → Keeps P m → ((a : A) → Keeps P (f a)) → Keeps P (m >>= f)
  Keeps-bind m f km kf = record { at = λ w h. (Keeps-continue (m w).0 f kf).at (m w).1 (km.at w h) }

-- What holds of the value that the action returns, if it returns.
pub record Returns {ℓ} {S A : Type 0} (Q : A → Type ℓ) (m : Exec S A) : Type ℓ where
  pub at : (w : World S) (a : A) → (m w).0 ≡ ok a → Q a

module _ {ℓ} {S A : Type 0} {Q : A → Type ℓ} where
  pub Returns-pure : (a : A) → Q a → Returns {S = S} Q (pure a)
  Returns-pure a q = record { at = λ w b h. subst Q (ok-injective h) q }

  pub Returns-if :
      (b : Bool) (m n : Exec S A) → Returns Q m → Returns Q n → Returns Q (if b then m else n)
  Returns-if true m n rm rn = rm
  Returns-if false m n rm rn = rn

module _ {ℓ} {S A B : Type 0} {Q : B → Type ℓ} where
  pub Returns-bind :
      (P : A → Type 0) (m : Exec S A) (f : A → Exec S B)
      → Returns P m
      → ((a : A) → P a → Returns Q (f a))
      → Returns Q (m >>= f)
  Returns-bind P m f rm rf = record {
    at = λ w b h. let (a, e, h1) = bind-eq-ok m f w b h in (rf a (rm.at w a e)).at (m w).1 b h1;
  }

  pub Returns-after :
      (m : Exec S A) (f : A → Exec S B) → ((a : A) → Returns Q (f a)) → Returns Q (m >>= f)
  Returns-after m f rf = record {
    at = λ w b h. let (a, e, h1) = bind-eq-ok m f w b h in (rf a).at (m w).1 b h1;
  }

-- The cache, where there is one, is valid.
abbrev ValidStore : Option CandleCache.Store → Type 0
ValidStore none = Unit
ValidStore (some store) = IsValid store

abbrev pub HasValidCache : {S : Type 0} → World S → Type 0
HasValidCache w = ValidStore w.cache

module _ {S : Type 0} (repo : Repository S) where
  pub list_complete-Keeps :
      (symbol : SupportedSymbol) (timeframe : String) (start end : ℕ)
      → Keeps HasValidCache (list_complete repo symbol timeframe start end)
  unfolding list_complete
  list_complete-Keeps symbol timeframe start end = record { at = λ w h. h }

  pub upsert_complete-Keeps :
      (candles : List Candle) → Keeps HasValidCache (upsert_complete repo candles)
  unfolding upsert_complete
  upsert_complete-Keeps candles = record {
    at = λ w h. go w h (repo.upsert_complete w.tables candles);
  }
    where
      go : (w : World S) → HasValidCache w → (r : Result S) → HasValidCache (stored repo w r).1
      go w h (ok tables) = h
      go w h (err x) = h

module _ {S : Type 0} (provider : CandleProvider) where
  pub fetch_candles-Keeps :
      (call : FetchCall) → Keeps (HasValidCache {S = S}) (fetch_candles provider call)
  unfolding fetch_candles
  fetch_candles-Keeps call = record { at = λ w h. h }

module _ {S : Type 0} where
  pub cache_get-Keeps :
      (ttl : ℕ) (symbol timeframe : String) (selected : SupportedSymbol) (now : ℕ)
      → Keeps (HasValidCache {S = S}) (cache_get ttl symbol timeframe selected now)
  unfolding cache_get CandleCache.get
  cache_get-Keeps ttl symbol timeframe selected now = record { at = λ w h. go w w.cache h h }
    where
      go :
          (w : World S) (o : Option CandleCache.Store)
          → ValidStore o
          → HasValidCache w
          → HasValidCache (get_from ttl symbol timeframe selected now o w).1
      go w none v h = h
      go w (some store) v h = get_valid-IsValid ttl _ now store v

  pub cache_put-Keeps :
      (candle : Candle) (now : ℕ) → Keeps (HasValidCache {S = S}) (cache_put candle now)
  unfolding cache_put
  cache_put-Keeps candle now = record { at = λ w h. go w w.cache h h }
    where
      go :
          (w : World S) (o : Option CandleCache.Store)
          → ValidStore o
          → HasValidCache w
          → HasValidCache (put_into candle now o w).1
      go w none v h = h
      go w (some store) v h = put-IsValid candle now store v

pub ruleset keeps_rules = (
  Keeps-pure, Keeps-raise, Keeps-lift, Keeps-if, Keeps-bind, list_complete-Keeps,
  upsert_complete-Keeps, fetch_candles-Keeps, cache_get-Keeps, cache_put-Keeps,
)
