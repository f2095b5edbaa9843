-- ===== src/CandleService/Fetches.antt =====
-- Which calls a request for candles makes of the provider.
use signapse_mdg.Base.{◌+◌, ◌≡◌, refl, List, [], ◌∷◌, ◌++◌, map, Result, ok, err, ◌∙◌, sym, ap}
use mathlib.Core.List.{append_assoc, append-nil}
use signapse_mdg.Candles.{Candle}
use signapse_mdg.Schedule.Sections.{ProviderFetchSection}
use signapse_mdg.Gateway.{
  Repository, CandleProvider, FetchCall, World, fetch_candles, continue, pure, ◌>>=◌,
}
use signapse_mdg.Gateway.Keeps.{bind-eq-ok}
use signapse_mdg.CandleService.{Context, fetch_sections}

abbrev pub call_of : Context → ProviderFetchSection → FetchCall
call_of c section = record {
  symbol = c.symbol;
  timeframe = c.request.timeframe;
  provider_interval = c.timeframe.provider_interval;
  start = section.start;
  end = section.end;
  limit = section.expected_count + 1;
}

module _ {S : Type 0} (repo : Repository S) (provider : CandleProvider) where
  -- When the sections are fetched, the provider has been called once for each, in order, with its bounds and
  -- one candle more than it is expected to have.
  pub fetch_sections_calls :
      (c : Context) (sections : List ProviderFetchSection) (w : World S) (candles : List Candle)
      → (fetch_sections repo provider c sections w).0 ≡ ok candles
      → (fetch_sections repo provider c sections w).1.calls ≡ w.calls ++ map (call_of c) sections
  unfolding fetch_sections fetch_candles
  fetch_sections_calls c [] w candles h = sym (append-nil w.calls)
  fetch_sections_calls c (section ∷ more) w candles h =
      after_first (fetch_sections_calls c more) (provider w.calls (call_of c section)) h
    where
      w' : World S
      w' = record w { calls = w.calls ++ call_of c section ∷ [] }

      after_rest :
          (r : Result (List Candle)) (v : World S) (fetched : List Candle)
          → (continue r (λ rest. pure (fetched ++ rest)) v).0 ≡ ok candles
          → (continue r (λ rest. pure (fetched ++ rest)) v).1 ≡ v
      after_rest (ok rest) v fetched e = refl
      after_rest (err x) v fetched e = refl

      after_first :
          ((w : World S) (rest : List Candle)
            → (fetch_sections repo provider c more w).0 ≡ ok rest
            → (fetch_sections repo provider c more w).1.calls ≡ w.calls ++ map (call_of c) more)
          → (r : Result (List Candle))
          → (continue r
              (λ fetched. fetch_sections repo provider c more >>= λ rest. pure (fetched ++ rest))
              w').0
            ≡ ok candles
          → (continue r
              (λ fetched. fetch_sections repo provider c more >>= λ rest. pure (fetched ++ rest))
              w').1.calls
            ≡ w.calls ++ map (call_of c) (section ∷ more)
      after_first ih (ok fetched) e =
          let (rest, e1, e2) = bind-eq-ok (fetch_sections repo provider c more) _ w' candles e in
          ap (λ (v : World S). v.calls) (after_rest _ _ fetched e)
          ∙ ih w' rest e1
          ∙ append_assoc w.calls (call_of c section ∷ []) (map (call_of c) more)
      after_first ih (err x) e = cc
