-- ===== src/CandleApi/Answer.antt =====
-- What the candle service answers, and that it leaves the cache valid, whatever the request.
use signapse_mdg.Base.{ℕ, ◌≤◌, ◌≡◌, refl, Option, none, some, ok, length, Above}
use signapse_mdg.Symbols.{SupportedSymbol}
use signapse_mdg.Sessions.{Calendars}
use signapse_mdg.Time.Timeframe.{get_timeframe}
use signapse_mdg.Candles.{CandleRequest, CandleResult}
use signapse_mdg.Gateway.{Repository, CandleProvider, World, lift}
use signapse_mdg.Gateway.Keeps.{Returns, Returns-after, Keeps, HasValidCache, keeps_rules}
use signapse_mdg.CandleService.{Context, open_times, resolve_symbol}
use signapse_mdg.CandleService.Keeps.{get_by_plan_keeps_cache}
use signapse_mdg.CandleService.Answer.{get_by_plan_answer}
use signapse_mdg.CandleCount.Keeps.{execute_keeps_cache}
use signapse_mdg.CandleCount.Bounds.{execute_answer}
use signapse_mdg.CandleApi.{Settings, context_of, timeframe_or, resolved_or, by_count, get_candles}

-- The number of candles that a request may be answered with.
abbrev pub limit_of : Settings → Option ℕ → ℕ
limit_of s none = s.max_candles
limit_of s (some count) = count

module _ {S : Type 0} (repo : Repository S) (provider : CandleProvider) where
  record IsAnswer (s : Settings) (request : CandleRequest) (result : CandleResult) : Type 0 where
    ascending : Above 0 (open_times result.candles)
    bounded : length result.candles ≤ limit_of s request.count

  by_count-IsAnswer :
      (s : Settings) (c : Context) (count : Option ℕ)
      → c.request.count ≡ count
      → Returns (IsAnswer s c.request) (by_count repo provider s c count)
  by_count-IsAnswer s c none e = record {
    at = λ w result h.
        let answer = get_by_plan_answer repo provider s.max_candles s.ttl c w result h in
        record { ascending = answer.0; bounded = rw e answer.1 };
  }
  by_count-IsAnswer s c (some count) e = record {
    at = λ w result h.
        let (n, asked, up, few) =
          execute_answer repo provider s.max_candles s.scan_budget s.ttl c w result h in
        record { ascending = up; bounded = rw asked few };
  }

  -- What `get_candles` answers, if it returns: candles that ascend strictly by open time, no more of them
  -- than the count that the request asks for, or than the configured maximum if it asks for none.
  pub get_candles_answer :
      (calendars : Calendars) (s : Settings) (now : ℕ) (request : CandleRequest)
      (resolved : Option SupportedSymbol) (w : World S) (result : CandleResult)
      → (get_candles repo provider calendars s now request resolved w).0 ≡ ok result
      → Above 0 (open_times result.candles) × (length result.candles ≤ limit_of s request.count)
  unfolding get_candles
  get_candles_answer calendars s now request resolved w result h =
      let r = (go request resolved).at w result h in (r.ascending, r.bounded)
    where
      go :
          (request : CandleRequest) (resolved : Option SupportedSymbol)
          → Returns
              (IsAnswer s request)
              (get_candles repo provider calendars s now request resolved)
      go request resolved = Returns-after (resolved_or repo provider request resolved) _ (λ symbol.
          Returns-after (lift (timeframe_or (get_timeframe request.timeframe))) _ (λ timeframe.
            by_count-IsAnswer s (context_of calendars now request symbol timeframe) request.count
              refl))

  by_count-Keeps :
      (s : Settings) (c : Context) (count : Option ℕ)
      → Keeps (HasValidCache {S = S}) (by_count repo provider s c count)
  by_count-Keeps s c none = record {
    at = get_by_plan_keeps_cache repo provider s.max_candles s.ttl c;
  }
  by_count-Keeps s c (some count) = record {
    at = execute_keeps_cache repo provider s.max_candles s.scan_budget s.ttl c;
  }

  resolved_or-Keeps :
      (request : CandleRequest) (resolved : Option SupportedSymbol)
      → Keeps (HasValidCache {S = S}) (resolved_or repo provider request resolved)
  unfolding resolve_symbol
  resolved_or-Keeps request none = record { at = λ w h. h }
  resolved_or-Keeps request (some symbol) = record { at = λ w h. h }

  pub get_candles-Keeps :
      (calendars : Calendars) (s : Settings) (now : ℕ) (request : CandleRequest)
      (resolved : Option SupportedSymbol)
      → Keeps (HasValidCache {S = S}) (get_candles repo provider calendars s now request resolved)
  unfolding get_candles
  get_candles-Keeps calendars s now request resolved =
      search (keeps_rules, by_count-Keeps, resolved_or-Keeps)

  -- Every call of `get_candles` leaves the cache valid, whether it is answered or raises.
  pub get_candles_keeps_cache :
      (calendars : Calendars) (s : Settings) (now : ℕ) (request : CandleRequest)
      (resolved : Option SupportedSymbol) (w : World S)
      → HasValidCache w
      → HasValidCache (get_candles repo provider calendars s now request resolved w).1
  get_candles_keeps_cache calendars s now request resolved =
      (get_candles-Keeps calendars s now request resolved).at
