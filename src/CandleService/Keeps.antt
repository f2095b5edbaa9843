-- ===== src/CandleService/Keeps.antt =====
-- The cache of forming candles stays valid under every part of a request for candles, whether the request
-- is answered or raises.
use signapse_mdg.Base.{ℕ, Option, none, some, List, [], ◌∷◌}
use signapse_mdg.Candles.{Candle}
use signapse_mdg.Candles.Merge.{ByOpen}
use signapse_mdg.Schedule.Sections.{ProviderFetchSection}
use signapse_mdg.Gateway.{Repository, CandleProvider, World}
use signapse_mdg.Gateway.Keeps.{Keeps, HasValidCache, keeps_rules, Keeps-pure}
use signapse_mdg.CandleService.{
  Context, Plan, fetch_sections, put_forming, store_normalized, read_persisted, fill, fall_back,
  fall_back_to, respond, get_planned, get_by_plan,
}

module _ {S : Type 0} (repo : Repository S) (provider : CandleProvider) where
  fetch_sections-Keeps :
      (c : Context) (sections : List ProviderFetchSection)
      → Keeps (HasValidCache {S = S}) (fetch_sections repo provider c sections)
  unfolding fetch_sections
  fetch_sections-Keeps c [] = Keeps-pure _
  fetch_sections-Keeps c (section ∷ more) =
      let ih = fetch_sections-Keeps c more in search keeps_rules

  put_forming-Keeps :
      (now : ℕ) (candles : List Candle)
      → Keeps (HasValidCache {S = S}) (put_forming repo provider now candles)
  unfolding put_forming
  put_forming-Keeps now [] = Keeps-pure _
  put_forming-Keeps now (candle ∷ more) = let ih = put_forming-Keeps now more in search keeps_rules

  pub store_normalized-Keeps :
      (now : ℕ) (candles : List Candle)
      → Keeps (HasValidCache {S = S}) (store_normalized repo provider now candles)
  unfolding store_normalized
  store_normalized-Keeps now candles = search (keeps_rules, put_forming-Keeps)

  read_persisted-Keeps :
      (c : Context) (start end : ℕ)
      → Keeps (HasValidCache {S = S}) (read_persisted repo provider c start end)
  unfolding read_persisted
  read_persisted-Keeps c start end = search keeps_rules

  fill-Keeps :
      (c : Context) (expected : List ℕ) (persisted : List Candle) (current : Option Candle)
      → Keeps (HasValidCache {S = S}) (fill repo provider c expected persisted current)
  unfolding fill
  fill-Keeps c expected persisted current =
      search (keeps_rules, fetch_sections-Keeps, store_normalized-Keeps)

  fall_back_to-Keeps :
      (c : Context) (open_time : Option ℕ) (current : Option Candle) (merged : ByOpen)
      (response_opens : List ℕ)
      → Keeps
          (HasValidCache {S = S})
          (fall_back_to repo provider c open_time current merged response_opens)
  unfolding fall_back
  fall_back_to-Keeps c none current merged response_opens = search keeps_rules
  fall_back_to-Keeps c (some open_time) current merged response_opens =
      search (keeps_rules, read_persisted-Keeps, fill-Keeps)

  respond-Keeps :
      (c : Context) (p : Plan) (current : Option Candle) (merged : ByOpen)
      → Keeps (HasValidCache {S = S}) (respond repo provider c p current merged)
  unfolding respond
  respond-Keeps c p current merged = search (keeps_rules, fall_back_to-Keeps)

  get_planned-Keeps :
      (max_candles ttl : ℕ) (c : Context) (p : Plan)
      → Keeps (HasValidCache {S = S}) (get_planned repo provider max_candles ttl c p)
  unfolding get_planned
  get_planned-Keeps max_candles ttl c p =
      search (keeps_rules, read_persisted-Keeps, fill-Keeps, respond-Keeps) depth 12

  get_by_plan-Keeps :
      (max_candles ttl : ℕ) (c : Context)
      → Keeps (HasValidCache {S = S}) (get_by_plan repo provider max_candles ttl c)
  unfolding get_by_plan
  get_by_plan-Keeps max_candles ttl c = search (keeps_rules, get_planned-Keeps)

  -- A request for candles leaves the cache valid, whether it is answered or raises: every entry stands under
  -- the key of its own candle, no key twice, and no candle is complete.
  pub get_by_plan_keeps_cache :
      (max_candles ttl : ℕ) (c : Context) (w : World S)
      → HasValidCache w
      → HasValidCache (get_by_plan repo provider max_candles ttl c w).1
  get_by_plan_keeps_cache max_candles ttl c = (get_by_plan-Keeps max_candles ttl c).at
