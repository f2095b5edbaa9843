-- ===== src/CandleCount/Keeps.antt =====
-- The cache of forming candles stays valid under a request for a number of candles.
use signapse_mdg.Base.{ℕ, zero, suc, Option, none, some}
use signapse_mdg.Candles.{Candle, CountDirection}
use signapse_mdg.Gateway.{Repository, CandleProvider, World, Exec}
use signapse_mdg.Gateway.Keeps.{Keeps, HasValidCache, keeps_rules, Keeps-pure, Keeps-raise}
use signapse_mdg.CandleService.{Context}
use signapse_mdg.CandleService.Keeps.{store_normalized-Keeps}
use signapse_mdg.CandleCount.{
  CountScanPage, Progress, fetch_page, load_page, with_page, scan_pages, execute_count,
  execute_valid, execute,
}

module _ {S : Type 0} (repo : Repository S) (provider : CandleProvider) where
  fetch_page-Keeps :
      (max_candles : ℕ) (c : Context) (page : CountScanPage)
      → Keeps (HasValidCache {S = S}) (fetch_page repo provider max_candles c page)
  unfolding fetch_page
  fetch_page-Keeps max_candles c page = search (keeps_rules, store_normalized-Keeps)

  load_page-Keeps :
      (max_candles : ℕ) (c : Context) (page : CountScanPage) (current : Option Candle)
      → Keeps (HasValidCache {S = S}) (load_page repo provider max_candles c page current)
  unfolding load_page
  load_page-Keeps max_candles c page current = search (keeps_rules, fetch_page-Keeps)

  with_page-Keeps :
      (page : Option CountScanPage) (progress : Progress) (rest : CountScanPage → Exec S Progress)
      → ((found : CountScanPage) → Keeps HasValidCache (rest found))
      → Keeps HasValidCache (with_page repo provider page progress rest)
  with_page-Keeps none progress rest kept = Keeps-pure progress
  with_page-Keeps (some page) progress rest kept = kept page

  scan_pages-Keeps :
      (fuel max_candles : ℕ) (c : Context) (count : ℕ) (current : Option Candle)
      (progress : Progress)
      → Keeps
          (HasValidCache {S = S})
          (scan_pages repo provider fuel max_candles c count current progress)
  unfolding scan_pages
  scan_pages-Keeps zero max_candles c count current progress = Keeps-raise _
  scan_pages-Keeps (suc fuel) max_candles c count current progress =
      let ih = scan_pages-Keeps fuel max_candles c count current in
      search (keeps_rules, with_page-Keeps, load_page-Keeps, ih) depth 12

  execute_count-Keeps :
      (max_candles scan_budget ttl : ℕ) (c : Context) (count : ℕ)
      → Keeps
          (HasValidCache {S = S})
          (execute_count repo provider max_candles scan_budget ttl c count)
  unfolding execute_count
  execute_count-Keeps max_candles scan_budget ttl c count = search (keeps_rules, scan_pages-Keeps)

  execute_valid-Keeps :
      (max_candles scan_budget ttl : ℕ) (c : Context) (asked : Option ℕ)
      (direction : Option CountDirection)
      → Keeps
          (HasValidCache {S = S})
          (execute_valid repo provider max_candles scan_budget ttl c asked direction)
  execute_valid-Keeps max_candles scan_budget ttl c none direction = Keeps-raise _
  execute_valid-Keeps max_candles scan_budget ttl c (some zero) direction = Keeps-raise _
  execute_valid-Keeps max_candles scan_budget ttl c (some (suc n)) none = Keeps-raise _
  execute_valid-Keeps max_candles scan_budget ttl c (some (suc n)) (some direction) =
      execute_count-Keeps max_candles scan_budget ttl c (suc n)

  -- A request for a number of candles leaves the cache valid, whether it is answered or raises.
  pub execute_keeps_cache :
      (max_candles scan_budget ttl : ℕ) (c : Context) (w : World S)
      → HasValidCache w
      → HasValidCache (execute repo provider max_candles scan_budget ttl c w).1
  unfolding execute
  execute_keeps_cache max_candles scan_budget ttl c =
      (execute_valid-Keeps max_candles scan_budget ttl c c.request.count
        c.request.count_direction).at
