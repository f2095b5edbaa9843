-- ===== src/CandleCount/Bounds.antt =====
-- What a request for a number of candles answers.
use signapse_mdg.Base.{
  ℕ, zero, suc, ◌-◌, ◌≤◌, ◌≡◌, refl, Bool, true, false, Option, none, some, List, [], ◌∷◌, ok,
  err_not_ok, arith, length, ltb, Above, values, nat_eq, contains,
}
use signapse_mdg.Base.Opens.{Above-mono}
use signapse_mdg.Candles.{Candle, CandleResult, CountDirection}
use signapse_mdg.Candles.Merge.{sort_by_open_time}
use signapse_mdg.Candles.Merge.Laws.{IsKeyed, sort-Above, values-HasDistinctOpens}
use signapse_mdg.Gateway.{
  Repository, CandleProvider, World, Exec, pure, lift, list_complete, cache_get,
}
use signapse_mdg.Gateway.Keeps.{Returns, Returns-pure, Returns-if, Returns-bind, Returns-after}
use signapse_mdg.CandleService.{Context, open_times, is_forward}
use signapse_mdg.CandleService.Answer.{own_key_update, merge-IsKeyed}
use signapse_mdg.CandleCount.{
  CountScanPage, Progress, after_page, take_candles, drop_candles, chosen, load_page, with_page,
  scan_pages, next_page, answer_of, first_progress, execute_count, execute_valid, execute,
}

take-Above :
    (b n : ℕ) (l : List Candle) → Above b (open_times l) → Above b (open_times (take_candles n l))
take-Above b zero l h = tt
take-Above b (suc n) [] h = tt
take-Above b (suc n) (c ∷ l) h = (h.0, take-Above (suc c.open_time) n l h.1)

drop-Above :
    (b n : ℕ) (l : List Candle) → Above b (open_times l) → Above b (open_times (drop_candles n l))
drop-Above b zero l h = h
drop-Above b (suc n) [] h = tt
drop-Above b (suc n) (c ∷ l) h =
    drop-Above b n l
      (Above-mono b (suc c.open_time) (open_times l) (let low = h.0 in omega arith) h.1)

length-take_candles : (n : ℕ) (l : List Candle) → length (take_candles n l) ≤ n
length-take_candles zero l = omega arith
length-take_candles (suc n) [] = omega arith
length-take_candles (suc n) (c ∷ l) = let ih = length-take_candles n l in omega arith

length-drop_candles : (n : ℕ) (l : List Candle) → length (drop_candles n l) ≡ length l - n
length-drop_candles zero l = omega arith
length-drop_candles (suc n) [] = omega arith
length-drop_candles (suc n) (c ∷ l) = let ih = length-drop_candles n l in omega arith

-- At most `count` candles, which ascend strictly.
record IsCounted (count : ℕ) (candles : List Candle) : Type 0 where
  ascending : Above 0 (open_times candles)
  bounded : length candles ≤ count

chosen-IsCounted :
    (forwards : Bool) (count : ℕ) (l : List Candle)
    → Above 0 (open_times l)
    → IsCounted count (chosen forwards count l)
chosen-IsCounted true count l h = record {
  ascending = take-Above 0 count l h;
  bounded = length-take_candles count l;
}
chosen-IsCounted false count l h = record {
  ascending = drop-Above 0 (length l - count) l h;
  bounded = let e = length-drop_candles (length l - count) l in omega arith;
}

module _ {S : Type 0} (repo : Repository S) (provider : CandleProvider) where
  load_page-IsKeyed :
      (max_candles : ℕ) (c : Context) (page : CountScanPage) (current : Option Candle)
      → Returns IsKeyed (load_page repo provider max_candles c page current)
  unfolding load_page
  load_page-IsKeyed max_candles c page current =
      Returns-after (list_complete repo c.symbol c.request.timeframe page.start page.end) _ (λ rows.
        Returns-after _ _ (λ normalized. Returns-pure _ (
          merge-IsKeyed normalized _ (λ candle. contains page.expected_opens candle.open_time)
            current)))

  with_page-IsKeyed :
      (page : Option CountScanPage) (progress : Progress) (rest : CountScanPage → Exec S Progress)
      → IsKeyed progress.merged
      → ((found : CountScanPage) → Returns (λ (p : Progress). IsKeyed p.merged) (rest found))
      → Returns (λ (p : Progress). IsKeyed p.merged) (with_page repo provider page progress rest)
  with_page-IsKeyed none progress rest v r = Returns-pure progress v
  with_page-IsKeyed (some found) progress rest v r = r found

  scan_pages-IsKeyed :
      (fuel max_candles : ℕ) (c : Context) (count : ℕ) (current : Option Candle)
      (progress : Progress)
      → IsKeyed progress.merged
      → Returns
          (λ (p : Progress). IsKeyed p.merged)
          (scan_pages repo provider fuel max_candles c count current progress)
  unfolding scan_pages
  scan_pages-IsKeyed zero max_candles c count current progress v = record {
    at = λ w p h. absurd (err_not_ok h);
  }
  scan_pages-IsKeyed (suc fuel) max_candles c count current progress v =
      let ih = scan_pages-IsKeyed fuel max_candles c count current in
      Returns-if (ltb (length progress.merged) count) _ _
        (Returns-after (lift (next_page c count progress.cursor)) _ (λ step.
          with_page-IsKeyed step.0 progress _ v (λ found.
            Returns-bind IsKeyed (load_page repo provider max_candles c found current) _
              (load_page-IsKeyed max_candles c found current)
              (λ page_merged k.
                ih (after_page c found step.1 page_merged progress)
                  (own_key_update progress.merged page_merged v k.own_key)))))
        (Returns-pure progress v)

  execute_count-IsCounted :
      (max_candles scan_budget ttl : ℕ) (c : Context) (count : ℕ)
      → Returns
          (λ (r : CandleResult). IsCounted count r.candles)
          (execute_count repo provider max_candles scan_budget ttl c count)
  unfolding execute_count
  execute_count-IsCounted max_candles scan_budget ttl c count =
      Returns-after (cache_get ttl c.request.symbol c.request.timeframe c.symbol c.now) _
        (λ current.
          Returns-bind (λ (p : Progress). IsKeyed p.merged)
            (scan_pages repo provider (suc (suc scan_budget)) max_candles c count current
              (first_progress repo provider max_candles scan_budget c))
            (λ progress. pure (answer_of repo provider c count progress))
            (scan_pages-IsKeyed (suc (suc scan_budget)) max_candles c count current
              (first_progress repo provider max_candles scan_budget c)
              (record { distinct = tt; own_key = tt }))
            (λ progress k. Returns-pure (answer_of repo provider c count progress) (
              chosen-IsCounted (is_forward c.request.count_direction) count
                (sort_by_open_time (values progress.merged))
                (sort-Above (values progress.merged) (values-HasDistinctOpens progress.merged k)))))

  -- A request for a number of candles, if it returns, asked for some number, and is answered with at most
  -- that many candles, which ascend strictly by open time.
  pub execute_answer :
      (max_candles scan_budget ttl : ℕ) (c : Context) (w : World S) (result : CandleResult)
      → (execute repo provider max_candles scan_budget ttl c w).0 ≡ ok result
      → (count : ℕ) × (c.request.count ≡ some count)
        × Above 0 (open_times result.candles)
        × (length result.candles ≤ count)
  unfolding execute
  execute_answer max_candles scan_budget ttl c w result h =
      go c.request.count c.request.count_direction refl h
    where
      go :
          (asked : Option ℕ) (direction : Option CountDirection)
          → c.request.count ≡ asked
          → (execute_valid repo provider max_candles scan_budget ttl c asked direction w).0
            ≡ ok result
          → (count : ℕ) × (c.request.count ≡ some count)
            × Above 0 (open_times result.candles)
            × (length result.candles ≤ count)
      go none direction e r = absurd (err_not_ok r)
      go (some zero) direction e r = absurd (err_not_ok r)
      go (some (suc n)) none e r = absurd (err_not_ok r)
      go (some (suc n)) (some direction) e r =
          let answer =
            (execute_count-IsCounted max_candles scan_budget ttl c (suc n)).at w result r in
          (suc n, e, answer.ascending, answer.bounded)
