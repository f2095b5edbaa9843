-- ===== src/Requests/Bounds.antt =====
-- What a request that was parsed satisfies.
use signapse_mdg.Base.{
  ℕ, ◌≤◌, ◌<◌, ◌≡◌, ◌≢◌, ◌∙◌, sym, ◌⊎◌, inl, inr, refl, true, false, ◌&&◌, ◌||◌, Option, none, some,
  String, string_eq, ◌==◌, arith, ok, >>=-eq-ok, ok-injective, err_not_ok, subst, ltb, leb,
  Bool-cases, Option-cases, eq_iff, string_lawful,
}
use signapse_mdg.Base.Text.{strip}
use signapse_mdg.Candles.{CandleRequest}
use signapse_mdg.Time.Timeframe.{ℤ, pos, negsuc, Timeframe, get_timeframe}
use signapse_mdg.Requests.{
  Parsers, RawRequest, parse_limit, bounded_limit, given, time_or, parse_utc, conservative_count,
  few_enough, validate_range, anchored, ranged, by_limit, parse_known, parse_candle_request,
  text_of,
}
use signapse_mdg.Requests.Names.{Names, parse_known-Names}

-- A request for a number of candles, between 1 and the maximum, from or up to one instant.
abbrev pub Anchored : ℕ → CandleRequest → Type 0
Anchored max_candles r =
    (r.start ≡ r.end)
    × (r.count_direction ≢ none)
    × ((n : ℕ) × (((r.limit ≡ some n) × (r.count ≡ none)) ⊎ ((r.limit ≡ none) × (r.count ≡ some n)))
        × (1 ≤ n)
        × (n ≤ max_candles))

-- A request for a range, which is not empty and has no more slots than the maximum.
abbrev pub Ranged : ℕ → Timeframe → CandleRequest → Type 0
Ranged max_candles timeframe r =
    (r.limit ≡ none)
    × (r.count ≡ none)
    × (r.count_direction ≡ none)
    × (r.start < r.end)
    × ((n : ℕ) × (conservative_count r.start r.end timeframe ≡ ok n) × (n ≤ max_candles))

bounded_limit_lem :
    (max_candles : ℕ) (parsed : Option ℤ) (limit : Option ℕ)
    → bounded_limit max_candles parsed ≡ ok limit
    → (n : ℕ) × (limit ≡ some n) × (1 ≤ n) × (n ≤ max_candles)
bounded_limit_lem max_candles none limit h = absurd (err_not_ok h)
bounded_limit_lem max_candles (some (negsuc k)) limit h = absurd (err_not_ok h)
bounded_limit_lem max_candles (some (pos k)) limit h =
    go (Bool-cases (ltb k 1 || ltb max_candles k))
  where
    go :
        ((ltb k 1 || ltb max_candles k) ≡ true) ⊎ ((ltb k 1 || ltb max_candles k) ≡ false)
        → (n : ℕ) × (limit ≡ some n) × (1 ≤ n) × (n ≤ max_candles)
    go (inl e) = ground (arith, h, e)
    go (inr e) = (k, ground (arith, h, e), ground (arith, e), ground (arith, e))

parse_limit_lem :
    (parsers : Parsers) (raw : Option String) (max_candles : ℕ) (limit : Option ℕ)
    → parse_limit parsers raw max_candles ≡ ok limit
    → given raw ≡ true
    → (n : ℕ) × (limit ≡ some n) × (1 ≤ n) × (n ≤ max_candles)
unfolding parse_limit
parse_limit_lem parsers none max_candles limit h g = absurd (go g)
  where
    go : false ≡ true → ⊥
    go q = cc
parse_limit_lem parsers (some raw) max_candles limit h g =
    bounded_limit_lem max_candles (parsers.int (strip raw)) limit h

-- What both ways to anchor a request have in common.
abbrev AtOneInstant : Option ℕ → Option ℕ → CandleRequest → Type 0
AtOneInstant limit count r =
    (r.start ≡ r.end) × (r.count_direction ≢ none) × (r.limit ≡ limit) × (r.count ≡ count)

anchored_lem :
    (parsers : Parsers) (now : ℕ) (symbol : String) (timeframe : Timeframe) (raw : RawRequest)
    (limit count : Option ℕ) (r : CandleRequest)
    → anchored parsers now symbol timeframe raw limit count ≡ ok r
    → AtOneInstant limit count r
unfolding anchored
anchored_lem parsers now symbol timeframe raw limit count r h =
    elim (Bool-cases (given raw.raw_from)) [
      | inl from ↦ elim (Bool-cases (given raw.raw_to)) [
        | inl to ↦ ground (arith, h, from, to)
        | inr to ↦
            let (start, _, e) = >>=-eq-ok (parse_utc parsers raw.raw_from) _ (rw (from, to) at h) in
            subst (AtOneInstant limit count) (ok-injective e) (refl, λ q. cc, refl, refl)
      ]
      | inr from ↦
          let (end, _, e) = >>=-eq-ok (time_or parsers now raw.raw_to) _ (rw from at h) in
          subst (AtOneInstant limit count) (ok-injective e) (refl, λ q. cc, refl, refl)
    ]

few_enough_lem :
    (max_candles n : ℕ) (u : Unit {0}) → few_enough max_candles n ≡ ok u → n ≤ max_candles
few_enough_lem max_candles n u h = ground arith

ranged_lem :
    (parsers : Parsers) (now max_candles : ℕ) (symbol : String) (timeframe : Timeframe)
    (raw : RawRequest) (r : CandleRequest)
    → ranged parsers now max_candles symbol timeframe raw ≡ ok r
    → Ranged max_candles timeframe r
unfolding ranged validate_range
ranged_lem parsers now max_candles symbol timeframe raw r h =
    let (end, _, h1) = >>=-eq-ok (time_or parsers now raw.raw_to) _ h in
    let (start, _, h2) = >>=-eq-ok (parse_utc parsers raw.raw_from) _ h1 in
    let (u, v, h3) = >>=-eq-ok (validate_range start end timeframe max_candles) _ h2 in
    elim (Bool-cases (leb end start)) [
      | inl e ↦ absurd (err_not_ok (rw e at v))
      | inr e ↦
          let (n, counted, few) =
            >>=-eq-ok (conservative_count start end timeframe) _ (rw e at v) in
          subst (Ranged max_candles timeframe) (ok-injective h3)
            (refl, refl, refl, ground (arith, e), (n, counted, few_enough_lem max_candles n u few))
    ]

Anchored-bounds :
    (max_candles n : ℕ) (limit count : Option ℕ) (r : CandleRequest)
    → ((limit ≡ some n) × (count ≡ none)) ⊎ ((limit ≡ none) × (count ≡ some n))
    → 1 ≤ n
    → n ≤ max_candles
    → AtOneInstant limit count r
    → Anchored max_candles r
Anchored-bounds max_candles n limit count r (inl (l, c)) low high (same, way, rl, rc) =
    (same, way, (n, inl (rl ∙ l, rc ∙ c), low, high))
Anchored-bounds max_candles n limit count r (inr (l, c)) low high (same, way, rl, rc) =
    (same, way, (n, inr (rl ∙ l, rc ∙ c), low, high))

by_limit_lem :
    (parsers : Parsers) (now max_candles : ℕ) (symbol : String) (timeframe : Timeframe)
    (raw : RawRequest) (limit : Option ℕ) (r : CandleRequest)
    → (limit ≡ none) ⊎ ((n : ℕ) × (limit ≡ some n) × (1 ≤ n) × (n ≤ max_candles))
    → by_limit parsers now max_candles symbol timeframe raw limit ≡ ok r
    → Anchored max_candles r ⊎ Ranged max_candles timeframe r
by_limit_lem parsers now max_candles symbol timeframe raw none r b h =
    inr (ranged_lem parsers now max_candles symbol timeframe raw r h)
by_limit_lem parsers now max_candles symbol timeframe raw (some limit) r (inl none_given) h =
    absurd (go none_given)
  where
    go : some limit ≡ none → ⊥
    go q = cc
by_limit_lem parsers now max_candles symbol timeframe raw (some limit) r (inr (n, e, low, high)) h =
    inl (
      Anchored-bounds max_candles n (some limit) none r (inl (e, refl)) low high
        (anchored_lem parsers now symbol timeframe raw (some limit) none r h))

parse_limit_cases :
    (parsers : Parsers) (raw : Option String) (max_candles : ℕ) (limit : Option ℕ)
    → parse_limit parsers raw max_candles ≡ ok limit
    → (limit ≡ none) ⊎ ((n : ℕ) × (limit ≡ some n) × (1 ≤ n) × (n ≤ max_candles))
unfolding parse_limit
parse_limit_cases parsers none max_candles limit h = inl (sym (ok-injective h))
parse_limit_cases parsers (some raw) max_candles limit h =
    inr (bounded_limit_lem max_candles (parsers.int (strip raw)) limit h)

known_lem :
    (parsers : Parsers) (now max_candles : ℕ) (symbol : String) (timeframe : Timeframe)
    (raw : RawRequest) (r : CandleRequest)
    → parse_known parsers now max_candles symbol timeframe raw ≡ ok r
    → Anchored max_candles r ⊎ Ranged max_candles timeframe r
unfolding parse_known
known_lem parsers now max_candles symbol timeframe raw r h =
    elim (Bool-cases (given raw.raw_limit && given raw.raw_count)) [
      | inl both ↦ absurd (err_not_ok (rw both at h))
      | inr both ↦ elim (Bool-cases (given raw.raw_count)) [
        | inl counted ↦
            let (count, parsed, h1) =
              >>=-eq-ok (parse_limit parsers raw.raw_count max_candles) _
                (rw (both, counted) at h) in
            let (n, e, low, high) =
              parse_limit_lem parsers raw.raw_count max_candles count parsed counted in
            inl (
              Anchored-bounds max_candles n none count r (inr (refl, e)) low high
                (anchored_lem parsers now symbol timeframe raw none count r h1))
        | inr counted ↦
            let (limit, parsed, h1) =
              >>=-eq-ok (parse_limit parsers raw.raw_limit max_candles) _
                (rw (both, counted) at h) in
            by_limit_lem parsers now max_candles symbol timeframe raw limit r
              (parse_limit_cases parsers raw.raw_limit max_candles limit parsed) h1
      ]
    ]

-- A request that is parsed has the symbol, the timeframe and the provider of the raw one, of which the symbol is not
-- empty and the timeframe is one of the table, and asks either for a number of candles from 1 to
-- the maximum from or up to one instant, or for a range that is not empty and has no more slots than the
-- maximum.
pub parse_candle_request_lem :
    (parsers : Parsers) (now max_candles : ℕ) (raw : RawRequest) (r : CandleRequest)
    → parse_candle_request parsers now max_candles raw ≡ ok r
    → (timeframe : Timeframe) × (get_timeframe (text_of raw.raw_timeframe) ≡ some timeframe)
      × (text_of raw.raw_symbol ≢ "")
      × Names (text_of raw.raw_symbol) timeframe raw.raw_provider r
      × (Anchored max_candles r ⊎ Ranged max_candles timeframe r)
unfolding parse_candle_request
parse_candle_request_lem parsers now max_candles raw r h =
    elim (Bool-cases (given raw.raw_before)) [
      | inl before ↦ absurd (err_not_ok (rw before at h))
      | inr before ↦ elim (Bool-cases (text_of raw.raw_symbol == "")) [
        | inl blank ↦ absurd (err_not_ok (rw (before, blank) at h))
        | inr blank ↦ elim (Option-cases (get_timeframe (text_of raw.raw_timeframe))) [
          | inl e ↦ absurd (err_not_ok (rw (before, blank, e) at h))
          | inr (timeframe, e) ↦ (
            timeframe,
            e,
            (λ q. ground (arith, blank, eq_iff (text_of raw.raw_symbol) "", q)),
            parse_known-Names parsers now max_candles (text_of raw.raw_symbol) timeframe raw r
                (rw (before, blank, e) at h),
            known_lem parsers now max_candles (text_of raw.raw_symbol) timeframe raw r
                (rw (before, blank, e) at h),
          )
        ]
      ]
    ]
