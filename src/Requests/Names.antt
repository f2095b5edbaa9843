-- ===== src/Requests/Names.antt =====
-- Which symbol, timeframe and provider a parsed request names.
use signapse_mdg.Base.{
  ℕ, ◌≡◌, inl, inr, refl, ◌&&◌, Option, none, some, String, string_eq, ok, >>=-eq-ok, ok-injective,
  err_not_ok, subst, Bool-cases, string_lawful,
}
use signapse_mdg.Candles.{CandleRequest}
use signapse_mdg.Time.Timeframe.{Timeframe}
use signapse_mdg.Requests.{
  Parsers, RawRequest, parse_limit, given, time_or, parse_utc, validate_range, anchored, ranged,
  by_limit, parse_known,
}

-- The request names the symbol, the timeframe and the provider that it was parsed with.
abbrev pub Names : String → Timeframe → Option String → CandleRequest → Type 0
Names symbol timeframe provider r =
    (r.symbol ≡ symbol) × (r.timeframe ≡ timeframe.value) × (r.provider ≡ provider)

anchored-Names :
    (parsers : Parsers) (now : ℕ) (symbol : String) (timeframe : Timeframe) (raw : RawRequest)
    (limit count : Option ℕ) (r : CandleRequest)
    → anchored parsers now symbol timeframe raw limit count ≡ ok r
    → Names symbol timeframe raw.raw_provider r
unfolding anchored
anchored-Names parsers now symbol timeframe raw limit count r h =
    elim (Bool-cases (given raw.raw_from)) [
      | inl from ↦ elim (Bool-cases (given raw.raw_to)) [
        | inl to ↦ absurd (err_not_ok (rw (from, to) at h))
        | inr to ↦
            let (start, _, e) = >>=-eq-ok (parse_utc parsers raw.raw_from) _ (rw (from, to) at h) in
            subst (Names symbol timeframe raw.raw_provider) (ok-injective e) (refl, refl, refl)
      ]
      | inr from ↦
          let (end, _, e) = >>=-eq-ok (time_or parsers now raw.raw_to) _ (rw from at h) in
          subst (Names symbol timeframe raw.raw_provider) (ok-injective e) (refl, refl, refl)
    ]

ranged-Names :
    (parsers : Parsers) (now max_candles : ℕ) (symbol : String) (timeframe : Timeframe)
    (raw : RawRequest) (r : CandleRequest)
    → ranged parsers now max_candles symbol timeframe raw ≡ ok r
    → Names symbol timeframe raw.raw_provider r
unfolding ranged
ranged-Names parsers now max_candles symbol timeframe raw r h =
    let (end, _, h1) = >>=-eq-ok (time_or parsers now raw.raw_to) _ h in
    let (start, _, h2) = >>=-eq-ok (parse_utc parsers raw.raw_from) _ h1 in
    let (u, v, h3) = >>=-eq-ok (validate_range start end timeframe max_candles) _ h2 in
    subst (Names symbol timeframe raw.raw_provider) (ok-injective h3) (refl, refl, refl)

by_limit-Names :
    (parsers : Parsers) (now max_candles : ℕ) (symbol : String) (timeframe : Timeframe)
    (raw : RawRequest) (limit : Option ℕ) (r : CandleRequest)
    → by_limit parsers now max_candles symbol timeframe raw limit ≡ ok r
    → Names symbol timeframe raw.raw_provider r
by_limit-Names parsers now max_candles symbol timeframe raw none r h =
    ranged-Names parsers now max_candles symbol timeframe raw r h
by_limit-Names parsers now max_candles symbol timeframe raw (some limit) r h =
    anchored-Names parsers now symbol timeframe raw (some limit) none r h

pub parse_known-Names :
    (parsers : Parsers) (now max_candles : ℕ) (symbol : String) (timeframe : Timeframe)
    (raw : RawRequest) (r : CandleRequest)
    → parse_known parsers now max_candles symbol timeframe raw ≡ ok r
    → Names symbol timeframe raw.raw_provider r
unfolding parse_known
parse_known-Names parsers now max_candles symbol timeframe raw r h =
    elim (Bool-cases (given raw.raw_limit && given raw.raw_count)) [
      | inl both ↦ absurd (err_not_ok (rw both at h))
      | inr both ↦ elim (Bool-cases (given raw.raw_count)) [
        | inl counted ↦
            let (count, parsed, h1) =
              >>=-eq-ok (parse_limit parsers raw.raw_count max_candles) _
                (rw (both, counted) at h) in
            anchored-Names parsers now symbol timeframe raw none count r h1
        | inr counted ↦
            let (limit, parsed, h1) =
              >>=-eq-ok (parse_limit parsers raw.raw_limit max_candles) _
                (rw (both, counted) at h) in
            by_limit-Names parsers now max_candles symbol timeframe raw limit r h1
      ]
    ]
