-- ===== src/Backfill/Job.antt =====
-- The run of a backfill, whatever the candle service answers.
use mathlib.Core.List.{append_assoc, append-nil}
use signapse_mdg.Base.{
  ℕ, ◌≡◌, refl, sym, ◌∙◌, ap, subst, true, false, Bool, ◌||◌, none, List, [], ◌∷◌, ◌++◌, any,
  length, arith, Result, ok, err, ◌>>=◌, if◌then◌else◌, ok-injective, >>=-eq-ok, err_not_ok, String,
}
use signapse_mdg.Symbols.{SupportedSymbol}
use signapse_mdg.Candles.{CandleResult}
use signapse_mdg.Backfill.{
  BackfillOptions, BackfillChunk, iter_chunks, BackfillService, Progress, run_chunk, run_chunks,
  run_timeframe, run_timeframes, run_symbols, after, finish, process_backfill, noted, request_of,
}

-- The chunks of a backfill, symbol by symbol and timeframe by timeframe.
abbrev pub chunks_of_symbol :
    BackfillOptions → ℕ → SupportedSymbol → List String → Result (List BackfillChunk)
chunks_of_symbol options max_candles symbol [] = ok []
chunks_of_symbol options max_candles symbol (timeframe ∷ more) = do
  chunks ← iter_chunks symbol timeframe options.start options.end max_candles
  rest ← chunks_of_symbol options max_candles symbol more
  ok (chunks ++ rest)

abbrev pub planned : BackfillOptions → ℕ → List SupportedSymbol → Result (List BackfillChunk)
planned options max_candles [] = ok []
planned options max_candles (symbol ∷ more) = do
  chunks ← chunks_of_symbol options max_candles symbol options.timeframes
  rest ← planned options max_candles more
  ok (chunks ++ rest)

abbrev pub is_failure : BackfillChunk × Result ℕ → Bool
is_failure (chunk, ok count) = false
is_failure (chunk, err e) = true

-- What the service's answer to a chunk is noted as: how many candles, or what was raised.
abbrev pub counted : Result CandleResult → Result ℕ
counted (ok result) = ok (length result.candles)
counted (err e) = err e

-- A run of the service over chunks, one call after another: each call asks for the candles of its chunk by the
-- symbol, the timeframe, the start and the end, with no limit, count or provider, in the state that the call before
-- left; with the outcomes, and the state in the end.
pub data Asked {W : Type 0} (service : BackfillService W)
    : List BackfillChunk → W → List (BackfillChunk × Result ℕ) → W → Type 0 where
  nothing_asked : {w : W} → Asked service [] w [] w
  one_asked :
      {chunk : BackfillChunk} {more : List BackfillChunk} {w after_call end : W}
      {answer : Result CandleResult} {outcomes : List (BackfillChunk × Result ℕ)}
      → service w (record {
        symbol = chunk.symbol.symbol;
        timeframe = chunk.timeframe;
        start = chunk.start;
        end = chunk.end;
        limit = none;
        count_direction = none;
        provider = none;
        count = none;
      })
        ≡ (answer, after_call)
      → Asked service more after_call outcomes end
      → Asked service (chunk ∷ more) w ((chunk, counted answer) ∷ outcomes) end

Asked-append :
    {W : Type 0} {service : BackfillService W} {first second : List BackfillChunk}
    {w middle end : W} {outcomes more : List (BackfillChunk × Result ℕ)}
    → Asked service first w outcomes middle
    → Asked service second middle more end
    → Asked service (first ++ second) w (outcomes ++ more) end
Asked-append nothing_asked later = later
Asked-append (one_asked call rest) later = one_asked call (Asked-append rest later)

-- What came after an earlier progress: the calls of the service for the chunks, with their outcomes, and a failure
-- noted if and only if one was noted before or one of them failed.
record Follows {W : Type 0} (service : BackfillService W) (before : Progress W)
    (chunks : List BackfillChunk) (p : Progress W) : Type 0 where
  more : List (BackfillChunk × Result ℕ)
  outcomes : p.outcomes ≡ before.outcomes ++ more
  asked : Asked service chunks before.world more p.world
  failed : p.failed ≡ (before.failed || any is_failure more)

any-append :
    {A : Type 0} (test : A → Bool) (xs ys : List A)
    → any test (xs ++ ys) ≡ (any test xs || any test ys)
any-append test [] ys = refl
any-append test (x ∷ xs) ys = ground (arith, any-append test xs ys)

module _ {W : Type 0} (service : BackfillService W) where
  Follows-nothing : (p : Progress W) → Follows service p [] p
  Follows-nothing p = record {
    more = [];
    outcomes = sym (append-nil p.outcomes);
    asked = nothing_asked;
    failed = ground arith;
  }

  Follows-trans :
      {p q r : Progress W} {chunks rest : List BackfillChunk}
      → Follows service p chunks q
      → Follows service q rest r
      → Follows service p (chunks ++ rest) r
  Follows-trans {p} {q} {r} {chunks} {rest} f g = record {
    more = f.more ++ g.more;
    outcomes =
        g.outcomes ∙ ap (λ o. o ++ g.more) f.outcomes ∙ append_assoc p.outcomes f.more g.more;
    asked = Asked-append f.asked g.asked;
    failed = ground (arith, f.failed, g.failed, any-append is_failure f.more g.more);
  }

  -- A loop that raised nothing, and what it did.
  abbrev Ran : Progress W → List BackfillChunk → Result (Unit {0}) × Progress W → Type 0
  Ran before chunks (ok done, p) = Follows service before chunks p
  Ran before chunks (err e, p) = ⊥

  after-Ran :
      (before : Progress W) (chunks rest : List BackfillChunk)
      (first : Result (Unit {0}) × Progress W) (next : Progress W → Result (Unit {0}) × Progress W)
      → Ran before chunks first
      → ((p : Progress W) → Ran p rest (next p))
      → Ran before (chunks ++ rest) (after first next)
  after-Ran before chunks rest (ok done, p) next ran then_ran = joined (next p) (then_ran p)
    where
      joined :
          (out : Result (Unit {0}) × Progress W) → Ran p rest out → Ran before (chunks ++ rest) out
      joined (ok done', q) g = Follows-trans ran g
      joined (err e, q) g = absurd g
  after-Ran before chunks rest (err e, p) next ran then_ran = absurd ran

  -- What a finished backfill gives: the calls that it made from the state `w`, and its exit code.
  abbrev pub IsDone : W → List BackfillChunk → Result ℕ × Progress W → Type 0
  IsDone w chunks (ok code, p) =
      Asked service chunks w p.outcomes p.world
      × (code ≡ (if any is_failure p.outcomes then 1 else 0))
  IsDone w chunks (err e, p) = ⊥

  run_chunk-Follows :
      (chunk : BackfillChunk) (p : Progress W)
      → Follows service p (chunk ∷ []) (run_chunk service chunk p)
  unfolding run_chunk
  run_chunk-Follows chunk p = of_answer (service p.world (request_of chunk)) refl
    where
      of_answer :
          (a : Result CandleResult × W)
          → service p.world (request_of chunk) ≡ a
          → Follows service p (chunk ∷ []) (noted chunk a p)
      of_answer (ok result, w) e = record {
        more = (chunk, ok (length result.candles)) ∷ [];
        outcomes = refl;
        asked = one_asked {answer = ok result} e nothing_asked;
        failed = ground arith;
      }
      of_answer (err x, w) e = record {
        more = (chunk, err x) ∷ [];
        outcomes = refl;
        asked = one_asked {answer = err x} e nothing_asked;
        failed = ground arith;
      }

  run_chunks-Follows :
      (chunks : List BackfillChunk) (p : Progress W)
      → Follows service p chunks (run_chunks service chunks p)
  run_chunks-Follows [] p = Follows-nothing p
  run_chunks-Follows (chunk ∷ more) p =
      Follows-trans (run_chunk-Follows chunk p)
        (run_chunks-Follows more (run_chunk service chunk p))

  run_timeframe-Ran :
      (r : Result (List BackfillChunk)) (chunks : List BackfillChunk) (p : Progress W)
      → r ≡ ok chunks
      → Ran p chunks (run_timeframe service r p)
  run_timeframe-Ran (ok cs) chunks p h =
      subst (λ x. Follows service p x (run_chunks service cs p)) (ok-injective h)
        (run_chunks-Follows cs p)
  run_timeframe-Ran (err e) chunks p h = absurd (err_not_ok h)

  run_timeframes-Ran :
      (options : BackfillOptions) (max_candles : ℕ) (symbol : SupportedSymbol) (names : List String)
      (chunks : List BackfillChunk) (p : Progress W)
      → chunks_of_symbol options max_candles symbol names ≡ ok chunks
      → Ran p chunks (run_timeframes service options max_candles symbol names p)
  run_timeframes-Ran options max_candles symbol [] chunks p h =
      subst (λ x. Ran p x (ok tt, p)) (ok-injective h) (Follows-nothing p)
  run_timeframes-Ran options max_candles symbol (name ∷ more) chunks p h =
      let (first, at, h') =
        >>=-eq-ok (iter_chunks symbol name options.start options.end max_candles) _ h in
      let (rest, at', h'') = >>=-eq-ok (chunks_of_symbol options max_candles symbol more) _ h' in
      subst (λ x. Ran p x (run_timeframes service options max_candles symbol (name ∷ more) p))
        (ok-injective h'')
        (after-Ran p first rest
          (run_timeframe service (iter_chunks symbol name options.start options.end max_candles) p)
          (run_timeframes service options max_candles symbol more) (run_timeframe-Ran _ first p at)
          (λ q. run_timeframes-Ran options max_candles symbol more rest q at'))

  run_symbols-Ran :
      (options : BackfillOptions) (max_candles : ℕ) (symbols : List SupportedSymbol)
      (chunks : List BackfillChunk) (p : Progress W)
      → planned options max_candles symbols ≡ ok chunks
      → Ran p chunks (run_symbols service options max_candles symbols p)
  run_symbols-Ran options max_candles [] chunks p h =
      subst (λ x. Ran p x (ok tt, p)) (ok-injective h) (Follows-nothing p)
  run_symbols-Ran options max_candles (symbol ∷ more) chunks p h =
      let (first, at, h') =
        >>=-eq-ok (chunks_of_symbol options max_candles symbol options.timeframes) _ h in
      let (rest, at', h'') = >>=-eq-ok (planned options max_candles more) _ h' in
      subst (λ x. Ran p x (run_symbols service options max_candles (symbol ∷ more) p))
        (ok-injective h'')
        (after-Ran p first rest
          (run_timeframes service options max_candles symbol options.timeframes p)
          (run_symbols service options max_candles more)
          (run_timeframes-Ran options max_candles symbol options.timeframes first p at)
          (λ q. run_symbols-Ran options max_candles more rest q at'))

  -- Where every symbol and timeframe can be cut into chunks, a backfill calls the candle service for each chunk
  -- once, in their order, each call in the state that the one before left and whichever of them fail, notes what
  -- each call gave, and returns 1 if one failed, and 0 if none did.
  pub process_backfill_lem :
      (options : BackfillOptions) (max_candles : ℕ) (symbols : List SupportedSymbol)
      (chunks : List BackfillChunk) (w : W)
      → planned options max_candles symbols ≡ ok chunks
      → IsDone w chunks (process_backfill service options symbols max_candles w)
  unfolding process_backfill
  process_backfill_lem options max_candles symbols chunks w h =
      of_run (run_symbols service options max_candles symbols start)
        (run_symbols-Ran options max_candles symbols chunks start h)
    where
      start : Progress W
      start = record { failed = false; outcomes = []; world = w }

      of_run :
          (out : Result (Unit {0}) × Progress W)
          → Ran start chunks out
          → IsDone w chunks (finish out)
      of_run (ok done, p) f = (
        subst (λ o. Asked service chunks w o p.world) (sym f.outcomes) f.asked,
        ground (arith, f.failed, f.outcomes),
      )
      of_run (err e, p) f = absurd f
