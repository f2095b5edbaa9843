-- ===== src/CandleService/Answer.antt =====
-- What a request for candles answers: order and number of the candles shown.
use signapse_mdg.Base.{
  candle_request, ℕ, suc, ◌+◌, ◌≤◌, ◌<◌, ◌≡◌, refl, inl, inr, Bool, true, false, not, ◌&&◌, Option,
  none, some, List, [], ◌∷◌, Result, ok, arith, contains, nat_eq, ltb, if◌then◌else◌, keep, length,
  length-map, length-keep-le, last, All, All-keep_test, Above, Bool-cases, update, insert, has_key,
  values, subst, sym, ◌==◌,
}
use signapse_mdg.Base.Opens.{Above-mono}
use signapse_mdg.Candles.{Candle, CandleResult}
use signapse_mdg.Candles.Merge.{ByOpen, sort_by_open_time}
use signapse_mdg.Candles.Merge.Laws.{
  IsKeyed, IsKeyed-insert, IsKeyed-update, IsKeyed-set_default, IsKeyed-keep, sort-All, sort-Above,
  values-HasDistinctOpens,
}
use signapse_mdg.Gateway.{
  Repository, CandleProvider, World, Exec, pure, raise, lift, ◌>>=◌, cache_get,
}
use signapse_mdg.Schedule.{latest_opens, end_after}
use signapse_mdg.Gateway.Keeps.{Returns, Returns-pure, Returns-bind, Returns-after}
use signapse_mdg.CandleService.{
  Context, Plan, eligible, open_times, merge, head_or, read_persisted, fill, add_current, fall_back,
  fall_back_to, respond, in_range, plan, is_one, is_forward, missing_last, latest_or, get_planned,
  get_by_plan, shown,
}

length-keep-lt :
    (x : ℕ) (ys : List ℕ) → contains ys x ≡ true → 1 + length (keep (ltb x) ys) ≤ length ys
length-keep-lt x [] h = cc
length-keep-lt x (y ∷ ys) h = ground (arith, length-keep-lt x ys, length-keep-le (ltb x) ys)

contains-keep_above :
    (x y : ℕ) (ys : List ℕ) → x < y → contains ys y ≡ true → contains (keep (ltb x) ys) y ≡ true
contains-keep_above x y [] l h = h
contains-keep_above x y (z ∷ ys) l h = ground (arith, contains-keep_above x y ys)

-- An ascending list within another one is no longer.
Above-length :
    (b : ℕ) (xs ys : List ℕ)
    → Above b xs
    → All (λ x. contains ys x ≡ true) xs
    → length xs ≤ length ys
Above-length b [] ys a h = omega arith
Above-length b (x ∷ xs) ys a h =
    let ih = Above-length (suc x) xs (keep (ltb x) ys) a.1 (still x xs a.1 h.1) in
    let smaller = length-keep-lt x ys h.0 in omega arith
  where
    still :
        (x : ℕ) (xs : List ℕ)
        → Above (suc x) xs
        → All (λ y. contains ys y ≡ true) xs
        → All (λ y. contains (keep (ltb x) ys) y ≡ true) xs
    still x [] a h = tt
    still x (y ∷ xs) a h = (
      contains-keep_above x y ys (omega arith) h.0,
      still x xs (Above-mono (suc x) (suc y) xs (omega arith) a.1) h.1,
    )

pub own_key_update :
    (d e : ByOpen)
    → IsKeyed d
    → All (λ (entry : ℕ × Candle). entry.0 ≡ entry.1.open_time) e
    → IsKeyed (update d e)
unfolding update
own_key_update d [] v h = v
own_key_update d ((k, c) ∷ e) v h =
    own_key_update (insert k c d) e
      (subst (λ t. IsKeyed (insert t c d)) (sym h.0) (IsKeyed-insert c d v)) h.1

nothing-IsKeyed : IsKeyed []
nothing-IsKeyed = record { distinct = tt; own_key = tt }

pub merge-IsKeyed :
    (normalized persisted : List Candle) (test : Candle → Bool) (current : Option Candle)
    → IsKeyed (merge normalized persisted test current)
unfolding merge
merge-IsKeyed normalized persisted test current =
    go current _ (IsKeyed-update persisted _ (IsKeyed-update normalized [] nothing-IsKeyed))
  where
    go : (o : Option Candle) (d : ByOpen) → IsKeyed d → IsKeyed (add_current test o d)
    go none d v = v
    go (some c) d v = elim (Bool-cases (test c)) [
      | inl e ↦ rw e (IsKeyed-set_default c d v)
      | inr e ↦ rw e v
    ]

opens_of_values :
    (r : List ℕ) (d : ByOpen)
    → All (λ (entry : ℕ × Candle). entry.0 ≡ entry.1.open_time) d
    → All (λ (entry : ℕ × Candle). contains r entry.0 ≡ true) d
    → All (λ (candle : Candle). contains r candle.open_time ≡ true) (values d)
opens_of_values r [] own h = tt
opens_of_values r ((k, c) ∷ d) own h =
    (subst (λ t. contains r t ≡ true) own.0 h.0, opens_of_values r d own.1 h.1)

All-open_times :
    (r : List ℕ) (l : List Candle)
    → All (λ (candle : Candle). contains r candle.open_time ≡ true) l
    → All (λ x. contains r x ≡ true) (open_times l)
All-open_times r [] h = tt
All-open_times r (c ∷ l) h = (h.0, All-open_times r l h.1)

-- The candles of a response ascend strictly, and open at the opens that are to be shown.
record IsOrdered (opens : List ℕ) (candles : List Candle) : Type 0 where
  ascending : Above 0 (open_times candles)
  among : All (λ x. contains opens x ≡ true) (open_times candles)

shown-IsOrdered :
    {S : Type 0} (repo : Repository S) (provider : CandleProvider) (r : List ℕ) (merged : ByOpen)
    → IsKeyed merged
    → IsOrdered r (shown repo provider r merged)
shown-IsOrdered repo provider r merged v =
    let kept = keep (λ (entry : ℕ × Candle). contains r entry.0) merged in
    let keyed = IsKeyed-keep (λ entry. contains r entry.0) merged v in
    let inside = All-keep_test (λ (entry : ℕ × Candle). contains r entry.0) merged in
    record {
      ascending = sort-Above (values kept) (values-HasDistinctOpens kept keyed);
      among = All-open_times r (sort_by_open_time (values kept)) (
          sort-All (λ candle. contains r candle.open_time ≡ true) (values kept)
            (opens_of_values r kept keyed.own_key inside));
    }

-- The merged candles are keyed, and no more opens are shown than were expected.
record IsAnswer (expected : List ℕ) (answer : ByOpen × List ℕ) : Type 0 where
  keyed : IsKeyed answer.0
  bounded : length answer.1 ≤ length expected

shown_opens :
    (b : Bool) (x : ℕ) (opens expected : List ℕ)
    → 1 ≤ length expected
    → length opens ≤ length expected
    → length (if b then x ∷ [] else opens) ≤ length expected
shown_opens true x opens expected n l = omega arith
shown_opens false x opens expected n l = l

module _ {S : Type 0} (repo : Repository S) (provider : CandleProvider) where
  fall_back-IsAnswer :
      (c : Context) (fallback_open : ℕ) (current : Option Candle) (merged : ByOpen)
      (opens expected : List ℕ)
      → IsKeyed merged
      → length opens ≤ length expected
      → 1 ≤ length expected
      → Returns (IsAnswer expected) (fall_back repo provider c fallback_open current merged opens)
  unfolding fall_back
  fall_back-IsAnswer c fallback_open current merged opens expected v l n =
      Returns-after (lift (end_after c.schedule fallback_open)) _ (λ fallback_end.
        Returns-after (read_persisted repo provider c fallback_open fallback_end) _ (λ persisted.
          Returns-after (fill repo provider c (fallback_open ∷ []) persisted current) _
            (λ normalized. Returns-pure _ (record {
              keyed =
                  own_key_update merged _ v
                    (merge-IsKeyed normalized persisted
                      (λ x. x.open_time == fallback_open && eligible c x) current).own_key;
              bounded = shown_opens (has_key fallback_open _) _ _ _ n l;
            }))))

  fall_back_to-IsAnswer :
      (c : Context) (fallback_open : Option ℕ) (current : Option Candle) (merged : ByOpen)
      (expected : List ℕ)
      → IsKeyed merged
      → 1 ≤ length expected
      → Returns
          (IsAnswer expected)
          (fall_back_to repo provider c fallback_open current merged expected)
  fall_back_to-IsAnswer c none current merged expected v n =
      Returns-pure _ (record { keyed = v; bounded = omega arith })
  fall_back_to-IsAnswer c (some t) current merged expected v n =
      fall_back-IsAnswer c t current merged expected expected v (omega arith) n

  some_expected :
      (merged : ByOpen) (one not_forward : Bool) (expected : List ℕ)
      → (one && (not_forward && missing_last repo provider (last expected) merged)) ≡ true
      → 1 ≤ length expected
  some_expected merged one not_forward [] h = ground arith
  some_expected merged one not_forward (x ∷ xs) h = omega arith

  respond-IsAnswer :
      (c : Context) (p : Plan) (current : Option Candle) (merged : ByOpen)
      → IsKeyed merged
      → Returns (IsAnswer p.expected) (respond repo provider c p current merged)
  unfolding respond
  respond-IsAnswer c p current merged v = go _ refl
    where
      go :
          (b : Bool)
          → (is_one repo provider c.request.limit
              && (not (is_forward c.request.count_direction)
                  && missing_last repo provider (last p.expected) merged))
            ≡ b
          → Returns
              (IsAnswer p.expected)
              (if b then latest_or repo provider c p current merged else pure (merged, p.expected))
      go true e =
          Returns-after
            (lift (latest_opens c.schedule (head_or p.expected 0) 1 c.policy c.request.timeframe)) _
            (λ opens.
              fall_back_to-IsAnswer c (last opens) current merged p.expected v
                (some_expected merged _ _ p.expected e))
      go false e = Returns-pure _ (record { keyed = v; bounded = omega arith })

  -- What a request answers with.
  record IsWithin (max_candles : ℕ) (result : CandleResult) : Type 0 where
    ascending : Above 0 (open_times result.candles)
    bounded : length result.candles ≤ max_candles

  within :
      (max_candles : ℕ) (expected : List ℕ) (answer : ByOpen × List ℕ)
      → IsAnswer expected answer
      → length expected ≤ max_candles
      → length (shown repo provider answer.1 answer.0) ≤ max_candles
  within max_candles expected (merged, opens) a l =
      let o = shown-IsOrdered repo provider opens merged a.keyed in
      let n =
        Above-length 0 (open_times (shown repo provider opens merged)) opens o.ascending o.among in
      let m =
        length-map (λ (candle : Candle). candle.open_time) (shown repo provider opens merged) in
      let b = a.bounded in omega arith

  get_planned-IsWithin :
      (max_candles ttl : ℕ) (c : Context) (p : Plan)
      → Returns (IsWithin max_candles) (get_planned repo provider max_candles ttl c p)
  unfolding get_planned
  get_planned-IsWithin max_candles ttl c p =
      Returns-bind (λ _. length p.expected ≤ max_candles) check _ few
        (λ _ l.
          Returns-after (read_persisted repo provider c p.result_start p.result_end) _ (λ persisted.
            Returns-after (cache_get ttl c.request.symbol c.request.timeframe c.symbol c.now) _
              (λ current.
                Returns-after (fill repo provider c p.expected persisted current) _ (λ normalized.
                  Returns-bind (IsAnswer p.expected)
                    (respond repo provider c p current
                      (merge normalized persisted (in_range c p.result_start p.result_end) current))
                    _
                    (respond-IsAnswer c p current _ (
                      merge-IsKeyed normalized persisted (in_range c p.result_start p.result_end)
                        current))
                    (λ response a. Returns-pure _ (record {
                      ascending =
                          (shown-IsOrdered repo provider response.1 response.0 a.keyed).ascending;
                      bounded = within max_candles p.expected response a l;
                    }))))))
    where
      check : Exec S (Unit {0})
      check =
          if ltb max_candles (length p.expected)
          then raise (candle_request "INVALID_TIME_RANGE")
          else pure tt

      few : Returns (λ _. length p.expected ≤ max_candles) check
      few = record { at = λ w u h. ground arith }

  -- What a request for candles answers, if it returns: candles that ascend strictly by open time, and no
  -- more of them than the configured maximum.
  pub get_by_plan_answer :
      (max_candles ttl : ℕ) (c : Context) (w : World S) (result : CandleResult)
      → (get_by_plan repo provider max_candles ttl c w).0 ≡ ok result
      → Above 0 (open_times result.candles) × (length result.candles ≤ max_candles)
  unfolding get_by_plan
  get_by_plan_answer max_candles ttl c w result h =
      let r = (go (plan c.request c.schedule c.policy)).at w result h in (r.ascending, r.bounded)
    where
      go :
          (p : Result Plan)
          → Returns (IsWithin max_candles) (lift p >>= get_planned repo provider max_candles ttl c)
      go p = Returns-after (lift p) _ (get_planned-IsWithin max_candles ttl c)
