-- ===== src/CandleCache/Laws.antt =====
-- What the forming-candle cache holds and returns.
use signapse_mdg.Base.{
  ℕ, ◌≤◌, ◌<◌, ◌≡◌, ◌↔◌, refl, inl, inr, true, false, none, some, [], ◌∷◌, eq_iff, arith, LawfulEq,
  lookup, insert, remove, HasDistinctKeys, HasDistinctKeys-insert, HasDistinctKeys-remove,
  lookup-insert, Option-cases, Bool-cases, some_inj, ◌⊎◌, sym, ap, ◌∙◌, subst, ◌+◌, if◌then◌else◌,
}
use signapse_mdg.Candles.{Candle}
use signapse_mdg.CandleCache.{
  CacheKey, key_beq, cache_key_eq, Store, cache_key, expired, get_valid, put,
}

pub key_beq_iff : (a b : CacheKey) → (key_beq a b ≡ true) ↔ (a ≡ b)
key_beq_iff a b = ground (
  arith,
  eq_iff a.symbol b.symbol,
  eq_iff a.provider b.provider,
  eq_iff a.provider_symbol b.provider_symbol,
  eq_iff a.timeframe b.timeframe,
)

instance abbrev pub cache_key_lawful : LawfulEq CacheKey cache_key_eq
cache_key_lawful = record { beq_iff = key_beq_iff }

-- An entry holds a forming candle under its own key, stored before the candle closed.
pub record IsForming (key : CacheKey) (candle : Candle) (stored_at : ℕ) : Type 0 where
  pub own_key : key ≡ cache_key candle
  pub forming : candle.complete ≡ false
  pub stored_before_close : stored_at < candle.close_time

abbrev pub AllForming : Store → Type 0
AllForming [] = Unit
AllForming ((key, (candle, stored_at)) ∷ store) = IsForming key candle stored_at × AllForming store

pub record IsValid (store : Store) : Type 0 where
  pub distinct : HasDistinctKeys store
  pub all_forming : AllForming store

AllForming-insert :
    (key : CacheKey) (candle : Candle) (stored_at : ℕ) (store : Store)
    → IsForming key candle stored_at
    → AllForming store
    → AllForming (insert key (candle, stored_at) store)
unfolding insert
AllForming-insert key candle stored_at [] f h = (f, tt)
AllForming-insert key candle stored_at ((k, (c, s)) ∷ store) f h =
    elim (Bool-cases (key_beq k key)) [
      | inl e ↦ let same = (key_beq_iff k key).0 e in rw e (rw same f, h.1)
      | inr e ↦ rw e (h.0, AllForming-insert key candle stored_at store f h.1)
    ]

AllForming-remove :
    (key : CacheKey) (store : Store) → AllForming store → AllForming (remove key store)
unfolding remove
AllForming-remove key [] h = tt
AllForming-remove key ((k, (c, s)) ∷ store) h = elim (Bool-cases (key_beq k key)) [
  | inl e ↦ rw e h.1
  | inr e ↦ rw e (h.0, AllForming-remove key store h.1)
]

AllForming-lookup :
    (key : CacheKey) (store : Store) (candle : Candle) (stored_at : ℕ)
    → AllForming store
    → lookup key store ≡ some (candle, stored_at)
    → IsForming key candle stored_at
unfolding lookup
AllForming-lookup key [] candle stored_at h e = cc
AllForming-lookup key ((k, (c, s)) ∷ store) candle stored_at h e =
    elim (Bool-cases (key_beq k key)) [
      | inl q ↦
          let same = (key_beq_iff k key).0 q in
          let same_candle : c ≡ candle = ground arith in
          let same_time : s ≡ stored_at = ground arith in
          rw (← same, ← same_candle, ← same_time) h.0
      | inr q ↦ AllForming-lookup key store candle stored_at h.1 (rw q at e)
    ]

module _ (ttl : ℕ) (key : CacheKey) (now : ℕ) (store : Store) where
  get_valid_missing : lookup key store ≡ none → get_valid ttl key now store ≡ (none, store)
  unfolding get_valid
  get_valid_missing h = ground arith

  get_valid_old :
      (snapshot : Candle × ℕ)
      → lookup key store ≡ some snapshot
      → expired ttl now snapshot ≡ true
      → get_valid ttl key now store ≡ (none, remove key store)
  unfolding get_valid
  get_valid_old snapshot found old = ground arith

  get_valid_fresh :
      (snapshot : Candle × ℕ)
      → lookup key store ≡ some snapshot
      → expired ttl now snapshot ≡ false
      → get_valid ttl key now store ≡ (some snapshot.0, store)
  unfolding get_valid
  get_valid_fresh snapshot found fresh = ground arith

  -- A lookup leaves the store as it is, or drops the entry.
  pub get_valid_cases :
      (get_valid ttl key now store ≡ (none, store))
      ⊎ (get_valid ttl key now store ≡ (none, remove key store))
      ⊎ ((candle : Candle) × (stored_at : ℕ) × (lookup key store ≡ some (candle, stored_at))
          × (expired ttl now (candle, stored_at) ≡ false)
          × (get_valid ttl key now store ≡ (some candle, store)))
  get_valid_cases = elim (Option-cases (lookup key store)) [
    | inl missing ↦ inl (get_valid_missing missing)
    | inr ((c, s), found) ↦ elim (Bool-cases (expired ttl now (c, s))) [
      | inl old ↦ inr (inl (get_valid_old (c, s) found old))
      | inr fresh ↦ inr (inr (c, s, found, fresh, get_valid_fresh (c, s) found fresh))
    ]
  ]

remove-IsValid : (key : CacheKey) (store : Store) → IsValid store → IsValid (remove key store)
remove-IsValid key store v = record {
  distinct = HasDistinctKeys-remove key store v.distinct;
  all_forming = AllForming-remove key store v.all_forming;
}

-- A lookup keeps the store valid.
pub get_valid-IsValid :
    (ttl : ℕ) (key : CacheKey) (now : ℕ) (store : Store)
    → IsValid store
    → IsValid (get_valid ttl key now store).1
get_valid-IsValid ttl key now store v = elim (get_valid_cases ttl key now store) [
  | inl e ↦ rw e v
  | inr (inl e) ↦ rw e (remove-IsValid key store v)
  | inr (inr (c, s, found, fresh, e)) ↦ rw e v
]

put_cases :
    (candle : Candle) (stored_at : ℕ) (store : Store)
    → (put candle stored_at store ≡ store)
      ⊎ ((put candle stored_at store ≡ insert (cache_key candle) (candle, stored_at) store)
          × (candle.complete ≡ false)
          × (stored_at < candle.close_time))
unfolding put
put_cases candle stored_at store = ground arith

-- Storing a candle keeps the store valid.
pub put-IsValid :
    (candle : Candle) (stored_at : ℕ) (store : Store)
    → IsValid store
    → IsValid (put candle stored_at store)
put-IsValid candle stored_at store v = elim (put_cases candle stored_at store) [
  | inl e ↦ rw e v
  | inr (e, forming, early) ↦ rw e (record {
    distinct = HasDistinctKeys-insert (cache_key candle) (candle, stored_at) store v.distinct;
    all_forming =
        AllForming-insert (cache_key candle) candle stored_at store
          (record { own_key = refl; forming = forming; stored_before_close = early }) v.all_forming;
  })
]

abbrev pub IsServed : ℕ → CacheKey → ℕ → Store → Candle → Type 0
IsServed ttl key now store candle =
    (stored_at : ℕ) × (lookup key store ≡ some (candle, stored_at))
    × (candle.complete ≡ false)
    × (now < candle.close_time)
    × (now ≤ stored_at + ttl)

get_valid-IsServed :
    (ttl : ℕ) (key : CacheKey) (now : ℕ) (store : Store) (candle : Candle)
    → IsServed ttl key now store candle
    → (get_valid ttl key now store).0 ≡ some candle
get_valid-IsServed ttl key now store candle (stored_at, found, forming, early, young) =
    ap (λ r. r.0)
      (get_valid_fresh ttl key now store (candle, stored_at) found (ground (arith, forming)))

-- A lookup returns a candle if and only if the store, whatever it holds, has it under the key, not complete, and it
-- has neither closed nor outlived its time to live.
pub get_valid_iff :
    (ttl : ℕ) (key : CacheKey) (now : ℕ) (store : Store) (candle : Candle)
    → ((get_valid ttl key now store).0 ≡ some candle) ↔ IsServed ttl key now store candle
get_valid_iff ttl key now store candle = (
  λ h. elim (get_valid_cases ttl key now store) [
    | inl e ↦ cc (ap (λ r. r.0) e)
    | inr (inl e) ↦ cc (ap (λ r. r.0) e)
    | inr (inr (c, stored_at, found, fresh, e)) ↦
        let same : c ≡ candle = some_inj (sym (ap (λ r. r.0) e) ∙ h) in
        let found' = subst (λ x. lookup key store ≡ some (x, stored_at)) same found in
        let fresh' = subst (λ x. expired ttl now (x, stored_at) ≡ false) same fresh in
        (stored_at, found', ground (arith, fresh'), ground (arith, fresh'), ground (arith, fresh'))
  ],
  get_valid-IsServed ttl key now store candle,
)

put_forming :
    (candle : Candle) (stored_at : ℕ) (store : Store)
    → candle.complete ≡ false
    → stored_at < candle.close_time
    → put candle stored_at store ≡ insert (cache_key candle) (candle, stored_at) store
unfolding put
put_forming candle stored_at store forming before = ground arith

-- After a forming candle is stored, a lookup of its key before it closes and within the time to live
-- returns it; a lookup under another key is not affected.
pub get_valid-put :
    (ttl : ℕ) (candle : Candle) (stored_at now : ℕ) (key : CacheKey) (store : Store)
    → candle.complete ≡ false
    → stored_at < candle.close_time
    → now < candle.close_time
    → now ≤ stored_at + ttl
    → (get_valid ttl key now (put candle stored_at store)).0
      ≡ (if key_beq (cache_key candle) key then some candle else (get_valid ttl key now store).0)
unfolding get_valid
get_valid-put ttl candle stored_at now key store forming before not_closed fresh =
    let stored : put candle stored_at store ≡ insert (cache_key candle) (candle, stored_at) store =
      put_forming candle stored_at store forming before in
    rw stored (ground (arith, lookup-insert (cache_key candle) key (candle, stored_at) store))
