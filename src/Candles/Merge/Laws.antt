-- ===== src/Candles/Merge/Laws.antt =====
-- The laws of candles keyed by their open time, and of their order.
use signapse_mdg.Base.{
  ℕ, suc, ◌≤◌, ◌≡◌, ◌||◌, refl, inl, inr, Bool, false, Option, none, some, List, [], ◌∷◌, map,
  insert, update, has_key, set_default, lookup, nat_eq, nat_lawful, nat_beq, leb, arith, All,
  HasDistinctKeys, HasDistinctKeys-insert, Fresh, values, keep, Above, contains, Bool-cases,
  lookup-insert, All-keep, subst,
}
use signapse_mdg.Candles.{Candle}
use signapse_mdg.Candles.Merge.{ByOpen, entries, by_open_time, place, sort_by_open_time}

-- The value of the first table, else of the second.
abbrev pub or_else : Option Candle → Option Candle → Option Candle
or_else none otherwise = otherwise
or_else (some candle) otherwise = some candle

-- An update by candles takes the later table's value where it has one.
pub lookup-update :
    (t : ℕ) (d : ByOpen) (candles : List Candle)
    → lookup t (update d (entries candles)) ≡ or_else (lookup t (by_open_time candles)) (lookup t d)
unfolding update lookup
lookup-update t d [] = refl
lookup-update t d (c ∷ cs) = ground (
  arith,
  lookup-update t (insert c.open_time c d) cs,
  lookup-update t (insert c.open_time c []) cs,
  lookup-insert c.open_time t c d,
  lookup-insert c.open_time t c [],
)

-- Each entry stands under its candle's open time, and no two under one.
pub record IsKeyed (d : ByOpen) : Type 0 where
  pub distinct : HasDistinctKeys d
  pub own_key : All (λ entry. entry.0 ≡ entry.1.open_time) d

own_key-insert :
    (c : Candle) (d : ByOpen)
    → All (λ (entry : ℕ × Candle). entry.0 ≡ entry.1.open_time) d
    → All (λ (entry : ℕ × Candle). entry.0 ≡ entry.1.open_time) (insert c.open_time c d)
unfolding insert
own_key-insert c [] h = (refl, tt)
own_key-insert c ((k, x) ∷ d) h = ground (arith, own_key-insert c d h.1)

pub IsKeyed-insert : (c : Candle) (d : ByOpen) → IsKeyed d → IsKeyed (insert c.open_time c d)
IsKeyed-insert c d v = record {
  distinct = HasDistinctKeys-insert c.open_time c d v.distinct;
  own_key = own_key-insert c d v.own_key;
}

pub IsKeyed-update :
    (candles : List Candle) (d : ByOpen) → IsKeyed d → IsKeyed (update d (entries candles))
unfolding update
IsKeyed-update [] d v = v
IsKeyed-update (c ∷ cs) d v = IsKeyed-update cs (insert c.open_time c d) (IsKeyed-insert c d v)

pub IsKeyed-set_default :
    (c : Candle) (d : ByOpen) → IsKeyed d → IsKeyed (set_default c.open_time c d)
unfolding set_default
IsKeyed-set_default c d v = elim (Bool-cases (has_key c.open_time d)) [
  | inl e ↦ rw e v
  | inr e ↦ rw e (IsKeyed-insert c d v)
]

abbrev pub opens_of : List Candle → List ℕ
opens_of = map (λ candle. candle.open_time)

-- A candle put in its place keeps the order, if its open time is new.
place-Above :
    (b : ℕ) (c : Candle) (l : List Candle)
    → b ≤ c.open_time
    → contains (opens_of l) c.open_time ≡ false
    → Above b (opens_of l)
    → Above b (opens_of (place c l))
unfolding place
place-Above b c [] low new up = (low, tt)
place-Above b c (d ∷ ds) low new up = elim (Bool-cases (leb c.open_time d.open_time)) [
  | inl e ↦ rw e (low, (ground arith, up.1))
  | inr e ↦ rw e (up.0, place-Above (suc d.open_time) c ds (ground arith) (ground arith) up.1)
]

contains-place :
    (t : ℕ) (c : Candle) (l : List Candle)
    → contains (opens_of (place c l)) t ≡ (nat_beq c.open_time t || contains (opens_of l) t)
unfolding place
contains-place t c [] = refl
contains-place t c (d ∷ ds) = ground (arith, contains-place t c ds)

contains-sort :
    (t : ℕ) (l : List Candle)
    → contains (opens_of (sort_by_open_time l)) t ≡ contains (opens_of l) t
unfolding sort_by_open_time
contains-sort t [] = refl
contains-sort t (c ∷ cs) = rw (contains-place t c (sort_by_open_time cs), contains-sort t cs)

place-All {κ} :
    (P : Candle → Type κ) (c : Candle) (l : List Candle) → P c → All P l → All P (place c l)
unfolding place
place-All P c [] p h = (p, tt)
place-All P c (d ∷ ds) p h = elim (Bool-cases (leb c.open_time d.open_time)) [
  | inl e ↦ rw e (p, h)
  | inr e ↦ rw e (h.0, place-All P c ds p h.1)
]

-- Sorting keeps what holds of every candle.
pub sort-All {κ} : (P : Candle → Type κ) (l : List Candle) → All P l → All P (sort_by_open_time l)
unfolding sort_by_open_time
sort-All P [] h = tt
sort-All P (c ∷ cs) h = place-All P c (sort_by_open_time cs) h.0 (sort-All P cs h.1)

-- No two candles open at the same time.
abbrev pub HasDistinctOpens : List Candle → Type 0
HasDistinctOpens [] = Unit
HasDistinctOpens (c ∷ cs) = (contains (opens_of cs) c.open_time ≡ false) × HasDistinctOpens cs

-- Sorted candles with distinct open times ascend strictly.
pub sort-Above : (l : List Candle) → HasDistinctOpens l → Above 0 (opens_of (sort_by_open_time l))
unfolding sort_by_open_time
sort-Above [] h = tt
sort-Above (c ∷ cs) h =
    place-Above 0 c (sort_by_open_time cs) (omega arith) (rw (contains-sort c.open_time cs) h.0)
      (sort-Above cs h.1)

distinct_tail :
    (k : ℕ) (d : ByOpen)
    → Fresh k d
    → All (λ (entry : ℕ × Candle). entry.0 ≡ entry.1.open_time) d
    → contains (opens_of (values d)) k ≡ false
distinct_tail k [] f h = refl
distinct_tail k ((j, c) ∷ d) f h = ground (arith, distinct_tail k d f.1 h.1)

pub values-HasDistinctOpens : (d : ByOpen) → IsKeyed d → HasDistinctOpens (values d)
values-HasDistinctOpens [] v = tt
values-HasDistinctOpens ((k, c) ∷ d) v =
    let tail = distinct_tail k d v.distinct.0 v.own_key.1 in
    (
      subst (λ t. contains (opens_of (values d)) t ≡ false) v.own_key.0 tail,
      values-HasDistinctOpens d (record { distinct = v.distinct.1; own_key = v.own_key.1 }),
    )

Fresh-keep : (test : ℕ × Candle → Bool) (k : ℕ) (d : ByOpen) → Fresh k d → Fresh k (keep test d)
Fresh-keep test k [] f = tt
Fresh-keep test k (entry ∷ d) f = elim (Bool-cases (test entry)) [
  | inl e ↦ rw e (f.0, Fresh-keep test k d f.1)
  | inr e ↦ rw e (Fresh-keep test k d f.1)
]

pub IsKeyed-keep : (test : ℕ × Candle → Bool) (d : ByOpen) → IsKeyed d → IsKeyed (keep test d)
IsKeyed-keep test d v = record { distinct = go d v.distinct; own_key = All-keep _ test d v.own_key }
  where
    go : (d : ByOpen) → HasDistinctKeys d → HasDistinctKeys (keep test d)
    go [] h = tt
    go (entry ∷ d) h = elim (Bool-cases (test entry)) [
      | inl e ↦ rw e (Fresh-keep test entry.0 d h.0, go d h.1)
      | inr e ↦ rw e (go d h.1)
    ]
