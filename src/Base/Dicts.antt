-- ===== src/Base/Dicts.antt =====
-- Python's `dict` in insertion order: the first entry whose key tests equal is the one meant.
use mathlib.Core.Path.{◌≡◌, refl}
use mathlib.Core.Bool.{Bool, false, ◌||◌}
use mathlib.Core.Option.{Option, none, some}
use mathlib.Core.List.{List, [], ◌∷◌, map}
use native.Mathlib.Omega.{arith}
use signapse_mdg.Base.Tests.{if◌then◌else◌}
use signapse_mdg.Base.Equality.{Eq, LawfulEq, ◌==◌}

abbrev pub Dict {ℓ} : Type ℓ → Type ℓ → Type ℓ
Dict K V = List (K × V)

module _ {ℓ} {K V : Type ℓ} ⦃e : Eq K⦄ where
  -- `d.get(k)`
  unfoldable pub lookup : K → Dict K V → Option V
  lookup k [] = none
  lookup k ((j, v) ∷ d) = if j == k then some v else lookup k d

  -- `k in d`
  unfoldable pub has_key : K → Dict K V → Bool
  has_key k [] = false
  has_key k ((j, v) ∷ d) = j == k || has_key k d

  -- `d[k] = v`: a key that is there keeps its place.
  unfoldable pub insert : K → V → Dict K V → Dict K V
  insert k v [] = (k, v) ∷ []
  insert k v ((j, w) ∷ d) = if j == k then (j, v) ∷ d else (j, w) ∷ insert k v d

  -- `d.pop(k, None)`
  unfoldable pub remove : K → Dict K V → Dict K V
  remove k [] = []
  remove k ((j, v) ∷ d) = let rest = remove k d in if j == k then d else (j, v) ∷ rest

  -- `d.update(other)`, for `other` in its order
  unfoldable pub update : Dict K V → Dict K V → Dict K V
  unfolding insert
  update d [] = d
  update d ((k, v) ∷ more) = update (insert k v d) more

  -- `d.setdefault(k, v)`
  unfoldable pub set_default : K → V → Dict K V → Dict K V
  unfolding has_key insert
  set_default k v d = if has_key k d then d else insert k v d

abbrev pub keys {ℓ} : {K V : Type ℓ} → Dict K V → List K
keys d = map (λ entry. entry.0) d

abbrev pub values {ℓ} : {K V : Type ℓ} → Dict K V → List V
values d = map (λ entry. entry.1) d

-- No key stands twice.
abbrev pub Fresh {ℓ} : {K V : Type ℓ} ⦃e : Eq K⦄ → K → Dict K V → Type 0
Fresh k [] = Unit
Fresh k ((j, v) ∷ d) = ((j == k) ≡ false) × Fresh k d

abbrev pub HasDistinctKeys {ℓ} : {K V : Type ℓ} ⦃e : Eq K⦄ → Dict K V → Type 0
HasDistinctKeys [] = Unit
HasDistinctKeys ((j, v) ∷ d) = Fresh j d × HasDistinctKeys d

module _ {ℓ} {K V : Type ℓ} ⦃e : Eq K⦄ ⦃l : LawfulEq K e⦄ where
  pub lookup-insert :
      (k j : K) (v : V) (d : Dict K V)
      → lookup j (insert k v d) ≡ (if k == j then some v else lookup j d)
  unfolding lookup insert
  lookup-insert k j v [] = refl
  lookup-insert k j v ((i, w) ∷ d) =
      ground (arith, l.beq_iff k j, l.beq_iff i k, l.beq_iff i j, lookup-insert k j v d)

  pub has_key-insert :
      (k j : K) (v : V) (d : Dict K V) → has_key j (insert k v d) ≡ (k == j || has_key j d)
  unfolding has_key insert
  has_key-insert k j v [] = refl
  has_key-insert k j v ((i, w) ∷ d) =
      ground (arith, l.beq_iff k j, l.beq_iff i k, l.beq_iff i j, has_key-insert k j v d)

  Fresh-insert :
      (k j : K) (v : V) (d : Dict K V) → (k == j) ≡ false → Fresh j d → Fresh j (insert k v d)
  unfolding insert
  Fresh-insert k j v [] h f = (h, tt)
  Fresh-insert k j v ((i, w) ∷ d) h f = ground (arith, Fresh-insert k j v d h f.1)

  pub HasDistinctKeys-insert :
      (k : K) (v : V) (d : Dict K V) → HasDistinctKeys d → HasDistinctKeys (insert k v d)
  unfolding insert
  HasDistinctKeys-insert k v [] h = (tt, tt)
  HasDistinctKeys-insert k v ((i, w) ∷ d) h =
      ground (
        arith,
        l.beq_iff i k,
        l.beq_iff k i,
        Fresh-insert k i v d,
        HasDistinctKeys-insert k v d h.1,
      )

  pub HasDistinctKeys-update :
      (d more : Dict K V) → HasDistinctKeys d → HasDistinctKeys (update d more)
  unfolding update
  HasDistinctKeys-update d [] h = h
  HasDistinctKeys-update d ((k, v) ∷ more) h =
      HasDistinctKeys-update (insert k v d) more (HasDistinctKeys-insert k v d h)

  pub Fresh-lookup : (k : K) (d : Dict K V) → Fresh k d → lookup k d ≡ none
  unfolding lookup
  Fresh-lookup k [] h = refl
  Fresh-lookup k ((j, v) ∷ d) h = ground (arith, Fresh-lookup k d h.1)

  Fresh-remove : (k j : K) (d : Dict K V) → Fresh j d → Fresh j (remove k d)
  unfolding remove
  Fresh-remove k j [] h = tt
  Fresh-remove k j ((i, v) ∷ d) h = ground (arith, Fresh-remove k j d h.1)

  pub HasDistinctKeys-remove :
      (k : K) (d : Dict K V) → HasDistinctKeys d → HasDistinctKeys (remove k d)
  unfolding remove
  HasDistinctKeys-remove k [] h = tt
  HasDistinctKeys-remove k ((i, v) ∷ d) h =
      ground (arith, Fresh-remove k i d, HasDistinctKeys-remove k d h.1)

  pub lookup-remove :
      (k j : K) (d : Dict K V)
      → HasDistinctKeys d
      → lookup j (remove k d) ≡ (if k == j then none else lookup j d)
  unfolding lookup remove
  lookup-remove k j [] h = ground arith
  lookup-remove k j ((i, v) ∷ d) h = ground (
    arith,
    l.beq_iff k j,
    l.beq_iff i k,
    l.beq_iff i j,
    Fresh-lookup j d,
    lookup-remove k j d h.1,
  )

  pub has_key-lookup : (k : K) (d : Dict K V) → has_key k d ≡ false → lookup k d ≡ none
  unfolding lookup has_key
  has_key-lookup k [] h = refl
  has_key-lookup k ((j, v) ∷ d) h = ground (arith, has_key-lookup k d)
