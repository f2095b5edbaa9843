-- ===== src/Selection/Laws.antt =====
-- Which mapping is selected, and when selection fails.
use mathlib.Core.List.{Mem, mem-cons_self, mem-cons_of_mem}
use signapse_mdg.Base.{
  ◌≡◌, ◌≢◌, ◌⊎◌, inl, inr, refl, Bool, true, false, Option, none, some, List, [], ◌∷◌, String,
  string_eq, ◌==◌, eq_iff, arith, ok, err, provider_selection, keep, first, length, Bool-cases, any,
  subst,
}
use signapse_mdg.Symbols.{
  ProviderMapping, ProviderSelection, SupportedSymbol, mappings, with_mapping,
}
use signapse_mdg.Selection.{only_default, mode_of, resolve_provider_selection}

abbrev pub defaults : SupportedSymbol → List ProviderMapping
defaults symbol = keep (λ m. m.is_default) (mappings symbol)

not_only_default :
    (ms : List ProviderMapping)
    → length ms ≢ 1
    → only_default ms ≡ err (provider_selection "DATABASE_UNAVAILABLE")
not_only_default [] h = refl
not_only_default (m ∷ []) h = absurd (h refl)
not_only_default (m ∷ n ∷ more) h = refl

one_default : (ms : List ProviderMapping) → length ms ≡ 1 → (m : ProviderMapping) × (ms ≡ m ∷ [])
one_default [] h = absurd (omega arith)
one_default (m ∷ []) h = (m, refl)
one_default (m ∷ n ∷ more) h = absurd (omega arith)

Mem-first :
    (test : ProviderMapping → Bool) (ms : List ProviderMapping) (m : ProviderMapping)
    → first test ms ≡ some m
    → Mem m ms × (test m ≡ true)
Mem-first test [] m h = cc
Mem-first test (n ∷ ms) m h = elim (Bool-cases (test n)) [
  | inl e ↦
      let same : n ≡ m = ground arith in
      (subst (λ x. Mem x (n ∷ ms)) same mem-cons_self, subst (λ x. test x ≡ true) same e)
  | inr e ↦
      let (later, passes) = Mem-first test ms m (rw e at h) in (mem-cons_of_mem n later, passes)
]

Mem-keep :
    (test : ProviderMapping → Bool) (ms rest : List ProviderMapping) (m : ProviderMapping)
    → keep test ms ≡ m ∷ rest
    → Mem m ms × (test m ≡ true)
Mem-keep test [] rest m h = cc
Mem-keep test (n ∷ ms) rest m h = elim (Bool-cases (test n)) [
  | inl e ↦
      let same : n ≡ m = ground arith in
      (subst (λ x. Mem x (n ∷ ms)) same mem-cons_self, subst (λ x. test x ≡ true) same e)
  | inr e ↦
      let (later, passes) = Mem-keep test ms rest m (rw e at h) in (mem-cons_of_mem n later, passes)
]

first-any :
    (test : ProviderMapping → Bool) (ms : List ProviderMapping)
    → (any test ms ≡ true × ((m : ProviderMapping) × (first test ms ≡ some m)))
      ⊎ (any test ms ≡ false × (first test ms ≡ none))
first-any test [] = inr (refl, refl)
first-any test (n ∷ ms) = elim (Bool-cases (test n)) [
  | inl e ↦ inl (rw e, (n, rw e))
  | inr e ↦ rw e (first-any test ms)
]

-- What a request for a provider, or for none, selects.
abbrev pub Meant : Option String → ProviderMapping → Type 0
Meant none m = m.is_default ≡ true
Meant (some provider) m = m.provider ≡ provider

-- The symbol and the record of the selection, for the mapping that was selected.
abbrev pub Selected :
    SupportedSymbol → Option String → ProviderMapping → SupportedSymbol × ProviderSelection
Selected symbol provider m = (
  with_mapping symbol m,
  record {
    symbol = symbol.symbol;
    provider = m.provider;
    provider_symbol = m.provider_symbol;
    mode = mode_of provider;
  },
)

-- A registry entry with no default mapping, or with several, is answered DATABASE_UNAVAILABLE.
pub selection_needs_one_default :
    (symbol : SupportedSymbol) (provider : Option String)
    → length (defaults symbol) ≢ 1
    → resolve_provider_selection symbol provider ≡ err (provider_selection "DATABASE_UNAVAILABLE")
unfolding resolve_provider_selection
selection_needs_one_default symbol provider h = rw (not_only_default (defaults symbol) h)

-- With exactly one default mapping, the default request and each request for a provider that some
-- mapping has are answered with a mapping of the symbol that is meant; a request for another
-- provider is answered UNSUPPORTED_PROVIDER.
pub selection_lem :
    (symbol : SupportedSymbol) (provider : Option String)
    → length (defaults symbol) ≡ 1
    → ((m : ProviderMapping) × Mem m (mappings symbol)
        × Meant provider m
        × (resolve_provider_selection symbol provider ≡ ok (Selected symbol provider m)))
      ⊎ ((p : String) × (provider ≡ some p)
          × (any (λ m. m.provider == p) (mappings symbol) ≡ false)
          × (resolve_provider_selection symbol provider
              ≡ err (provider_selection "UNSUPPORTED_PROVIDER")))
unfolding resolve_provider_selection
selection_lem symbol none h =
    let (m, e) = one_default (defaults symbol) h in
    let (inside, is_default) = Mem-keep (λ m. m.is_default) (mappings symbol) [] m e in
    inl (m, inside, is_default, rw e)
selection_lem symbol (some p) h =
    let (d, e) = one_default (defaults symbol) h in
    elim (first-any (λ m. m.provider == p) (mappings symbol)) [
      | inl (_, (m, found)) ↦
          let (inside, same) = Mem-first (λ m. m.provider == p) (mappings symbol) m found in
          inl (m, inside, (eq_iff m.provider p).0 same, rw (e, found))
      | inr (none_has, missing) ↦ inr (p, refl, none_has, rw (e, missing))
    ]
