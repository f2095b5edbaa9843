-- ===== src/Quotes/Service/Parsing.antt =====
-- What the symbols of a quote request satisfy once they are parsed.
use signapse_mdg.Base.{
  ℕ, ◌≤◌, ◌≡◌, inl, inr, Option, none, some, List, [], map, String, string_eq, string_lawful,
  nat_eq, ◌==◌, arith, ok, err_not_ok, ok-injective, subst, length, leb, keep, Bool-cases,
}
use signapse_mdg.Base.Text.{strip, split_commas, dedupe, HasDistinct, dedupe-HasDistinct}
use signapse_mdg.Quotes.Service.{check_symbols, parse_symbols, non_empty}

check_symbols_lem :
    (max_symbols : ℕ) (found symbols : List String)
    → HasDistinct found
    → check_symbols max_symbols found ≡ ok symbols
    → HasDistinct symbols × (1 ≤ length symbols) × (length symbols ≤ max_symbols)
check_symbols_lem max_symbols found symbols d h = elim (Bool-cases (length found == 0)) [
  | inl e ↦ absurd (err_not_ok (rw e at h))
  | inr e ↦ elim (Bool-cases (leb (length found) max_symbols)) [
    | inl l ↦
        subst (λ s. HasDistinct s × (1 ≤ length s) × (length s ≤ max_symbols))
          (ok-injective (rw (e, l) at h)) (d, ground (arith, e), ground (arith, l))
    | inr l ↦ absurd (err_not_ok (rw (e, l) at h))
  ]
]

-- The symbols of a request that is accepted are distinct, at least one, and no more than the maximum.
pub parse_symbols_lem :
    (raw : Option String) (max_symbols : ℕ) (symbols : List String)
    → parse_symbols raw max_symbols ≡ ok symbols
    → HasDistinct symbols × (1 ≤ length symbols) × (length symbols ≤ max_symbols)
unfolding parse_symbols
parse_symbols_lem none max_symbols symbols h = absurd (err_not_ok h)
parse_symbols_lem (some raw) max_symbols symbols h =
    check_symbols_lem max_symbols (dedupe [] (keep non_empty (map strip (split_commas raw))))
      symbols (dedupe-HasDistinct [] (keep non_empty (map strip (split_commas raw)))) h
