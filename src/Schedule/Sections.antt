-- ===== src/Schedule/Sections.antt =====
-- `missing_sections` of domain/candle_schedules.py: the opens that are not available, grouped into
-- runs of consecutive slots. `advance` is the slot after an open, which each schedule has.
pub mod Covers
use signapse_mdg.Base.{
  ℕ, ◌+◌, Bool, true, false, not, List, [], ◌∷◌, Result, ok, ◌>>=◌, keep, contains, ◌==◌, nat_eq,
}

pub record ProviderFetchSection : Type 0 where
  pub start : ℕ
  pub end : ℕ
  pub expected_count : ℕ

module _ (advance : ℕ → Result ℕ) where
  -- The loop over `missing[1:]`, with the variables `section_start`, `previous` and `count`.
  unfoldable pub sections_loop : ℕ → ℕ → ℕ → List ℕ → Result (List ProviderFetchSection)
  sections_loop section_start previous count [] = do
    end ← advance previous
    ok (record { start = section_start; end = end; expected_count = count } ∷ [])
  sections_loop section_start previous count (value ∷ rest) = do
    end ← advance previous
    elim (value == end) [
      | true ↦ sections_loop section_start value (count + 1) rest
      | false ↦ (do
        sections ← sections_loop value value 1 rest
        ok (record { start = section_start; end = end; expected_count = count } ∷ sections))
    ]

  unfoldable pub group_sections : List ℕ → Result (List ProviderFetchSection)
  group_sections [] = ok []
  group_sections (value ∷ rest) = sections_loop value value 1 rest

-- `[value for value in expected_opens if value not in available_opens]`
abbrev pub missing : List ℕ → List ℕ → List ℕ
missing expected_opens available_opens =
    keep (λ value. not (contains available_opens value)) expected_opens

unfoldable pub missing_sections :
    (ℕ → Result ℕ) → List ℕ → List ℕ → Result (List ProviderFetchSection)
unfolding group_sections
missing_sections advance expected_opens available_opens =
    group_sections advance (missing expected_opens available_opens)
