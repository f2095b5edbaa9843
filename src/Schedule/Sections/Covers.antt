-- ===== src/Schedule/Sections/Covers.antt =====
-- The sections cover the missing opens, each once and in order, in as few runs as there are.
use mathlib.Core.List.{append_assoc}
use signapse_mdg.Base.{
  ℕ, suc, ◌+◌, ◌≡◌, ◌≢◌, refl, inl, inr, List, [], ◌∷◌, ◌++◌, Result, ok, arith, length,
  length-append, All, nat_beq, nat_beq_iff, Bool-cases, >>=-eq-ok, subst, All-keep, ok-injective,
}
use signapse_mdg.Schedule.Sections.{
  ProviderFetchSection, sections_loop, group_sections, missing, missing_sections,
}

abbrev pub last_from : ℕ → List ℕ → ℕ
last_from x [] = x
last_from x (y ∷ l) = last_from y l

-- The next section does not begin where this one ends: the two are not one run.
abbrev pub Apart : ℕ → List ProviderFetchSection → Type 0
Apart end [] = Unit
Apart end (s ∷ sections) = s.start ≢ end

-- The sum of the counts.
abbrev pub total_count : List ProviderFetchSection → ℕ
total_count [] = 0
total_count (s ∷ sections) = s.expected_count + total_count sections

module _ (advance : ℕ → Result ℕ) where
  -- Each open is the slot after the one before it.
  abbrev pub Chain : ℕ → List ℕ → Type 0
  Chain x [] = Unit
  Chain x (y ∷ l) = (advance x ≡ ok y) × Chain y l

  -- A section stands for a run of opens from its start to before its end.
  abbrev pub Covers : List ProviderFetchSection → List ℕ → Type 0
  Covers [] opens = opens ≡ []
  Covers (s ∷ sections) opens =
      (run : List ℕ) × (rest : List ℕ) × (opens ≡ s.start ∷ run ++ rest)
      × Chain s.start run
      × (advance (last_from s.start run) ≡ ok s.end)
      × (suc (length run) ≡ s.expected_count)
      × Apart s.end sections
      × Covers sections rest

  Chain-append :
      (x y : ℕ) (l : List ℕ) → Chain x l → advance (last_from x l) ≡ ok y → Chain x (l ++ y ∷ [])
  Chain-append x y [] c e = (e, tt)
  Chain-append x y (z ∷ l) c e = (c.0, Chain-append z y l c.1 e)

  last_from-append : (x y : ℕ) (l : List ℕ) → last_from x (l ++ y ∷ []) ≡ y
  last_from-append x y [] = refl
  last_from-append x y (z ∷ l) = last_from-append z y l

  -- The first section found begins at `section_start`.
  Apart-loop :
      (start previous count end : ℕ) (rest : List ℕ) (sections : List ProviderFetchSection)
      → sections_loop advance start previous count rest ≡ ok sections
      → start ≢ end
      → Apart end sections
  unfolding sections_loop
  Apart-loop start previous count end [] sections h ne =
      let (e, at, h1) = >>=-eq-ok (advance previous) _ h in subst (Apart end) (ok-injective h1) ne
  Apart-loop start previous count end (value ∷ rest) sections h ne =
      let (e, at, h1) = >>=-eq-ok (advance previous) _ h in
      elim (Bool-cases (nat_beq value e)) [
        | inl q ↦ Apart-loop start value (count + 1) end rest sections (rw q at h1) ne
        | inr q ↦
            let (more, e2, h2) =
              >>=-eq-ok (sections_loop advance value value 1 rest) _ (rw q at h1) in
            subst (Apart end) (ok-injective h2) ne
      ]

  loop-Covers :
      (start previous count : ℕ) (run rest : List ℕ) (sections : List ProviderFetchSection)
      → Chain start run
      → last_from start run ≡ previous
      → suc (length run) ≡ count
      → sections_loop advance start previous count rest ≡ ok sections
      → Covers sections (start ∷ run ++ rest)
  unfolding sections_loop
  loop-Covers start previous count run [] sections chain at len h =
      let (end, closes, h1) = >>=-eq-ok (advance previous) _ h in
      subst (λ l. Covers l (start ∷ run ++ [])) (ok-injective h1)
        (run, [], refl, chain, rw at closes, len, tt, refl)
  loop-Covers start previous count run (value ∷ rest) sections chain at len h =
      let (end, closes, h1) = >>=-eq-ok (advance previous) _ h in
      elim (Bool-cases (nat_beq value end)) [
        | inl q ↦
            let same = (nat_beq_iff value end).0 q in
            let linked : advance (last_from start run) ≡ ok value = rw (at, same) closes in
            subst (λ l. Covers sections (start ∷ l)) (append_assoc run (value ∷ []) rest)
              (loop-Covers start value (count + 1) (run ++ value ∷ []) rest sections
                (Chain-append start value run chain linked) (last_from-append start value run)
                (omega (arith, length-append {0} run (value ∷ []))) (rw q at h1))
        | inr q ↦
            let (more, loop, h2) =
              >>=-eq-ok (sections_loop advance value value 1 rest) _ (rw q at h1) in
            let apart : value ≢ end = λ same. cc (q, (nat_beq_iff value end).1 same) in
            subst (λ l. Covers l (start ∷ run ++ value ∷ rest)) (ok-injective h2)
              (
                run,
                value ∷ rest,
                refl,
                chain,
                rw at closes,
                len,
                Apart-loop value value 1 end rest more loop apart,
                loop-Covers value value 1 [] rest more tt refl (omega arith) loop,
              )
      ]

  -- The sections of a successful call cover the missing opens: in order, each open once, and each
  -- section a run of consecutive slots that the next section does not continue.
  pub missing_sections_cover :
      (expected_opens available_opens : List ℕ) (sections : List ProviderFetchSection)
      → missing_sections advance expected_opens available_opens ≡ ok sections
      → Covers sections (missing expected_opens available_opens)
  unfolding missing_sections
  missing_sections_cover expected_opens available_opens sections h =
      go (missing expected_opens available_opens) h
    where
      go : (l : List ℕ) → group_sections advance l ≡ ok sections → Covers sections l
      go [] e = subst (λ x. Covers x []) (ok-injective e) refl
      go (value ∷ rest) e = loop-Covers value value 1 [] rest sections tt refl (omega arith) e

  Covers-total_count :
      (sections : List ProviderFetchSection) (opens : List ℕ)
      → Covers sections opens
      → total_count sections ≡ length opens
  Covers-total_count [] opens e = rw e
  Covers-total_count (s ∷ sections) opens (run, rest, split, chain, closes, len, apart, covers) =
      let ih = Covers-total_count sections rest covers in
      rw split (omega (arith, length-append {0} run rest))

  -- The expected counts of the sections of a successful call add up to the number of missing opens.
  pub missing_sections_count :
      (expected_opens available_opens : List ℕ) (sections : List ProviderFetchSection)
      → missing_sections advance expected_opens available_opens ≡ ok sections
      → total_count sections ≡ length (missing expected_opens available_opens)
  missing_sections_count expected_opens available_opens sections h =
      Covers-total_count sections (missing expected_opens available_opens)
        (missing_sections_cover expected_opens available_opens sections h)

  sections_loop_total :
      (start previous count : ℕ) (rest : List ℕ)
      → All (λ t. (u : ℕ) × (advance t ≡ ok u)) (previous ∷ rest)
      → (sections : List ProviderFetchSection) × (sections_loop advance start previous count rest
          ≡ ok sections)
  unfolding sections_loop
  sections_loop_total start previous count [] ((u, e), _) =
      (record { start = start; end = u; expected_count = count } ∷ [], rw e)
  sections_loop_total start previous count (value ∷ rest) ((u, e), more) =
      elim (Bool-cases (nat_beq value u)) [
        | inl q ↦
            let (sections, done) = sections_loop_total start value (count + 1) rest more in
            (sections, ground (arith, e, q, done))
        | inr q ↦
            let (sections, done) = sections_loop_total value value 1 rest more in
            (
              record { start = start; end = u; expected_count = count } ∷ sections,
              ground (arith, e, q, done),
            )
      ]

  -- If each expected open has a slot after it, the grouping succeeds.
  pub missing_sections_total :
      (expected_opens available_opens : List ℕ)
      → All (λ t. (u : ℕ) × (advance t ≡ ok u)) expected_opens
      → (sections : List ProviderFetchSection) × (missing_sections advance expected_opens
            available_opens
          ≡ ok sections)
  unfolding missing_sections
  missing_sections_total expected_opens available_opens h =
      go (missing expected_opens available_opens) (All-keep _ _ expected_opens h)
    where
      go :
          (l : List ℕ)
          → All (λ t. (u : ℕ) × (advance t ≡ ok u)) l
          → (sections : List ProviderFetchSection) × (group_sections advance l ≡ ok sections)
      go [] e = ([], refl)
      go (value ∷ rest) e = sections_loop_total value value 1 rest e
