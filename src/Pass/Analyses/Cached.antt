-- ===== src/Pass/Analyses/Cached.antt =====
-- What is kept makes no difference.
use mpi_comp_match.Base.{
  ℕ, ◌≡◌, ◌≢◌, ◌⊎◌, inl, inr, refl, List, [], ◌∷◌, map, All, ◌==◌, arith, Bool-cases, ==_iff, ap,
  ap₂,
}
use mpi_comp_match.Pass.Analyses.{
  Passes, RequiredAnalysisResults, required_analysis_results, Question, aa_results, loop_info, se,
  get_aa_results, get_loop_info, get_se, ask, ask_all,
}

module _ (passes : Passes) where
  abbrev pub asks_for : Question → ℕ
  asks_for (aa_results f) = f
  asks_for (loop_info f) = f
  asks_for (se f) = f

  -- The answer of LLVM itself.
  abbrev pub direct : Question → ℕ
  direct (aa_results f) = passes.get_aa_results f
  direct (loop_info f) = passes.get_loop_info f
  direct (se f) = passes.get_se f

  -- What is kept is the result for the function, where there is one.
  record IsCurrent (s : RequiredAnalysisResults) : Type 0 where
    of_aa :
        (s.current_aa_function ≡ 0) ⊎ (s.current_aa ≡ passes.get_aa_results s.current_aa_function)
    of_li :
        (s.current_li_function ≡ 0) ⊎ (s.current_li ≡ passes.get_loop_info s.current_li_function)
    of_se : (s.current_se_function ≡ 0) ⊎ (s.current_se ≡ passes.get_se s.current_se_function)

  ask_lem :
      (q : Question) (s : RequiredAnalysisResults)
      → asks_for q ≢ 0
      → IsCurrent s
      → ((ask passes q s).0 ≡ direct q) × IsCurrent (ask passes q s).1
  unfolding ask get_aa_results get_loop_info get_se
  ask_lem (aa_results f) s n h = elim (Bool-cases (s.current_aa_function == f)) [
    | inl e ↦ let is = (==_iff _ _).0 e in rw e (ground (arith, ap passes.get_aa_results is), h)
    | inr e ↦ rw e (refl, record { of_aa = inr refl; of_li = h.of_li; of_se = h.of_se })
  ]
  ask_lem (loop_info f) s n h = elim (Bool-cases (s.current_li_function == f)) [
    | inl e ↦ let is = (==_iff _ _).0 e in rw e (ground (arith, ap passes.get_loop_info is), h)
    | inr e ↦ rw e (refl, record { of_aa = h.of_aa; of_li = inr refl; of_se = h.of_se })
  ]
  ask_lem (se f) s n h = elim (Bool-cases (s.current_se_function == f)) [
    | inl e ↦ let is = (==_iff _ _).0 e in rw e (ground (arith, ap passes.get_se is), h)
    | inr e ↦ rw e (refl, record { of_aa = h.of_aa; of_li = h.of_li; of_se = inr refl })
  ]

  ask_all-direct :
      (questions : List Question) (s : RequiredAnalysisResults)
      → All (λ q. asks_for q ≢ 0) questions
      → IsCurrent s
      → ask_all passes questions s ≡ map direct questions
  unfolding ask_all
  ask_all-direct [] s n h = refl
  ask_all-direct (q ∷ rest) s (n, ns) h =
      let (e, k) = ask_lem q s n h in
      ap₂ (λ a l. a ∷ l) e (ask_all-direct rest (ask passes q s).1 ns k)

  -- Any questions in a row, none of them for null, are answered as LLVM's analyses answer them.
  ask_all_lem :
      (questions : List Question)
      → All (λ q. asks_for q ≢ 0) questions
      → ask_all passes questions required_analysis_results ≡ map direct questions
  ask_all_lem questions n =
      ask_all-direct questions required_analysis_results n
        (record { of_aa = inl refl; of_li = inl refl; of_se = inl refl })
