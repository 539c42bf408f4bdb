-- ===== src/Pass/Analyses.antt =====
-- analysis_results.cpp: the results of LLVM's analyses, kept for the function that has been asked for
-- last.
pub mod Cached
use mpi_comp_match.Base.{ℕ, List, [], ◌∷◌, ◌==◌, not, if◌then◌else◌}

-- getAnalysis of the pass: the result for a function.
pub record Passes : Type 0 where
  pub get_aa_results : ℕ → ℕ
  pub get_loop_info : ℕ → ℕ
  pub get_se : ℕ → ℕ

-- The functions that have been asked for last, and the results for them.
pub record RequiredAnalysisResults : Type 0 where
  pub current_aa_function : ℕ
  pub current_li_function : ℕ
  pub current_se_function : ℕ
  pub current_aa : ℕ
  pub current_li : ℕ
  pub current_se : ℕ

-- The constructor: nothing has been asked for.
abbrev pub required_analysis_results : RequiredAnalysisResults
required_analysis_results = record {
  current_aa_function = 0;
  current_li_function = 0;
  current_se_function = 0;
  current_aa = 0;
  current_li = 0;
  current_se = 0;
}

module _ (passes : Passes) where
  unfoldable pub get_aa_results : ℕ → RequiredAnalysisResults → ℕ × RequiredAnalysisResults
  get_aa_results f s =
      let s' =
        (if not (s.current_aa_function == f)
          then record s { current_aa_function = f; current_aa = passes.get_aa_results f }
          else s) in
      (s'.current_aa, s')

  unfoldable pub get_loop_info : ℕ → RequiredAnalysisResults → ℕ × RequiredAnalysisResults
  get_loop_info f s =
      let s' =
        (if not (s.current_li_function == f)
          then record s { current_li_function = f; current_li = passes.get_loop_info f }
          else s) in
      (s'.current_li, s')

  unfoldable pub get_se : ℕ → RequiredAnalysisResults → ℕ × RequiredAnalysisResults
  get_se f s =
      let s' =
        (if not (s.current_se_function == f)
          then record s { current_se_function = f; current_se = passes.get_se f }
          else s) in
      (s'.current_se, s')

-- A question to the results.
pub data Question : Type 0 where
  aa_results : ℕ → Question
  loop_info : ℕ → Question
  se : ℕ → Question

module _ (passes : Passes) where
  unfoldable pub ask : Question → RequiredAnalysisResults → ℕ × RequiredAnalysisResults
  unfolding get_aa_results get_loop_info get_se
  ask (aa_results f) s = get_aa_results passes f s
  ask (loop_info f) s = get_loop_info passes f s
  ask (se f) s = get_se passes f s

  -- The answers to questions in a row.
  unfoldable pub ask_all : List Question → RequiredAnalysisResults → List ℕ
  unfolding ask
  ask_all [] s = []
  ask_all (q ∷ rest) s = let (answer, s') = ask q s in answer ∷ ask_all rest s'
