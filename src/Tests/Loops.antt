-- ===== src/Tests/Loops.antt =====
-- The test of two calls in a loop.
use mpi_comp_match.Base.{ℕ, ◌⊎◌, ◌≡◌, refl, true, false, [], ◌∷◌, some, ◌==◌, ltb, ◌&&◌, arith}
use mpi_comp_match.Pass.Llvm.{Llvm}
use mpi_comp_match.Pass.Search.{contains, insert}
use mpi_comp_match.Pass.Loops.{
  LoopAnalysis, any_successor, is_path_in_loop_iter, are_calls_in_different_loop_iters,
  differs_in_each_iter, can_prove_val_different_for_different_loop_iters,
}
use mpi_comp_match.Pass.Loops.Iteration.{Leads, SharesIteration}
use mpi_comp_match.Pass.Loops.Ends.{are_calls_in_different_loop_iters_lem}
use mpi_comp_match.Pass.Loops.Missed.{IsDiamond, are_calls_in_different_loop_iters-missed}
use mpi_comp_match.Tests.Program.{program, at, lists_at}

-- The loop 9 of the blocks 1 to 5: the header 1 leads to 2 and 3, these to 4, and that to 5, which
-- leads back. The calls 63 and 65 stand in the blocks 3 and 5.
abbrev diamond : Llvm
diamond = record program {
  get_parent = at ((63, 3) ∷ (65, 5) ∷ []);
  get_terminator = λ b. b;
  successors =
      lists_at ((1, 2 ∷ 3 ∷ []) ∷ (2, 4 ∷ []) ∷ (3, 4 ∷ []) ∷ (4, 5 ∷ []) ∷ (5, 1 ∷ []) ∷ []);
}

abbrev analysis : LoopAnalysis
analysis = record {
  get_loop_for = λ b. 9;
  get_header = λ l. 1;
  contains_block = λ l b. ltb 0 b && ltb b 6;
  is_integer = λ i. true;
  is_loop_computable = λ i l. true;
  is_loop_invariant = λ i l. false;
  is_known_equal = λ a b. a == b;
}

-- Opens what the search of an iteration runs.
unfoldable loops_opened : Unit {0}
unfolding insert any_successor is_path_in_loop_iter are_calls_in_different_loop_iters
    differs_in_each_iter can_prove_val_different_for_different_loop_iters
loops_opened = tt

-- A value that the loop computes is another one in each iteration.
differs_from_itself :
    can_prove_val_different_for_different_loop_iters
      (record program { is_constant = λ v. false; is_instruction = λ v. true })
      analysis
      70
      70
    ≡ some true
unfolding loops_opened
differs_from_itself = refl

diamond-IsDiamond : IsDiamond diamond analysis 63 65 2 4
diamond-IsDiamond = record {
  other_call = refl;
  same_function = refl;
  same_loop = refl;
  is_loop = refl;
  behind_header = refl;
  behind_early = refl;
  behind_first = refl;
  behind_middle = refl;
  inside_early = refl;
  inside_first = refl;
  inside_middle = refl;
  inside_second = refl;
  not_header = (refl, (refl, (refl, (refl, tt))));
  not_second = (refl, (refl, (refl, (refl, tt))));
  not_first = (refl, (refl, (refl, tt)));
  not_early = refl;
}

are_calls_in_different_loop_iters-missed_example :
    (are_calls_in_different_loop_iters diamond analysis 4 63 65 ≡ some true)
    × Leads diamond analysis 9 3 5 true 5
are_calls_in_different_loop_iters-missed_example =
    are_calls_in_different_loop_iters-missed diamond analysis 63 65 2 4 diamond-IsDiamond 0

-- The header leads to 3 alone.
abbrev straight : Llvm
straight = record diamond {
  successors = lists_at ((1, 3 ∷ []) ∷ (3, 4 ∷ []) ∷ (4, 5 ∷ []) ∷ (5, 1 ∷ []) ∷ []);
}

shares_iteration : are_calls_in_different_loop_iters straight analysis 5 63 65 ≡ some false
unfolding loops_opened
shares_iteration = refl

all_blocks : (b : ℕ) → (ltb 0 b && ltb b 6) ≡ true → contains b (1 ∷ 2 ∷ 3 ∷ 4 ∷ 5 ∷ []) ≡ true
all_blocks b h = ground (arith, h)

are_calls_in_different_loop_iters_example :
    (are_calls_in_different_loop_iters straight analysis 5 63 65 ≡ some true)
    ⊎ ((are_calls_in_different_loop_iters straight analysis 5 63 65 ≡ some false)
        × SharesIteration straight analysis 63 65)
are_calls_in_different_loop_iters_example =
    are_calls_in_different_loop_iters_lem straight analysis 5 63 65 (1 ∷ 2 ∷ 3 ∷ 4 ∷ 5 ∷ [])
      (all_blocks, refl) (omega arith)
