-- ===== src/Pass/Loops.antt =====
-- Whether two calls are made in the same iteration of a loop, in conflict_detection.cpp. These
-- functions are never called: check_for_loop_iter_difference is false.
pub mod Rule
pub mod Iteration
pub mod Ends
pub mod Missed
use mpi_comp_match.Base.{
  ℕ, zero, suc, Bool, true, false, List, [], ◌∷◌, Option, none, some, ◌||◌, ◌&&◌, not, ◌==◌,
  if◌then◌else◌,
}
use mpi_comp_match.Pass.Checked.{Checked, ◌>>=◌, ◌>>◌, assert, pure}
use mpi_comp_match.Pass.Llvm.{Llvm}
use mpi_comp_match.Pass.Search.{contains, insert}

-- What is asked of LoopInfo and ScalarEvolution, which are never null.
pub record LoopAnalysis : Type 0 where
  -- the innermost loop of a block, or null
  pub get_loop_for : ℕ → ℕ
  pub get_header : ℕ → ℕ
  pub contains_block : (loop block : ℕ) → Bool
  -- of an instruction
  pub is_integer : ℕ → Bool
  pub is_loop_computable : (inst loop : ℕ) → Bool
  pub is_loop_invariant : (inst loop : ℕ) → Bool
  pub is_known_equal : ℕ → ℕ → Bool

module _ (ir : Llvm) (analysis : LoopAnalysis) where
  -- `inst_a` is an instruction, which the assertion checks.
  unfoldable pub differs_in_each_iter : (inst_a val_b : ℕ) → Checked Bool
  differs_in_each_iter inst_a val_b = do
    assert (ir.is_instruction inst_a)
    assert (analysis.is_integer inst_a)
    let loop = analysis.get_loop_for (ir.get_parent inst_a) in
        (if not (loop == 0)
            && (analysis.is_loop_computable inst_a loop && analysis.is_known_equal inst_a val_b)
          then (do assert (not (analysis.is_loop_invariant inst_a loop)); pure true)
          else pure false)

  unfoldable pub can_prove_val_different_for_different_loop_iters : ℕ → ℕ → Checked Bool
  unfolding differs_in_each_iter
  can_prove_val_different_for_different_loop_iters a b = if not (a == b) then pure false else (do
    assert (not (ir.is_constant a) || not (ir.is_constant b))
    (if ir.is_instruction b && not (ir.is_instruction a)
        then differs_in_each_iter b a
        else differs_in_each_iter a b))

-- Whether a path has been found, and the blocks that have been visited; nothing where the fuel runs
-- out.
abbrev pub Visit : Type 0
Visit = Option (Bool × List ℕ)

-- The search ends at the first path.
abbrev pub or_else : Visit → (List ℕ → Visit) → Visit
or_else none others = none
or_else (some (true, visited)) others = some (true, visited)
or_else (some (false, visited)) others = others visited

module _ (ir : Llvm) (analysis : LoopAnalysis) (loop block1 block2 : ℕ) where
  -- The loop over the successors: those in the loop of the program that are not visited yet.
  unfoldable pub any_successor : (search : ℕ → List ℕ → Visit) → (blocks visited : List ℕ) → Visit
  any_successor search [] visited = some (false, visited)
  any_successor search (next ∷ rest) visited =
      if analysis.contains_block loop next && not (contains next visited)
      then or_else (search next visited) (any_successor search rest)
      else any_successor search rest visited

  -- The recursion goes as deep as the fuel.
  unfoldable pub is_path_in_loop_iter :
      (fuel current_pos : ℕ) (encountered1 : Bool) (visited : List ℕ) → Visit
  unfolding any_successor
  is_path_in_loop_iter zero current_pos encountered1 visited = none
  is_path_in_loop_iter (suc fuel) current_pos encountered1 visited =
      if current_pos == block2
      then some (encountered1, visited)
      else any_successor
          (λ next. is_path_in_loop_iter fuel next (encountered1 || current_pos == block1))
          (ir.successors (ir.get_terminator current_pos)) (insert current_pos visited)

abbrev pub no_path_found : Visit → Option Bool
no_path_found none = none
no_path_found (some (found, visited)) = some (not found)

module _ (ir : Llvm) (analysis : LoopAnalysis) where
  unfoldable pub are_calls_in_different_loop_iters :
      (fuel orig_call conflict_call : ℕ) → Option Bool
  are_calls_in_different_loop_iters fuel orig_call conflict_call =
      let orig_block = ir.get_parent orig_call in
      let conflict_block = ir.get_parent conflict_call in
      let loop = analysis.get_loop_for orig_block in
      if orig_call == conflict_call
      then some true
      else (if not (ir.get_function orig_call == ir.get_function conflict_call)
          then some false
          else (if loop == 0
              then some false
              else (if not (loop == analysis.get_loop_for conflict_block)
                  then some false
                  else (if orig_block == conflict_block
                      then some true
                      else no_path_found (
                          is_path_in_loop_iter ir analysis loop orig_block conflict_block fuel
                            (analysis.get_header loop) false [])))))
