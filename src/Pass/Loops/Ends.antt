-- ===== src/Pass/Loops/Ends.antt =====
-- The search of an iteration ends.
use mpi_comp_match.Base.{
  Option-cases, ◌⊎◌, inl, inr, ℕ, zero, suc, ◌≤◌, ◌≡◌, refl, length, ◌≢◌, Bool, true, false, List,
  [], ◌∷◌, Option, none, some, not, ◌==◌, arith,
}
use mpi_comp_match.Pass.Llvm.{Llvm}
use mpi_comp_match.Pass.Search.{contains, insert}
use mpi_comp_match.Pass.Search.Paths.{if_split}
use mpi_comp_match.Pass.Search.Sets.{unchecked, unchecked-insert}
use mpi_comp_match.Pass.Loops.{
  LoopAnalysis, Visit, no_path_found, is_path_in_loop_iter, are_calls_in_different_loop_iters,
}
use mpi_comp_match.Pass.Loops.Iteration.{
  SharesIteration, are_calls_in_different_loop_iters-SharesIteration,
}
use mpi_comp_match.Pass.Loops.Rule.{Outcome, Outcome-map, any_successor_rule}

module _ (ir : Llvm) (analysis : LoopAnalysis) (loop block1 block2 : ℕ) (blocks : List ℕ)
    (inside : (b : ℕ) → analysis.contains_block loop b ≡ true → contains b blocks ≡ true) where
  abbrev left : List ℕ → ℕ
  left visited = unchecked (λ _. 1) blocks visited

  -- No block is visited anew, and each is visited once.
  search_ends :
      (fuel block : ℕ) (passed : Bool) (visited : List ℕ)
      → contains block blocks ≡ true
      → contains block visited ≡ false
      → left visited ≤ fuel
      → Outcome ⊥
          (λ l. left l ≤ left visited)
          Unit
          (is_path_in_loop_iter ir analysis loop block1 block2 fuel block passed visited)
  unfolding is_path_in_loop_iter
  search_ends zero block passed visited member new enough =
      let less = unchecked-insert (λ _. 1) block visited blocks member new in omega arith
  search_ends (suc fuel) block passed visited member new enough =
      let less = unchecked-insert (λ _. 1) block visited blocks member new in
      if_split (Outcome ⊥ (λ l. left l ≤ left visited) Unit) (block == block2)
        (λ _. (omega arith, λ _. tt))
        (λ _.
          Outcome-map ⊥ (λ l. suc (left l) ≤ left visited) _ Unit _ (λ l h. omega arith)
            (any_successor_rule ir analysis loop block1 block2 ⊥ (λ l. suc (left l) ≤ left visited)
              Unit _ _ (insert block visited) (omega arith)
              (λ next l m there new' less'.
                Outcome-map ⊥ _ _ Unit _ (λ l' h. omega arith)
                  (search_ends fuel next _ l (inside next there) new' (omega arith)))))

all_left : (blocks : List ℕ) → unchecked (λ _. 1) blocks [] ≡ length blocks
all_left [] = refl
all_left (b ∷ rest) = omega (arith, all_left rest)

answers : (Q : List ℕ → Type 0) (v : Visit) → Outcome ⊥ Q Unit v → no_path_found v ≢ none
answers Q none h e = h
answers Q (some r) h e = ground (arith, e)

module _ (ir : Llvm) (analysis : LoopAnalysis) where
  -- With fuel for the number of blocks of the loop of the first call, the header among them, the test
  -- returns.
  are_calls_in_different_loop_iters_ends :
      (fuel orig_call conflict_call : ℕ) (blocks : List ℕ)
      → (let loop = analysis.get_loop_for (ir.get_parent orig_call) in
          ((b : ℕ) → analysis.contains_block loop b ≡ true → contains b blocks ≡ true)
          × (contains (analysis.get_header loop) blocks ≡ true))
      → length blocks ≤ fuel
      → are_calls_in_different_loop_iters ir analysis fuel orig_call conflict_call ≢ none
  unfolding are_calls_in_different_loop_iters
  are_calls_in_different_loop_iters_ends fuel orig_call conflict_call blocks (inside, member)
        enough =
      let block1 = ir.get_parent orig_call in
      let loop = analysis.get_loop_for block1 in
      if_split Answers (orig_call == conflict_call) (λ _ e. ground (arith, e))
        (λ _.
          if_split Answers (not (ir.get_function orig_call == ir.get_function conflict_call))
            (λ _ e. ground (arith, e))
            (λ _.
              if_split Answers (loop == 0) (λ _ e. ground (arith, e))
                (λ _.
                  if_split Answers
                    (not (loop == analysis.get_loop_for (ir.get_parent conflict_call)))
                    (λ _ e. ground (arith, e))
                    (λ _.
                      if_split Answers (block1 == ir.get_parent conflict_call)
                        (λ _ e. ground (arith, e))
                        (λ _. answers _ _ (
                          search_ends ir analysis loop block1 (ir.get_parent conflict_call) blocks
                            inside fuel (analysis.get_header loop) false [] member refl
                            (rw all_left enough)))))))
    where
      Answers : Option Bool → Type 0
      Answers answer = answer ≢ none

  -- With fuel for the number of blocks of the loop of the first call, the header among them, the test
  -- returns. Where it returns false, the two calls are in different functions, the first is in no loop,
  -- they are in different loops, or a path through one iteration of their loop comes to the first and
  -- then to the second.
  pub are_calls_in_different_loop_iters_lem :
      (fuel orig_call conflict_call : ℕ) (blocks : List ℕ)
      → (let loop = analysis.get_loop_for (ir.get_parent orig_call) in
          ((b : ℕ) → analysis.contains_block loop b ≡ true → contains b blocks ≡ true)
          × (contains (analysis.get_header loop) blocks ≡ true))
      → length blocks ≤ fuel
      → (are_calls_in_different_loop_iters ir analysis fuel orig_call conflict_call ≡ some true)
        ⊎ ((are_calls_in_different_loop_iters ir analysis fuel orig_call conflict_call ≡ some false)
            × SharesIteration ir analysis orig_call conflict_call)
  are_calls_in_different_loop_iters_lem fuel orig_call conflict_call blocks inside enough =
      elim (Option-cases
        (are_calls_in_different_loop_iters ir analysis fuel orig_call conflict_call)) [
          | inl none_left ↦ absurd (
              are_calls_in_different_loop_iters_ends fuel orig_call conflict_call blocks inside
                enough none_left)
          | inr (true, e) ↦ inl e
          | inr (false, e) ↦ inr (
            e,
            are_calls_in_different_loop_iters-SharesIteration ir analysis fuel orig_call
                conflict_call e,
          )
        ]
