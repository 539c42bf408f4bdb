-- ===== src/Pass/Loops/Iteration.antt =====
-- A path that is found is one through one iteration.
use mpi_comp_match.Base.{
  ℕ, zero, suc, ◌≡◌, refl, subst, Bool, true, false, List, [], Option, none, some, ◌||◌, not, ◌==◌,
  ◌⊎◌, inl, inr, ⊎_elim, Bool-cases, ==_iff, ==_self, arith, ◌≢◌,
}
use mpi_comp_match.Pass.Llvm.{Llvm}
use mpi_comp_match.Pass.Search.{contains, insert}
use mpi_comp_match.Pass.Search.Paths.{if_split}
use mpi_comp_match.Pass.Search.Sets.{contains-insert}
use mpi_comp_match.Pass.Loops.{
  LoopAnalysis, Visit, no_path_found, is_path_in_loop_iter, are_calls_in_different_loop_iters,
}
use mpi_comp_match.Pass.Loops.Rule.{Outcome, Outcome-map, any_successor_rule}

module _ (ir : Llvm) (analysis : LoopAnalysis) (loop block1 block2 : ℕ) where
  abbrev header : ℕ
  header = analysis.get_header loop

  -- A path from the header leads to the block: it stays in the loop, comes to the header once, and
  -- ends where it comes to the second block. The test says whether it has passed the first block.
  pub data Leads : Bool → ℕ → Type 0 where
    begin : Leads false header
    onward :
        {passed : Bool} {block : ℕ} (next : ℕ)
        → Leads passed block
        → (block == block2) ≡ false
        → contains next (ir.successors (ir.get_terminator block)) ≡ true
        → analysis.contains_block loop next ≡ true
        → (next == header) ≡ false
        → Leads (passed || block == block1) next

  abbrev Found : Visit → Type 0
  Found = Outcome Unit (λ l. contains header l ≡ true) (Leads true block2)

  other : (x y : ℕ) (l : List ℕ) → contains x l ≡ false → contains y l ≡ true → (x == y) ≡ false
  other x y l h k =
      ⊎_elim (λ same. let e = (==_iff x y).0 same in absurd (ground (arith, h, k, e))) (λ e. e)
        (Bool-cases (x == y))

  expand :
      (fuel block : ℕ) (passed : Bool) (visited : List ℕ)
      → Leads passed block
      → contains header (insert block visited) ≡ true
      → (block == block2) ≡ false
      → ((next : ℕ) (l : List ℕ)
          → Leads (passed || block == block1) next
          → contains header l ≡ true
          → Found (
              is_path_in_loop_iter ir analysis loop block1 block2 fuel next
                (passed || block == block1)
                l))
      → Found (is_path_in_loop_iter ir analysis loop block1 block2 (suc fuel) block passed visited)
  unfolding is_path_in_loop_iter
  expand fuel block passed visited h k go search = rw go (
      any_successor_rule ir analysis loop block1 block2 Unit (λ l. contains header l ≡ true)
        (Leads true block2) _ _ (insert block visited) k
        (λ next l m inside new there.
          search next l (onward next h go m inside (other next header l new there)) there))

  search-Found :
      (fuel block : ℕ) (passed : Bool) (visited : List ℕ)
      → Leads passed block
      → contains header visited ≡ true
      → Found (is_path_in_loop_iter ir analysis loop block1 block2 fuel block passed visited)
  unfolding is_path_in_loop_iter
  search-Found zero block passed visited h k = tt
  search-Found (suc fuel) block passed visited h k = elim (Bool-cases (block == block2)) [
    | inl e ↦
        rw e (k, λ p. subst (λ b. Leads b block2) p (subst (Leads passed) ((==_iff _ _).0 e) h))
    | inr e ↦
        expand fuel block passed visited h (rw contains-insert (ground (arith, k))) e
          (λ next l. search-Found fuel next _ l)
  ]

  -- In the search from the header, which has been visited behind it.
  is_path_in_loop_iter-Leads :
      (fuel : ℕ)
      → Outcome Unit
          (λ _. Unit)
          (Leads true block2)
          (is_path_in_loop_iter ir analysis loop block1 block2 fuel header false [])
  unfolding is_path_in_loop_iter
  is_path_in_loop_iter-Leads zero = tt
  is_path_in_loop_iter-Leads (suc fuel) = elim (Bool-cases (header == block2)) [
    | inl e ↦ rw e (tt, λ p. absurd (ground (arith, p)))
    | inr e ↦
        Outcome-map Unit (λ l. contains header l ≡ true) (λ _. Unit) _ _ (λ _ _. tt)
          (expand fuel header false [] begin (rw contains-insert (simp ==_self)) e
            (λ next l. search-Found fuel next _ l))
  ]

path_found :
    (Q : List ℕ → Type 0) (X : Type 0) (v : Visit)
    → Outcome Unit Q X v
    → no_path_found v ≡ some false
    → X
path_found Q X none h e = absurd (ground (arith, e))
path_found Q X (some (true, l)) (q, x) e = x refl
path_found Q X (some (false, l)) (q, x) e = absurd (ground (arith, e))

module _ (ir : Llvm) (analysis : LoopAnalysis) where
  -- Why two calls are not taken to be in different iterations.
  abbrev pub SharesIteration : (orig_call conflict_call : ℕ) → Type 0
  SharesIteration orig_call conflict_call =
      let block1 = ir.get_parent orig_call in
      let block2 = ir.get_parent conflict_call in
      let loop = analysis.get_loop_for block1 in
      (ir.get_function orig_call ≢ ir.get_function conflict_call)
      ⊎ ((loop ≡ 0)
          ⊎ ((loop ≢ analysis.get_loop_for block2)
              ⊎ Leads ir analysis loop block1 block2 true block2))

  -- Where the two calls are found not to be in different iterations, they are in different functions,
  -- the first is in no loop, they are in different loops, or a path through one iteration of their
  -- loop comes to the first and then to the second.
  pub are_calls_in_different_loop_iters-SharesIteration :
      (fuel orig_call conflict_call : ℕ)
      → are_calls_in_different_loop_iters ir analysis fuel orig_call conflict_call ≡ some false
      → SharesIteration orig_call conflict_call
  unfolding are_calls_in_different_loop_iters
  are_calls_in_different_loop_iters-SharesIteration fuel orig_call conflict_call =
      let block1 = ir.get_parent orig_call in
      let block2 = ir.get_parent conflict_call in
      let loop = analysis.get_loop_for block1 in
      if_split Justified (orig_call == conflict_call) (λ _ e. absurd (ground (arith, e)))
        (λ _.
          if_split Justified (not (ir.get_function orig_call == ir.get_function conflict_call))
            (λ e _. inl (λ same. ground (arith, e, same)))
            (λ _.
              if_split Justified (loop == 0) (λ e _. inr (inl (ground (arith, e))))
                (λ _.
                  if_split Justified (not (loop == analysis.get_loop_for block2))
                    (λ e _. inr (inr (inl (λ same. ground (arith, e, same)))))
                    (λ _.
                      if_split Justified (block1 == block2) (λ _ e. absurd (ground (arith, e)))
                        (λ _ e. inr (
                          inr (
                            inr (
                              path_found _ _ _
                                (is_path_in_loop_iter-Leads ir analysis loop block1 block2 fuel)
                                e))))))))
    where
      Justified : Option Bool → Type 0
      Justified answer = answer ≡ some false → SharesIteration orig_call conflict_call
