-- ===== src/Pass/Loops/Missed.antt =====
-- A path that the search of an iteration misses: a block that has been visited before the first
-- block is not visited again behind it.
use mpi_comp_match.Base.{
  ℕ, suc, ◌≡◌, refl, subst, ◌∙◌, Bool, true, false, List, [], ◌∷◌, some, ◌==◌, ==_self, arith, All,
}
use mpi_comp_match.Pass.Llvm.{Llvm}
use mpi_comp_match.Pass.Search.{contains, insert}
use mpi_comp_match.Pass.Search.Sets.{contains-insert}
use mpi_comp_match.Pass.Loops.{
  LoopAnalysis, Visit, any_successor, is_path_in_loop_iter, are_calls_in_different_loop_iters,
}
use mpi_comp_match.Pass.Loops.Iteration.{Leads, begin, onward}

fresh :
    (x b : ℕ) (l : List ℕ)
    → (x == b) ≡ false
    → contains x l ≡ false
    → contains x (insert b l) ≡ false
fresh x b l other new = rw contains-insert (ground (arith, other, new))

differs : (a b : ℕ) → (a == b) ≡ false → (b == a) ≡ false
differs a b h = ground (arith, h)

module _ (ir : Llvm) (analysis : LoopAnalysis) (orig_call conflict_call : ℕ)
    (early middle : ℕ) where
  abbrev block1 : ℕ
  block1 = ir.get_parent orig_call

  abbrev block2 : ℕ
  block2 = ir.get_parent conflict_call

  abbrev loop : ℕ
  loop = analysis.get_loop_for block1

  abbrev header : ℕ
  header = analysis.get_header loop

  abbrev behind : ℕ → List ℕ
  behind block = ir.successors (ir.get_terminator block)

  -- Behind the header stand another block and then that of the first call; both lead to the middle
  -- block, and that leads to the block of the second call.
  pub record IsDiamond : Type 0 where
    pub other_call : (orig_call == conflict_call) ≡ false
    pub same_function : ir.get_function orig_call ≡ ir.get_function conflict_call
    pub same_loop : analysis.get_loop_for block2 ≡ loop
    pub is_loop : (loop == 0) ≡ false
    pub behind_header : behind header ≡ early ∷ block1 ∷ []
    pub behind_early : behind early ≡ middle ∷ []
    pub behind_first : behind block1 ≡ middle ∷ []
    pub behind_middle : behind middle ≡ block2 ∷ []
    pub inside_early : analysis.contains_block loop early ≡ true
    pub inside_first : analysis.contains_block loop block1 ≡ true
    pub inside_middle : analysis.contains_block loop middle ≡ true
    pub inside_second : analysis.contains_block loop block2 ≡ true
    pub not_header : All (λ b. (b == header) ≡ false) (early ∷ middle ∷ block1 ∷ block2 ∷ [])
    pub not_second : All (λ b. (b == block2) ≡ false) (header ∷ early ∷ middle ∷ block1 ∷ [])
    pub not_first : All (λ b. (b == block1) ≡ false) (header ∷ early ∷ middle ∷ [])
    pub not_early : (middle == early) ≡ false

  module _ (diamond : IsDiamond) where
    abbrev search : ℕ → ℕ → Bool → List ℕ → Visit
    search = is_path_in_loop_iter ir analysis loop block1 block2

    abbrev successors : (ℕ → List ℕ → Visit) → (blocks visited : List ℕ) → Visit
    successors = any_successor ir analysis loop block1 block2

    expand :
        (fuel block : ℕ) (visited blocks : List ℕ)
        → (block == block2) ≡ false
        → behind block ≡ blocks
        → search (suc fuel) block false visited
          ≡ successors (λ next. search fuel next (block == block1)) blocks (insert block visited)
    unfolding is_path_in_loop_iter
    expand fuel block visited blocks not_last e = rw not_last (rw e refl)

    skip_last :
        (s : ℕ → List ℕ → Visit) (next : ℕ) (visited : List ℕ)
        → contains next visited ≡ true
        → successors s (next ∷ []) visited ≡ some (false, visited)
    unfolding any_successor
    skip_last s next visited old = rw old (ground arith)

    pass :
        (s : ℕ → List ℕ → Visit) (next : ℕ) (rest visited visited' : List ℕ)
        → analysis.contains_block loop next ≡ true
        → contains next visited ≡ false
        → s next visited ≡ some (false, visited')
        → successors s (next ∷ rest) visited ≡ successors s rest visited'
    unfolding any_successor
    pass s next rest visited visited' inside new e = rw inside (rw new (rw e refl))

    pass_last :
        (s : ℕ → List ℕ → Visit) (next : ℕ) (visited visited' : List ℕ)
        → analysis.contains_block loop next ≡ true
        → contains next visited ≡ false
        → s next visited ≡ some (false, visited')
        → successors s (next ∷ []) visited ≡ some (false, visited')
    unfolding any_successor
    pass_last s next visited visited' inside new e = rw inside (rw new (rw e refl))

    from_middle :
        (fuel : ℕ) (visited : List ℕ)
        → contains block2 visited ≡ false
        → search (suc (suc fuel)) middle false visited ≡ some (false, insert middle visited)
    unfolding is_path_in_loop_iter
    from_middle fuel visited new =
        let (_, (_, (not_last, _))) = diamond.not_second in
        let (_, (_, (not_first, _))) = diamond.not_first in
        expand (suc fuel) middle visited _ not_last diamond.behind_middle
        ∙ (pass_last (λ x. search (suc fuel) x (middle == block1)) block2 _ _ diamond.inside_second
            (fresh _ _ _ (differs _ _ not_last) new) (simp (==_self, not_first)))

    from_early :
        (fuel : ℕ) (visited : List ℕ)
        → contains middle visited ≡ false
        → contains block2 visited ≡ false
        → search (suc (suc (suc fuel))) early false visited
          ≡ some (false, insert middle (insert early visited))
    from_early fuel visited new new2 =
        let (_, (not_last, _)) = diamond.not_second in
        let (_, (not_first, _)) = diamond.not_first in
        expand (suc (suc fuel)) early visited _ not_last diamond.behind_early
        ∙ (pass_last (λ x. search (suc (suc fuel)) x (early == block1)) middle _ _
            diamond.inside_middle (fresh _ _ _ diamond.not_early new)
            (rw not_first
              (from_middle fuel (insert early visited) (fresh _ _ _ (differs _ _ not_last) new2))))

    from_first :
        (fuel : ℕ) (visited : List ℕ)
        → contains middle visited ≡ true
        → search (suc fuel) block1 false visited ≡ some (false, insert block1 visited)
    from_first fuel visited old =
        let (_, (_, (_, (not_last, _)))) = diamond.not_second in
        expand fuel block1 visited _ not_last diamond.behind_first
        ∙ (skip_last (λ x. search fuel x (block1 == block1)) middle _
            (rw contains-insert (ground (arith, old))))

    from_header :
        (fuel : ℕ)
        → search (suc (suc (suc (suc fuel)))) header false []
          ≡ some (false, insert block1 (insert middle (insert early (insert header []))))
    from_header fuel =
        let (not_last, _) = diamond.not_second in
        let (not_first, (first_early, (first_middle, _))) = diamond.not_first in
        let s : ℕ → List ℕ → Visit = λ x. search (suc (suc (suc fuel))) x (header == block1) in
        let (e, (m, (f, (l, _)))) = diamond.not_header in
        expand (suc (suc (suc fuel))) header [] _ not_last diamond.behind_header
        ∙ (pass s early _ _ _ diamond.inside_early (fresh _ _ [] e refl) (
              rw not_first
                (from_early fuel (insert header []) (fresh _ _ [] m refl) (fresh _ _ [] l refl)))
            ∙ (pass_last s block1 _ _ diamond.inside_first
                (fresh _ _ _ (differs _ _ first_middle)
                  (fresh _ _ _ (differs _ _ first_early) (fresh _ _ [] f refl)))
                (rw not_first (from_first (suc (suc fuel)) _ (rw contains-insert (ground arith))))))

    diamond-Leads : Leads ir analysis loop block1 block2 true block2
    diamond-Leads =
        let (h, (_, (m, (f, _)))) = diamond.not_second in
        let (e, (m', (f', (l', _)))) = diamond.not_header in
        subst (λ b. Leads ir analysis loop block1 block2 b block2) (ground arith)
          (onward block2
            (onward middle
              (onward block1 begin h (rw diamond.behind_header (ground arith)) diamond.inside_first
                f')
              f (rw diamond.behind_first (simp ==_self)) diamond.inside_middle m')
            m (rw diamond.behind_middle (simp ==_self)) diamond.inside_second l')

    -- Both ways behind the header lead on to the block of the second call. Where the way without the
    -- first call is searched first, the calls are taken to be in different iterations of the loop,
    -- though a path through one iteration comes to both.
    pub are_calls_in_different_loop_iters-missed :
        (fuel : ℕ)
        → (are_calls_in_different_loop_iters ir analysis
              (suc (suc (suc (suc fuel))))
              orig_call
              conflict_call
            ≡ some true)
          × Leads ir analysis loop block1 block2 true block2
    unfolding are_calls_in_different_loop_iters
    are_calls_in_different_loop_iters-missed fuel =
        let (_, (_, (_, (not_same, _)))) = diamond.not_second in
        (
          simp (
            diamond.other_call,
            diamond.same_function,
            ==_self,
            diamond.is_loop,
            diamond.same_loop,
            not_same,
            from_header fuel,
          ),
          diamond-Leads,
        )
