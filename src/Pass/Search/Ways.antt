-- ===== src/Pass/Search/Ways.antt =====
-- The blocks behind a branch that the search follows, by the successors of the branches alone.
use mpi_comp_match.Base.{ℕ, ◌≡◌, refl, Bool, true, false, List, [], ◌∷◌, ◌&&◌, ◌==◌, arith}
use mpi_comp_match.Pass.Llvm.{Llvm}
use mpi_comp_match.Pass.Search.{
  contains, guard_from, get_guarding_compare, chosen, followed, blocks_behind,
}
use mpi_comp_match.Pass.Search.Paths.{if_split}

module _ (ir : Llvm) (mpi_call : ℕ) where
  -- The branch i has the same condition as the branch at the end of block pred, the only block before
  -- that of the call.
  pub record Guards (pred i : ℕ) : Type 0 where
    pub only : ir.predecessors (ir.get_parent mpi_call) ≡ pred ∷ []
    pub conditional :
        (ir.is_branch (ir.get_terminator pred) && ir.is_conditional (ir.get_terminator pred)) ≡ true
    pub same :
        (ir.is_branch i
          && ir.is_conditional i
          && ir.get_condition i == ir.get_condition (ir.get_terminator pred))
        ≡ true

  -- The first of these where the condition holds, and the second where it does not.
  abbrev pub OnSide : Bool → ℕ → List ℕ → Type 0
  OnSide true block (b ∷ rest) = block ≡ b
  OnSide false block (b ∷ c ∷ rest) = block ≡ c
  OnSide holds block _ = ⊥

  -- A block behind i. Where i has the condition of the call's guard, it is the one on the side on which
  -- the guard leads to the call.
  pub record IsWay (i block : ℕ) : Type 0 where
    pub terminator : ir.is_terminator i ≡ true
    pub successor : contains block (ir.successors i) ≡ true
    pub side :
        (pred : ℕ)
        → Guards pred i
        → (first : ℕ) (rest : List ℕ) → ir.successors (ir.get_terminator pred) ≡ first ∷ rest
        → OnSide (first == ir.get_parent mpi_call) block (ir.successors i)

  chosen-OnSide :
      (holds : Bool) (block : ℕ) (l : List ℕ)
      → contains block (chosen ir holds l) ≡ true
      → OnSide holds block l
  chosen-OnSide true block [] h = absurd (ground (arith, h))
  chosen-OnSide true block (b ∷ rest) h = ground (arith, h)
  chosen-OnSide false block [] h = absurd (ground (arith, h))
  chosen-OnSide false block (b ∷ []) h = absurd (ground (arith, h))
  chosen-OnSide false block (b ∷ c ∷ rest) h = ground (arith, h)

  chosen-contained :
      (holds : Bool) (block : ℕ) (l : List ℕ)
      → contains block (chosen ir holds l) ≡ true
      → contains block l ≡ true
  chosen-contained true block [] h = absurd (ground (arith, h))
  chosen-contained true block (b ∷ rest) h = ground (arith, h)
  chosen-contained false block [] h = absurd (ground (arith, h))
  chosen-contained false block (b ∷ []) h = absurd (ground (arith, h))
  chosen-contained false block (b ∷ c ∷ rest) h = ground (arith, h)

  followed-contained :
      (guard : ℕ) (way : Bool) (i block : ℕ)
      → contains block (followed ir guard way i) ≡ true
      → contains block (ir.successors i) ≡ true
  unfolding followed
  followed-contained guard way i block =
      if_split (λ l. contains block l ≡ true → contains block (ir.successors i) ≡ true)
        (ir.is_branch i && ir.is_conditional i && ir.get_condition i == guard)
        (λ _. chosen-contained way block (ir.successors i)) (λ _ h. h)

  guarding_compare :
      (pred i first : ℕ) (rest : List ℕ)
      → Guards pred i
      → ir.successors (ir.get_terminator pred) ≡ first ∷ rest
      → get_guarding_compare ir mpi_call
        ≡ (ir.get_condition (ir.get_terminator pred), first == ir.get_parent mpi_call)
  unfolding get_guarding_compare guard_from
  guarding_compare pred i first rest g e = rw (g.only, g.conditional, e) refl

  followed-OnSide :
      (pred i first block : ℕ) (rest : List ℕ)
      → Guards pred i
      → ir.successors (ir.get_terminator pred) ≡ first ∷ rest
      → contains block
          (followed ir (get_guarding_compare ir mpi_call).0 (get_guarding_compare ir mpi_call).1 i)
        ≡ true
      → OnSide (first == ir.get_parent mpi_call) block (ir.successors i)
  unfolding followed
  followed-OnSide pred i first block rest g e h =
      let k = rw (guarding_compare pred i first rest g e, g.same) at h in
      chosen-OnSide (first == ir.get_parent mpi_call) block (ir.successors i) k

  pub blocks_behind-IsWay :
      (i block : ℕ)
      → contains block (blocks_behind ir (get_guarding_compare ir mpi_call) i) ≡ true
      → IsWay i block
  blocks_behind-IsWay i block =
      if_split (λ l. contains block l ≡ true → IsWay i block) (ir.is_terminator i)
        (λ t h. record {
          terminator = t;
          successor = followed-contained _ _ i block h;
          side = λ pred g first rest e. followed-OnSide pred i first block rest g e h;
        })
        (λ _ h. absurd (ground (arith, h)))
