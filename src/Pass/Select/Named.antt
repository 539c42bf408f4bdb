-- ===== src/Pass/Select/Named.antt =====
-- What a replaced call is, and what it becomes, by the names of the functions.
use mpi_comp_match.Base.{
  ℕ, ◌≡◌, ◌≢◌, true, false, List, [], ◌∷◌, some, All, ◌⊎◌, inl, inr, Bool-cases, ==_iff, ◌==◌,
  arith,
}
use mpi_comp_match.Pass.Checked.{Ensured, Ensured-bind, Ensured-map, Ensured-self, Ensured_result}
use mpi_comp_match.Pass.Llvm.{Llvm}
use mpi_comp_match.Pass.Functions.{MpiFunctions}
use mpi_comp_match.Pass.Conflicts.{Wildcards}
use mpi_comp_match.Pass.Search.{contains}
use mpi_comp_match.Pass.Scopes.{Indexing}
use mpi_comp_match.Pass.Names.{Names, get_used_mpi_functions}
use mpi_comp_match.Pass.Names.Resolved.{AllNamedOnce}
use mpi_comp_match.Pass.Names.Renamed.{Counterpart, optimized_function-Counterpart}
use mpi_comp_match.Pass.Replacement.{optimized_function, add_init, add_finalize}
use mpi_comp_match.Pass.Replacement.Exact.{Replaces, replace_communication_calls-Replaces}
use mpi_comp_match.Pass.Select.{
  Changes, remove_conflicting, init_calls, replace_if_both, run_on_module,
}

module _ (ir : Llvm) (indexing : Indexing) (mpi : MpiFunctions) (wildcards : Wildcards)
    (fuel : ℕ) where
  -- Each call becomes one of the function of the library for the function that it calls.
  abbrev pub AllOptimized : List (ℕ × ℕ) → Type 0
  AllOptimized = All (λ p. optimized_function ir mpi (ir.get_called_function p.0) ≡ some p.1)

  abbrev IsOptimized : (replacement original : ℕ) → Type 0
  IsOptimized g f = optimized_function ir mpi f ≡ some g

  replace_if_both-AllOptimized :
      (sends recvs : List ℕ)
      → Ensured AllOptimized (replace_if_both ir indexing mpi wildcards fuel sends recvs)
  replace_if_both-AllOptimized [] recvs = tt
  replace_if_both-AllOptimized (s ∷ sends) [] = tt
  replace_if_both-AllOptimized (s ∷ sends) (r ∷ recvs) =
      Ensured-map (Replaces ir mpi IsOptimized (s ∷ sends) (r ∷ recvs)) AllOptimized _ (λ l h. h.1)
        (replace_communication_calls-Replaces ir mpi IsOptimized (λ f. Ensured-self _) (s ∷ sends)
          (r ∷ recvs))

  pub run_on_module-AllOptimized :
      Ensured
        (λ changes. AllOptimized changes.replaced)
        (run_on_module ir indexing mpi wildcards fuel)
  unfolding run_on_module
  run_on_module-AllOptimized =
      Ensured-bind _ _
        (remove_conflicting ir indexing mpi wildcards fuel true
          (init_calls ir mpi mpi.mpi_send_init))
        _ (Ensured-self _)
        (λ sends _.
          Ensured-bind _ _
            (remove_conflicting ir indexing mpi wildcards fuel false
              (init_calls ir mpi mpi.mpi_recv_init))
            _ (Ensured-self _)
            (λ recvs _.
              Ensured-bind _ _ (replace_if_both ir indexing mpi wildcards fuel sends recvs) _
                (replace_if_both-AllOptimized sends recvs)
                (λ replaced h. Ensured-bind _ _ (add_init ir mpi) _ (Ensured-self _) (λ inits _.
                  Ensured-bind _ _ (add_finalize ir mpi) _ (Ensured-self _) (λ finalizes _. h)))))

module _ (ir : Llvm) (names : Names) (once : AllNamedOnce names ir.functions)
    (closed : (c : ℕ)
      → ir.get_called_function c ≢ 0
      → contains (ir.get_called_function c) ir.functions ≡ true) where
  -- A call of a function that is known becomes one of its counterpart.
  abbrev pub IsRenamed : ℕ × ℕ → Type 0
  IsRenamed (c, g) =
      (ir.get_called_function c ≡ 0) ⊎ Counterpart ir names once (ir.get_called_function c) g

  renamed :
      (l : List (ℕ × ℕ))
      → All
          (λ p.
            optimized_function ir (get_used_mpi_functions ir names) (ir.get_called_function p.0)
            ≡ some p.1)
          l
      → All IsRenamed l
  renamed [] h = tt
  renamed ((c, g) ∷ rest) (h, hs) = (
    elim (Bool-cases (ir.get_called_function c == 0)) [
      | inl null ↦ inl ((==_iff _ _).0 null)
      | inr known ↦
          let positive : ir.get_called_function c ≢ 0 = λ z. ground (arith, known, z) in
          inr (
            Ensured_result (Counterpart ir names once (ir.get_called_function c))
              (optimized_function ir (get_used_mpi_functions ir names) (ir.get_called_function c)) g
              (optimized_function-Counterpart ir names once (ir.get_called_function c)
                (closed c positive) positive)
              h)
    ],
    renamed rest hs,
  )

  -- With the functions of MPI found by their names, which are different: every call of a function of
  -- the module that the pass replaces calls MPI_Wait, MPI_Start, MPI_Request_free, MPI_Send_init or
  -- MPI_Recv_init, and becomes a call of the function that is inserted under the name with MPIOPT_ in
  -- the place of MPI_.
  pub run_on_module-IsRenamed :
      (indexing : Indexing) (wildcards : Wildcards) (fuel : ℕ) (changes : Changes)
      → run_on_module ir indexing (get_used_mpi_functions ir names) wildcards fuel ≡ some changes
      → All IsRenamed changes.replaced
  run_on_module-IsRenamed indexing wildcards fuel changes e =
      let mpi = get_used_mpi_functions ir names in
      renamed changes.replaced (
        Ensured_result (λ changes'. AllOptimized ir indexing mpi wildcards fuel changes'.replaced)
          (run_on_module ir indexing mpi wildcards fuel) changes
          (run_on_module-AllOptimized ir indexing mpi wildcards fuel) e)
