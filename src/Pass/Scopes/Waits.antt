-- ===== src/Pass/Scopes/Waits.antt =====
-- The calls that end the scope of an operation wait for its request.
use mpi_comp_match.Base.{
  ℕ, is_zeroℤ, ◌≡◌, refl, true, List, [], ◌∷◌, some, ◌&&◌, ◌==◌, All, ==_iff, arith, ◌⊎◌, inl, inr,
}
use mpi_comp_match.Pass.Checked.{
  Ensured, Ensured-assert, Ensured-bind, Ensured-checked, Ensured_result, Ensured-self,
}
use mpi_comp_match.Pass.Llvm.{Llvm}
use mpi_comp_match.Pass.Functions.{MpiFunctions}
use mpi_comp_match.Pass.Search.{contains}
use mpi_comp_match.Pass.Search.Paths.{if_split}
use mpi_comp_match.Pass.Scopes.{
  Indexing, is_call_of, waits_of, waits_for, waits_at, request_operand, get_scope_endings,
  get_corresponding_wait,
}
use mpi_comp_match.Pass.Scopes.Relation.{
  All-append, All-map, All-found, is_zeroℤ_lem, WaitsFor, alone, HasZeros, finalize_calls-All,
}
use mpi_comp_match.Pass.Scopes.Elements.{get_matching_waitall-WaitsFor}

module _ (ir : Llvm) (indexing : Indexing) (mpi : MpiFunctions) where
  waits_of-WaitsFor :
      (req : ℕ) (users : List ℕ)
      → Ensured (All (WaitsFor ir indexing mpi req)) (waits_of ir mpi req users)
  unfolding waits_of
  waits_of-WaitsFor req [] = tt
  waits_of-WaitsFor req (u ∷ rest) =
      if_split (Ensured (All (WaitsFor ir indexing mpi req))) (is_call_of ir mpi.mpi_wait u)
        (λ e. Ensured-assert _ (ir.get_num_arg_operands u == 2) _ (
          Ensured-checked _ (ir.get_arg_operand u 0 == req) _ (λ same.
            Ensured-bind (All (WaitsFor ir indexing mpi req)) _ (waits_of ir mpi req rest) _
              (waits_of-WaitsFor req rest) (λ waits h. (alone e ((==_iff _ _).0 same), h)))))
        (λ _. waits_of-WaitsFor req rest)

  module _ (zeros : HasZeros ir indexing mpi) (req : ℕ) where
    waits_at-WaitsFor :
        (indices : List ℕ)
        → indexing.indices req ≡ indices
        → Ensured
            (All (WaitsFor ir indexing mpi req))
            (waits_at ir indexing mpi (indexing.get_pointer_operand req) indices)
    waits_at-WaitsFor [] e = tt
    waits_at-WaitsFor (j0 ∷ []) e = tt
    waits_at-WaitsFor (j0 ∷ j1 ∷ []) e =
        if_split (Ensured (All (WaitsFor ir indexing mpi req)))
          (is_zeroℤ (indexing.get_sext_value j0))
          (λ z.
            get_matching_waitall-WaitsFor ir indexing mpi zeros req j0 j1 e (is_zeroℤ_lem _ z)
              (ir.users (indexing.get_pointer_operand req)) (λ u m. m))
          (λ _. tt)
    waits_at-WaitsFor (j0 ∷ j1 ∷ j2 ∷ rest) e = tt

    waits_for-WaitsFor :
        Ensured (All (WaitsFor ir indexing mpi req)) (waits_for ir indexing mpi req)
    waits_for-WaitsFor =
        if_split (Ensured (All (WaitsFor ir indexing mpi req))) (ir.is_alloca req)
          (λ _. waits_of-WaitsFor req (ir.users req))
          (λ _.
            if_split (Ensured (All (WaitsFor ir indexing mpi req)))
              (indexing.is_get_element_ptr req
                && (indexing.is_in_bounds req
                    && (ir.is_alloca (indexing.get_pointer_operand req)
                        && indexing.has_all_constant_indices req)))
              (λ _. waits_at-WaitsFor (indexing.indices req) refl) (λ _. tt))

  -- The call waits for the request of the operation, or is one of MPI_Finalize.
  abbrev pub EndsScope : (operation call : ℕ) → Type 0
  EndsScope operation call =
      (req : ℕ) × ((request_operand ir indexing mpi operation ≡ some req)
        × (WaitsFor ir indexing mpi req call ⊎ (is_call_of ir mpi.mpi_finalize call ≡ true)))

  module _ (zeros : HasZeros ir indexing mpi) where
    get_corresponding_wait-EndsScope :
        (operation : ℕ)
        → Ensured (All (EndsScope operation)) (get_corresponding_wait ir indexing mpi operation)
    unfolding get_corresponding_wait
    get_corresponding_wait-EndsScope operation =
        let Q = All (EndsScope operation) in
        Ensured-bind (λ req. request_operand ir indexing mpi operation ≡ some req) Q _ _
          (Ensured-self (request_operand ir indexing mpi operation))
          (λ req is_req.
            Ensured-bind (All (WaitsFor ir indexing mpi req)) Q _ _ (waits_for-WaitsFor zeros req)
              (λ waits h. Ensured-assert Q _ _ (
                Ensured-bind (All (λ call. is_call_of ir mpi.mpi_finalize call ≡ true)) Q _ _
                  (finalize_calls-All ir mpi (ir.users mpi.mpi_finalize))
                  (λ finalizes k.
                    All-append (EndsScope operation) waits finalizes
                      (All-map _ _ waits (λ call w. (req, (is_req, inl w))) h)
                      (All-map _ _ finalizes (λ call w. (req, (is_req, inr w))) k)))))

    -- Every call that is taken for the end of the scope of a nonblocking operation waits for its
    -- request, alone, by an element of the array that the request is in, or by a part of the array that
    -- covers it, or is a call of MPI_Finalize.
    pub get_scope_endings-EndsScope :
        (operation call : ℕ) (endings : List ℕ)
        → contains (ir.get_called_function operation) (
            mpi.mpi_irecv ∷ mpi.mpi_isend ∷ mpi.mpi_iallreduce ∷ mpi.mpi_ibarrier ∷ mpi.mpi_issend
            ∷ [])
          ≡ true
        → get_scope_endings ir indexing mpi operation ≡ some endings
        → contains call endings ≡ true
        → EndsScope operation call
    unfolding get_scope_endings
    get_scope_endings-EndsScope operation call endings kind e m =
        All-found (EndsScope operation) call endings
          (Ensured_result (All (EndsScope operation))
            (get_corresponding_wait ir indexing mpi operation) endings
            (get_corresponding_wait-EndsScope operation) (ground (arith, kind, e)))
          m
