-- ===== src/Pass/Scopes/Release.antt =====
-- The calls that end the scope of a persistent request.
use mpi_comp_match.Base.{
  ℕ, ◌≡◌, ap, true, false, List, [], ◌∷◌, ◌++◌, some, ◌||◌, ◌==◌, All, ==_iff, arith, ◌⊎◌, inl, inr,
  Bool-cases,
}
use mpi_comp_match.Pass.Checked.{
  Ensured, Ensured-assert, Ensured-bind, Ensured-checked, Ensured-map, Ensured_result, Ensured-self,
}
use mpi_comp_match.Pass.Llvm.{Llvm}
use mpi_comp_match.Pass.Functions.{MpiFunctions}
use mpi_comp_match.Pass.Search.{contains}
use mpi_comp_match.Pass.Search.Paths.{if_split}
use mpi_comp_match.Pass.Scopes.{
  Indexing, is_call_of, frees_of, finalize_calls, get_corresponding_free, get_scope_endings,
}
use mpi_comp_match.Pass.Scopes.Relation.{All-append, All-map, finalize_calls-All}

contains-append : (x : ℕ) (l m : List ℕ) → contains x m ≡ true → contains x (l ++ m) ≡ true
contains-append x [] m h = h
contains-append x (y ∷ l) m h = let rest = contains-append x l m h in ground (arith, rest)

module _ (ir : Llvm) (mpi : MpiFunctions) where
  -- The call frees this request, or is one of MPI_Finalize.
  abbrev pub Releases : (req call : ℕ) → Type 0
  Releases req call =
      ((is_call_of ir mpi.mpi_request_free call ≡ true) × (ir.get_arg_operand call 0 ≡ req))
      ⊎ (is_call_of ir mpi.mpi_finalize call ≡ true)

  -- Each ending releases the request, and each call of MPI_Finalize is an ending.
  abbrev pub IsScope : (req : ℕ) → List ℕ → Type 0
  IsScope req endings =
      All (Releases req) endings
      × ((call : ℕ)
          → contains call (ir.users mpi.mpi_finalize) ≡ true
          → ir.is_call call ≡ true
          → contains call endings ≡ true)

  frees_of-Releases :
      (req : ℕ) (users : List ℕ) → Ensured (All (Releases req)) (frees_of ir mpi req users)
  unfolding frees_of
  frees_of-Releases req [] = tt
  frees_of-Releases req (u ∷ rest) =
      let Q = All (Releases req) in
      if_split (Ensured Q) (is_call_of ir mpi.mpi_request_free u)
        (λ e. Ensured-assert Q (ir.get_num_arg_operands u == 1) _ (
          Ensured-checked Q (ir.get_arg_operand u 0 == req) _ (λ same.
            Ensured-bind Q Q (frees_of ir mpi req rest) _ (frees_of-Releases req rest)
              (λ frees h. (inl (e, (==_iff _ _).0 same), h)))))
        (λ _. frees_of-Releases req rest)

  finalize_calls_complete :
      (call : ℕ) (users : List ℕ)
      → contains call users ≡ true
      → ir.is_call call ≡ true
      → Ensured (λ l. contains call l ≡ true) (finalize_calls ir mpi users)
  unfolding finalize_calls
  finalize_calls_complete call [] m h = absurd (ground (arith, m))
  finalize_calls_complete call (u ∷ rest) m h =
      let Q : List ℕ → Type 0 = λ l. contains call l ≡ true in
      if_split (Ensured Q) (ir.is_call u)
        (λ is_call.
          Ensured-assert Q (ir.get_called_function u == mpi.mpi_finalize) _
            (elim (Bool-cases (call == u)) [
              | inl same ↦
                  Ensured-bind _ Q (finalize_calls ir mpi rest) _ (Ensured-self _)
                    (λ calls _. ground (arith, same))
              | inr other ↦
                  Ensured-bind Q Q (finalize_calls ir mpi rest) _
                    (finalize_calls_complete call rest (ground (arith, m, other)) h)
                    (λ calls k. ground (arith, k))
            ]))
        (λ no_call. finalize_calls_complete call rest (later no_call) h)
    where
      later : ir.is_call u ≡ false → contains call rest ≡ true
      later no_call = elim (Bool-cases (call == u)) [
        | inl same ↦
            let e = ap ir.is_call ((==_iff call u).0 same) in absurd (ground (arith, no_call, h, e))
        | inr other ↦ ground (arith, m, other)
      ]

  finalize_calls-IsScope :
      (req : ℕ) → Ensured (IsScope req) (finalize_calls ir mpi (ir.users mpi.mpi_finalize))
  finalize_calls-IsScope req =
      let users = ir.users mpi.mpi_finalize in
      let IsCall = All (λ call. is_call_of ir mpi.mpi_finalize call ≡ true) in
      Ensured-map (λ l. finalize_calls ir mpi users ≡ some l) (IsScope req) _
        (λ l e. (
          All-map _ _ l (λ call c. inr c)
              (Ensured_result IsCall _ l (finalize_calls-All ir mpi users) e),
          λ call u c.
              Ensured_result (λ l'. contains call l' ≡ true) _ l
                (finalize_calls_complete call users u c) e,
        ))
        (Ensured-self (finalize_calls ir mpi users))

  get_corresponding_free-IsScope :
      (operation : ℕ)
      → (mpi.mpi_finalize == 0) ≡ false
      → Ensured (IsScope (ir.get_arg_operand operation 6)) (get_corresponding_free ir mpi operation)
  unfolding get_corresponding_free
  get_corresponding_free-IsScope operation declared =
      let req = ir.get_arg_operand operation 6 in
      let Q = IsScope req in
      Ensured-assert Q
        (ir.get_called_function operation == mpi.mpi_send_init
          || ir.get_called_function operation == mpi.mpi_recv_init)
        _
        (Ensured-assert Q (ir.get_num_arg_operands operation == 7) _ (
          Ensured-bind (All (Releases req)) Q _ _
            (if_split (Ensured (All (Releases req))) (ir.is_alloca req)
              (λ _. frees_of-Releases req (ir.users req)) (λ _. tt))
            (λ frees h. rw declared (
              Ensured-bind (IsScope req) Q _ _ (finalize_calls-IsScope req) (λ finalizes k. (
                All-append (Releases req) frees finalizes h k.0,
                λ call u c. contains-append call frees finalizes (k.1 call u c),
              ))))))

  module _ (indexing : Indexing) where
    -- Where the program declares MPI_Finalize, every call that is taken for the end of the scope of a
    -- persistent request frees this request or is one of MPI_Finalize, and every call of MPI_Finalize is
    -- taken for one.
    pub get_scope_endings-IsScope :
        (operation : ℕ) (endings : List ℕ)
        → contains (ir.get_called_function operation) (mpi.mpi_send_init ∷ mpi.mpi_recv_init ∷ [])
          ≡ true
        → contains (ir.get_called_function operation) (
            mpi.mpi_irecv ∷ mpi.mpi_isend ∷ mpi.mpi_iallreduce ∷ mpi.mpi_ibarrier ∷ mpi.mpi_issend
            ∷ mpi.mpi_bsend ∷ mpi.mpi_ibsend ∷ [])
          ≡ false
        → (mpi.mpi_finalize == 0) ≡ false
        → get_scope_endings ir indexing mpi operation ≡ some endings
        → IsScope (ir.get_arg_operand operation 6) endings
    unfolding get_scope_endings
    get_scope_endings-IsScope operation endings kind other declared e =
        Ensured_result (IsScope (ir.get_arg_operand operation 6))
          (get_corresponding_free ir mpi operation) endings
          (get_corresponding_free-IsScope operation declared) (ground (arith, kind, other, e))
