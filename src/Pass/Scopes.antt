-- ===== src/Pass/Scopes.antt =====
-- Where the scope of a request ends, in conflict_detection.cpp: get_scope_endings and all that it
-- calls. It is called for the creations of requests only.
pub mod Relation
pub mod Elements
pub mod Waits
pub mod Release
use mpi_comp_match.Base.{
  ℕ, ℤ, ◌+ℤ◌, lebℤ, ltbℤ, is_zeroℤ, Bool, true, false, List, [], ◌∷◌, ◌++◌, none, some, ◌||◌, ◌&&◌,
  not, ◌==◌, if◌then◌else◌,
}
use mpi_comp_match.Pass.Checked.{Checked, ◌>>=◌, ◌>>◌, assert, pure}
use mpi_comp_match.Pass.Llvm.{Llvm}
use mpi_comp_match.Pass.Functions.{MpiFunctions}

-- What is asked of LLVM about pointers into an array, and about constants.
pub record Indexing : Type 0 where
  pub is_get_element_ptr : ℕ → Bool
  pub is_in_bounds : ℕ → Bool
  pub get_pointer_operand : ℕ → ℕ
  pub has_all_constant_indices : ℕ → Bool
  pub indices : ℕ → List ℕ
  -- dyn_cast to ConstantInt, and getSExtValue
  pub is_constant_int : ℕ → Bool
  pub get_sext_value : ℕ → ℤ
  -- ConstantInt::get(index->getType(), 0)
  pub zero_like : ℕ → ℕ

-- begin + num_req > match && match >= begin, which does not overflow
abbrev pub covers : (begin num_req match_index : ℤ) → Bool
covers begin num_req match_index = ltbℤ match_index (begin +ℤ num_req) && lebℤ begin match_index

abbrev pub is_call_of : (ir : Llvm) → (function inst : ℕ) → Bool
is_call_of ir function inst = ir.is_call inst && ir.get_called_function inst == function

module _ (ir : Llvm) (mpi : MpiFunctions) where
  -- The users that release the request.
  unfoldable pub frees_of : (req : ℕ) → List ℕ → Checked (List ℕ)
  frees_of req [] = pure []
  frees_of req (user ∷ rest) =
      if is_call_of ir mpi.mpi_request_free user
      then (do
        assert (ir.get_num_arg_operands user == 1)
        assert (ir.get_arg_operand user 0 == req)
        frees ← frees_of req rest
        pure (user ∷ frees))
      else frees_of req rest

  -- The calls of MPI_Finalize.
  unfoldable pub finalize_calls : List ℕ → Checked (List ℕ)
  finalize_calls [] = pure []
  finalize_calls (user ∷ rest) =
      if ir.is_call user
      then (do
        assert (ir.get_called_function user == mpi.mpi_finalize)
        calls ← finalize_calls rest
        pure (user ∷ calls))
      else finalize_calls rest

  unfoldable pub get_corresponding_free : ℕ → Checked (List ℕ)
  get_corresponding_free call = do
    let f = ir.get_called_function call in assert (f == mpi.mpi_send_init || f == mpi.mpi_recv_init)
    assert (ir.get_num_arg_operands call == 7)
    let req = ir.get_arg_operand call 6 in
        ((if ir.is_alloca req then frees_of req (ir.users req) else pure []) >>= λ frees.
        (if mpi.mpi_finalize == 0 then pure [] else finalize_calls (ir.users mpi.mpi_finalize))
        >>= λ finalizes. pure (frees ++ finalizes))

  -- The users that wait for the request.
  unfoldable pub waits_of : (req : ℕ) → List ℕ → Checked (List ℕ)
  waits_of req [] = pure []
  waits_of req (user ∷ rest) =
      if is_call_of ir mpi.mpi_wait user
      then (do
        assert (ir.get_num_arg_operands user == 2)
        assert (ir.get_arg_operand user 0 == req)
        waits ← waits_of req rest
        pure (user ∷ waits))
      else waits_of req rest

  -- The calls of MPI_Buffer_detach.
  unfoldable pub detach_calls : List ℕ → Checked (List ℕ)
  detach_calls [] = pure []
  detach_calls (user ∷ rest) =
      if ir.is_call user
      then (do
        assert (ir.get_called_function user == mpi.mpi_buffer_detach)
        calls ← detach_calls rest
        pure (user ∷ calls))
      else detach_calls rest

module _ (ir : Llvm) (indexing : Indexing) (mpi : MpiFunctions) where
  abbrev pub value : ℕ → ℤ
  value = indexing.get_sext_value

  unfoldable pub is_waitall_matching : (begin_index match_index call : ℕ) → Checked Bool
  is_waitall_matching begin_index match_index call = do
    assert (ir.same_type begin_index match_index)
    assert (ir.get_called_function call == mpi.mpi_waitall)
    assert (ir.get_num_arg_operands call == 3)
    let count = ir.get_arg_operand call 0 in
        (if indexing.is_constant_int count
          then pure (covers (value begin_index) (value count) (value match_index))
          else pure false)

  -- A call that is given the elements of the array from `begin_index` on.
  unfoldable pub matches_from :
      (begin_index index : ℕ) (is_same : Bool) (call : ℕ) → Checked (List ℕ)
  unfolding is_waitall_matching
  matches_from begin_index index is_same call = do
    matching ←
        (if ir.get_called_function call == mpi.mpi_waitall
          then is_waitall_matching begin_index index call
          else pure false)
    pure (
        (if ir.get_called_function call == mpi.mpi_wait && is_same then call ∷ [] else [])
        ++ (if matching then call ∷ [] else []))

  -- The users of a pointer to one element.
  unfoldable pub uses_of_element : (begin_index index : ℕ) (users : List ℕ) → Checked (List ℕ)
  unfolding matches_from
  uses_of_element begin_index index [] = pure []
  uses_of_element begin_index index (u2 ∷ rest) = do
    found ←
        (if ir.is_call u2
          then matches_from begin_index index (index == begin_index) u2
          else pure [])
    others ← uses_of_element begin_index index rest
    pure (found ++ others)

  -- Where the structure is simple: the first index is 0, and the second one is in the array.
  unfoldable pub uses_at : (index : ℕ) (indices users : List ℕ) → Checked (List ℕ)
  unfolding uses_of_element
  uses_at index (i0 ∷ index_in_array ∷ []) users =
      if is_zeroℤ (value i0) then uses_of_element index_in_array index users else pure []
  uses_at index _ users = pure []

  unfoldable pub get_matching_waitall : (users : List ℕ) (index : ℕ) → Checked (List ℕ)
  unfolding matches_from uses_at
  get_matching_waitall [] index = pure []
  get_matching_waitall (u ∷ rest) index = do
    found ←
        (if ir.is_call u
          then matches_from (indexing.zero_like index) index (is_zeroℤ (value index)) u
          else (if indexing.is_get_element_ptr u && indexing.has_all_constant_indices u
              then uses_at index (indexing.indices u) (ir.users u)
              else pure []))
    others ← get_matching_waitall rest index
    pure (found ++ others)

  abbrev pub waits_at : (req_array : ℕ) (indices : List ℕ) → Checked (List ℕ)
  waits_at req_array (i0 ∷ index_in_array ∷ []) =
      if is_zeroℤ (value i0)
      then get_matching_waitall (ir.users req_array) index_in_array
      else pure []
  waits_at req_array _ = pure []

  -- The request is a variable, or an element of an array.
  abbrev pub waits_for : (req : ℕ) → Checked (List ℕ)
  waits_for req =
      if ir.is_alloca req
      then waits_of ir mpi req (ir.users req)
      else (if indexing.is_get_element_ptr req
            && (indexing.is_in_bounds req
                && (ir.is_alloca (indexing.get_pointer_operand req)
                    && indexing.has_all_constant_indices req))
          then waits_at (indexing.get_pointer_operand req) (indexing.indices req)
          else pure [])

  -- The operand of a call that is the request.
  unfoldable pub request_operand : ℕ → Checked ℕ
  request_operand call =
      let f = ir.get_called_function call in
      if f == mpi.mpi_ibarrier
      then (do assert (ir.get_num_arg_operands call == 2); pure (ir.get_arg_operand call 1))
      else (do
        assert (
            f == mpi.mpi_isend
            || f == mpi.mpi_ibsend
            || f == mpi.mpi_issend
            || f == mpi.mpi_irsend
            || f == mpi.mpi_irecv
            || f == mpi.mpi_iallreduce)
        assert (ir.get_num_arg_operands call == 7)
        pure (ir.get_arg_operand call 6))

  -- MPI_Finalize is not null, as its users are asked for.
  unfoldable pub get_corresponding_wait : ℕ → Checked (List ℕ)
  unfolding request_operand waits_of get_matching_waitall
  get_corresponding_wait call = do
    req ← request_operand call
    waits ← waits_for req
    assert (not (mpi.mpi_finalize == 0))
    finalizes ← finalize_calls ir mpi (ir.users mpi.mpi_finalize)
    pure (waits ++ finalizes)

  -- MPI_Buffer_detach is not null, as its users are asked for.
  unfoldable pub get_scope_endings : ℕ → Checked (List ℕ)
  unfolding get_corresponding_wait
  get_scope_endings call =
      let f = ir.get_called_function call in
      if f == mpi.mpi_irecv
        || f == mpi.mpi_isend
        || f == mpi.mpi_iallreduce
        || f == mpi.mpi_ibarrier
        || f == mpi.mpi_issend
      then get_corresponding_wait call
      else (if f == mpi.mpi_bsend || f == mpi.mpi_ibsend
          then (do
            assert (not (mpi.mpi_buffer_detach == 0))
            detach_calls ir mpi (ir.users mpi.mpi_buffer_detach))
          else (if f == mpi.mpi_send_init || f == mpi.mpi_recv_init
              then get_corresponding_free ir mpi call
              else pure []))
