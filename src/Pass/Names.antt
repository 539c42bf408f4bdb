-- ===== src/Pass/Names.antt =====
-- get_used_mpi_functions of mpi_functions.cpp: the functions of MPI are found by their names.
pub mod Resolved
pub mod Renamed
use mpi_comp_match.Base.{
  ℕ, String, equals, Bool, false, List, [], ◌∷◌, ◌||◌, ◌&&◌, not, ◌==◌, ltb, length, if◌then◌else◌,
}
use mpi_comp_match.Pass.Llvm.{Llvm}
use mpi_comp_match.Pass.Functions.{OptimizedFunctions, MpiFunctions}

-- The names of the module, and what it inserts.
pub record Names : Type 0 where
  pub get_name : ℕ → String
  -- the function of this name, with the type of another function, or with no parameters and no
  -- result in the place of null
  pub get_or_insert_function : String → ℕ → ℕ

module _ (names : Names) where
  -- This function, if it has the name.
  abbrev pub if_named : String → (f old : ℕ) → ℕ
  if_named name f old = if equals (names.get_name f) name then f else old

  -- The names are distinct, so that each is tested on its own.
  unfoldable pub note_function : ℕ → MpiFunctions → MpiFunctions
  note_function f result = record {
    mpi_init = if_named "MPI_Init" f result.mpi_init;
    mpi_init_thread = if_named "MPI_Init_thread" f result.mpi_init_thread;
    mpi_finalize = if_named "MPI_Finalize" f result.mpi_finalize;
    mpi_send = if_named "MPI_Send" f result.mpi_send;
    mpi_bsend = if_named "MPI_Bsend" f result.mpi_bsend;
    mpi_ssend = if_named "MPI_Ssend" f result.mpi_ssend;
    mpi_rsend = if_named "MPI_Rsend" f result.mpi_rsend;
    mpi_isend = if_named "MPI_Isend" f result.mpi_isend;
    mpi_ibsend = if_named "MPI_Ibsend" f result.mpi_ibsend;
    mpi_issend = if_named "MPI_Issend" f result.mpi_issend;
    mpi_irsend = if_named "MPI_Irsend" f result.mpi_irsend;
    mpi_sendrecv = if_named "MPI_Sendrecv" f result.mpi_sendrecv;
    mpi_recv = if_named "MPI_Recv" f result.mpi_recv;
    mpi_irecv = if_named "MPI_Irecv" f result.mpi_irecv;
    mpi_test = if_named "MPI_Test" f result.mpi_test;
    mpi_wait = if_named "MPI_Wait" f result.mpi_wait;
    mpi_waitall = if_named "MPI_Waitall" f result.mpi_waitall;
    mpi_buffer_detach = if_named "MPI_Buffer_detach" f result.mpi_buffer_detach;
    mpi_barrier = if_named "MPI_Barrier" f result.mpi_barrier;
    mpi_allreduce = if_named "MPI_Allreduce" f result.mpi_allreduce;
    mpi_ibarrier = if_named "MPI_Ibarrier" f result.mpi_ibarrier;
    mpi_iallreduce = if_named "MPI_Iallreduce" f result.mpi_iallreduce;
    mpi_start = if_named "MPI_Start" f result.mpi_start;
    mpi_send_init = if_named "MPI_Send_init" f result.mpi_send_init;
    mpi_recv_init = if_named "MPI_Recv_init" f result.mpi_recv_init;
    mpi_request_free = if_named "MPI_Request_free" f result.mpi_request_free;
    optimized = result.optimized;
  }

  -- The loop over the functions of the module.
  unfoldable pub note_functions : List ℕ → MpiFunctions → MpiFunctions
  unfolding note_function
  note_functions [] result = result
  note_functions (f ∷ rest) result = note_functions rest (note_function f result)

  -- The replacement, where the original is declared.
  abbrev pub optimized_version : String → ℕ → ℕ
  optimized_version name original =
      if original == 0 then 0 else names.get_or_insert_function name original

  unfoldable pub insert_optimized : MpiFunctions → OptimizedFunctions
  insert_optimized result =
      let no_mpi =
        result.mpi_init == 0 && (result.mpi_init_thread == 0 && result.mpi_finalize == 0) in
      record {
        mpi_wait = optimized_version "MPIOPT_Wait" result.mpi_wait;
        mpi_start = optimized_version "MPIOPT_Start" result.mpi_start;
        mpi_send_init = optimized_version "MPIOPT_Send_init" result.mpi_send_init;
        mpi_recv_init = optimized_version "MPIOPT_Recv_init" result.mpi_recv_init;
        mpi_request_free = optimized_version "MPIOPT_Request_free" result.mpi_request_free;
        init = if no_mpi then 0 else names.get_or_insert_function "MPIOPT_INIT" 0;
        finalize = if no_mpi then 0 else names.get_or_insert_function "MPIOPT_FINALIZE" 0;
      }

abbrev pub no_optimized : OptimizedFunctions
no_optimized = record {
  init = 0;
  finalize = 0;
  mpi_wait = 0;
  mpi_start = 0;
  mpi_send_init = 0;
  mpi_recv_init = 0;
  mpi_request_free = 0;
}

-- Each pointer is null at first.
abbrev pub no_functions : MpiFunctions
no_functions = record {
  mpi_init = 0;
  mpi_init_thread = 0;
  mpi_finalize = 0;
  mpi_send = 0;
  mpi_bsend = 0;
  mpi_ssend = 0;
  mpi_rsend = 0;
  mpi_isend = 0;
  mpi_ibsend = 0;
  mpi_issend = 0;
  mpi_irsend = 0;
  mpi_sendrecv = 0;
  mpi_recv = 0;
  mpi_irecv = 0;
  mpi_test = 0;
  mpi_wait = 0;
  mpi_waitall = 0;
  mpi_buffer_detach = 0;
  mpi_barrier = 0;
  mpi_allreduce = 0;
  mpi_ibarrier = 0;
  mpi_iallreduce = 0;
  mpi_start = 0;
  mpi_send_init = 0;
  mpi_recv_init = 0;
  mpi_request_free = 0;
  optimized = no_optimized;
}

module _ (ir : Llvm) where
  -- The lists of calls, which the code leaves empty, are left out.
  unfoldable pub get_used_mpi_functions : Names → MpiFunctions
  unfolding note_functions insert_optimized
  get_used_mpi_functions names =
      let result = note_functions names ir.functions no_functions in
      record result { optimized = insert_optimized names result }

  -- This function is never called, and neither is the next.
  unfoldable pub is_mpi_used : MpiFunctions → Bool
  is_mpi_used mpi =
      if not (mpi.mpi_init == 0) then ltb 0 (length (ir.users mpi.mpi_init)) else false

  abbrev calls_of : (f : ℕ) → List ℕ → List ℕ
  calls_of f [] = []
  calls_of f (user ∷ rest) =
      if ir.is_call user && ir.get_called_function user == f
      then user ∷ calls_of f rest
      else calls_of f rest

  unfoldable pub gather_all_calls : ℕ → List ℕ
  gather_all_calls f = if not (f == 0) then calls_of f (ir.users f) else []
