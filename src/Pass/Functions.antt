-- ===== src/Pass/Functions.antt =====
-- mpi_functions.cpp: which functions are those of MPI, and which of them send and receive.
use mpi_comp_match.Base.{ℕ, Bool, false, ◌||◌, ◌==◌, not, if◌then◌else◌}
use mpi_comp_match.Pass.Llvm.{Llvm}

-- The replacements, MPIOPT_Wait and so on.
pub record OptimizedFunctions : Type 0 where
  pub init : ℕ
  pub finalize : ℕ
  pub mpi_wait : ℕ
  pub mpi_start : ℕ
  pub mpi_send_init : ℕ
  pub mpi_recv_init : ℕ
  pub mpi_request_free : ℕ

-- The functions of MPI that the module declares; null where it does not.
pub record MpiFunctions : Type 0 where
  pub mpi_init : ℕ
  pub mpi_init_thread : ℕ
  pub mpi_finalize : ℕ
  pub mpi_send : ℕ
  pub mpi_bsend : ℕ
  pub mpi_ssend : ℕ
  pub mpi_rsend : ℕ
  pub mpi_isend : ℕ
  pub mpi_ibsend : ℕ
  pub mpi_issend : ℕ
  pub mpi_irsend : ℕ
  pub mpi_sendrecv : ℕ
  pub mpi_recv : ℕ
  pub mpi_irecv : ℕ
  pub mpi_test : ℕ
  pub mpi_wait : ℕ
  pub mpi_waitall : ℕ
  pub mpi_buffer_detach : ℕ
  pub mpi_barrier : ℕ
  pub mpi_allreduce : ℕ
  pub mpi_ibarrier : ℕ
  pub mpi_iallreduce : ℕ
  pub mpi_start : ℕ
  pub mpi_send_init : ℕ
  pub mpi_recv_init : ℕ
  pub mpi_request_free : ℕ
  pub optimized : OptimizedFunctions

module _ (ir : Llvm) where
  unfoldable pub is_mpi_function : ℕ → Bool
  is_mpi_function f = if not (f == 0) then ir.name_contains_mpi f else false

  unfoldable pub is_mpi_call : ℕ → Bool
  unfolding is_mpi_function
  is_mpi_call call = is_mpi_function (ir.get_called_function call)

module _ (mpi : MpiFunctions) where
  -- Both assert that f is not null, which holds wherever is_mpi_call has been asked before.
  unfoldable pub is_send_function : ℕ → Bool
  is_send_function f =
      f == mpi.mpi_send
      || f == mpi.mpi_bsend
      || f == mpi.mpi_ssend
      || f == mpi.mpi_rsend
      || f == mpi.mpi_isend
      || f == mpi.mpi_ibsend
      || f == mpi.mpi_irsend
      || f == mpi.mpi_issend
      || f == mpi.mpi_sendrecv
      || f == mpi.mpi_send_init

  unfoldable pub is_recv_function : ℕ → Bool
  is_recv_function f =
      f == mpi.mpi_recv || f == mpi.mpi_irecv || f == mpi.mpi_sendrecv || f == mpi.mpi_recv_init
