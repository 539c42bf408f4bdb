-- ===== src/ActiveMessage/Library.antt =====
-- What one-sided-persistent.c calls and does not implement: UCX, MPI and the allocator, as a
-- parameter that answers each call.
use mpi_comp_match.Base.{ℕ, Bool, List, Option}
use mpi_comp_match.Rendezvous.Request.{Comm}
use mpi_comp_match.ActiveMessage.Request.{SendFlag}

-- What an MPI message carries: the buffer of the application, or an AM_ID with its value.
pub data Payload : Type 0 where
  buffer : (address size : ℕ) → Payload
  am_id_value : ℕ → Payload

-- A call with the arguments that the source passes. A handler is registered for a request, or taken
-- away (`cb` and `arg` NULL).
pub data Call : Type 0 where
  ucp_am_send_nbx : (ep am_id buf size : ℕ) → SendFlag → Call
  ucp_am_recv_data_nbx : (descriptor buf size : ℕ) → SendFlag → Call
  ucp_worker_set_am_recv_handler : (id : ℕ) → (request : Option ℕ) → Call
  ucp_worker_progress : Call
  ucp_request_check_status : (handle : ℕ) → Call
  ucp_request_free : (handle : ℕ) → Call
  osc_ucx_get_ep : (dest : ℕ) → Call
  mpi_issend : Payload → (dest tag : ℕ) → Comm → Call
  mpi_isend : Payload → (dest tag : ℕ) → Comm → Call
  mpi_irecv : (buf size dest tag : ℕ) → Comm → Call
  -- MPI_Irecv of one unsigned long into the AM_ID of a request
  mpi_irecv_am_id : (request dest tag : ℕ) → Comm → Call
  mpi_test : (handle : ℕ) → Call
  mpi_wait : (handle : ℕ) → Call
  mpi_comm_rank : Comm → Call
  mpi_comm_size : Comm → Call
  mpi_comm_dup : Comm → Call
  mpi_comm_free : Comm → Call
  mpi_win_create : Call
  mpi_win_free : Call
  malloc_request : Call

-- A message for which the library runs the handler of a request.
pub record Incoming : Type 0 where
  pub request : ℕ
  pub descriptor : ℕ
  pub length : ℕ
  -- UCP_AM_RECV_ATTR_FLAG_RNDV
  pub is_rendezvous : Bool

-- An answer: the returned value or the out parameter `flag`; the handle that the call writes or
-- returns; the values that receives posted earlier have written to the AM_ID of requests; and the
-- messages for which handlers are to run before the call returns.
pub record Reply : Type 0 where
  pub value : ℕ
  pub handle : ℕ
  pub am_ids : List (ℕ × ℕ)
  pub incoming : List Incoming

pub record Library (World : Type 0) : Type 0 where
  pub perform : Call → World → Reply × World
