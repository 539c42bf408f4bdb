-- ===== src/Rendezvous/Library.antt =====
-- What the file calls and does not implement: UCX, MPI and the allocator. A call is a value, and
-- the library that answers it is a parameter of every function of the model.
use mpi_comp_match.Base.{ℕ, List}
use mpi_comp_match.Rendezvous.Request.{Comm}

-- The bytes that a message or a put carries: a buffer of the application with its length, the
-- word `flag_buffer` of a request with the value that it has at the call, or the handshake's bytes.
pub data Payload : Type 0 where
  buffer : (address size : ℕ) → Payload
  flag_word : (request value : ℕ) → Payload
  bytes : List ℕ → Payload

-- What is given back to the allocator.
pub data Allocation : Type 0 where
  request : ℕ → Allocation
  rdma_info : ℕ → Allocation

-- A call with the arguments that the source passes.
pub data Call : Type 0 where
  ucp_put_nbi : (ep : ℕ) → Payload → (remote_addr rkey : ℕ) → Call
  ucp_get_nbi : (ep buf size remote_addr rkey : ℕ) → Call
  ucp_worker_fence : Call
  ucp_ep_flush_nb : (ep : ℕ) → Call
  ucp_worker_progress : Call
  ucp_request_check_status : (handle : ℕ) → Call
  ucp_request_free : (handle : ℕ) → Call
  ucp_mem_map : (address length : ℕ) → Call
  ucp_rkey_pack : (memh : ℕ) → Call
  ucp_rkey_buffer_release : List ℕ → Call
  ucp_ep_rkey_unpack : (ep : ℕ) → List ℕ → Call
  ucp_mem_unmap : (memh : ℕ) → Call
  ucp_rkey_destroy : (rkey : ℕ) → Call
  osc_ucx_get_ep : (dest : ℕ) → Call
  mpi_issend : Payload → (dest tag : ℕ) → Comm → Call
  mpi_isend : Payload → (dest tag : ℕ) → Comm → Call
  mpi_irecv : (buf size dest tag : ℕ) → Comm → Call
  mpi_recv : (count dest tag : ℕ) → Comm → Call
  mpi_iprobe : (dest tag : ℕ) → Comm → Call
  mpi_probe : (dest tag : ℕ) → Comm → Call
  mpi_test : (handle : ℕ) → Call
  mpi_wait : (handle : ℕ) → Call
  mpi_comm_rank : Comm → Call
  mpi_comm_size : Comm → Call
  mpi_comm_dup : Comm → Call
  mpi_comm_free : Comm → Call
  mpi_win_create : Call
  mpi_win_free : Call
  malloc_request : Call
  free : Allocation → Call

-- An answer: the returned value or the out parameter `flag` or `count`; the handle, key or pointer
-- that the call writes or returns; the bytes that it delivers; and the writes of other processes to
-- the flags of local requests that have landed by its end.
pub record Reply : Type 0 where
  pub value : ℕ
  pub handle : ℕ
  pub delivered : List ℕ
  pub writes : List (ℕ × ℕ)

-- A library over its own state, with the address of the field `flag` of each request.
pub record Library (World : Type 0) : Type 0 where
  pub perform : Call → World → Reply × World
  pub flag_address : ℕ → ℕ

-- UCS_OK and UCS_INPROGRESS
abbrev pub ucs_ok : ℕ
ucs_ok = 0

abbrev pub ucs_inprogress : ℕ
ucs_inprogress = 1

-- MPI_STATUS_IGNORE
abbrev pub mpi_status_ignore : ℕ
mpi_status_ignore = 0

-- MPI_BYTE, among the datatypes
abbrev pub mpi_byte : ℕ
mpi_byte = 1
