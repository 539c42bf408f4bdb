-- ===== src/Rendezvous/Request.antt =====
-- The persistent request of one-sided-persistent_two_sided_rendezvous.c, its types and constants.
use mpi_comp_match.Base.{ℕ, List, Bool, true, false}

-- The constants of lines 29 to 34. `uninitialized` stands for any other value of the field.
pub data RequestType : Type 0 where
  uninitialized : RequestType
  recv_request_type : RequestType
  send_request_type : RequestType
  send_request_type_search_for_rdma_connection : RequestType
  recv_request_type_search_for_rdma_connection : RequestType
  send_request_type_use_fallback : RequestType
  recv_request_type_use_fallback : RequestType

-- The test of `MPIOPT_Start_internal` and `MPIOPT_Wait_internal` for the three types of a send.
abbrev pub is_send : RequestType → Bool
is_send send_request_type = true
is_send send_request_type_search_for_rdma_connection = true
is_send send_request_type_use_fallback = true
is_send _ = false

-- The communicators that the file names.
pub data Comm : Type 0 where
  comm_world : Comm
  handshake_communicator : Comm
  handshake_response_communicator : Comm

-- A pointer, a handle or a remote key is a number; 0 is NULL and MPI_REQUEST_NULL.
pub record Request : Type 0 where
  pub flag : ℕ
  pub flag_buffer : ℕ
  pub remote_data_addr : ℕ
  pub remote_flag_addr : ℕ
  pub remote_data_rkey : ℕ
  pub remote_flag_rkey : ℕ
  pub buf : ℕ
  pub size : ℕ
  pub ucx_request_data_transfer : ℕ
  pub ucx_request_flag_transfer : ℕ
  pub operation_number : ℕ
  pub type : RequestType
  pub mem_handle_data : ℕ
  pub mem_handle_flag : ℕ
  pub ep : ℕ
  pub backup_request : ℕ
  pub tag : ℕ
  pub dest : ℕ
  pub comm : Comm
  pub rdma_exchange_request_send : ℕ
  -- the bytes of the buffer, and not its address
  pub rdma_info_buf : List ℕ

abbrev pub rdma_spin_wait_threshold : ℕ
rdma_spin_wait_threshold = 32

-- sizeof(int), sizeof(size_t) and sizeof(uint64_t)
abbrev pub sizeof_int : ℕ
sizeof_int = 4

abbrev pub sizeof_word : ℕ
sizeof_word = 8
