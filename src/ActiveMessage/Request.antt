-- ===== src/ActiveMessage/Request.antt =====
-- The persistent request of one-sided-persistent.c. Its types have the numbers of the other variant,
-- whose `RequestType` and `Comm` serve here too.
use mpi_comp_match.Base.{ℕ, Bool, false, ◌^◌}
use mpi_comp_match.Rendezvous.Request.{RequestType, uninitialized, Comm, comm_world}

-- `ucp_request_param.flags`: UCP_AM_SEND_FLAG_RNDV, or none.
pub data SendFlag : Type 0 where
  no_flag : SendFlag
  rendezvous : SendFlag

-- A pointer or a handle is a number; 0 is NULL and MPI_REQUEST_NULL. Under USE_RENDEZVOUS,
-- `list_of_pending_msgs` is the descriptor of a message that has come in, or NULL.
pub record Request : Type 0 where
  pub am_id : ℕ
  pub ucx_request_data_transfer : ℕ
  pub buf : ℕ
  pub size : ℕ
  pub type : RequestType
  pub is_ready_to_recv : Bool
  pub list_of_pending_msgs : ℕ
  pub ep : ℕ
  pub backup_request : ℕ
  -- `am_handler.id`
  pub am_handler_id : ℕ
  pub send_flag : SendFlag
  pub tag : ℕ
  pub dest : ℕ
  pub comm : Comm
  pub rdma_exchange_request : ℕ

-- memset(request, 0, sizeof(MPIOPT_Request))
abbrev pub zeroed : Request
zeroed = record {
  am_id = 0;
  ucx_request_data_transfer = 0;
  buf = 0;
  size = 0;
  type = uninitialized;
  is_ready_to_recv = false;
  list_of_pending_msgs = 0;
  ep = 0;
  backup_request = 0;
  am_handler_id = 0;
  send_flag = no_flag;
  tag = 0;
  dest = 0;
  comm = comm_world;
  rdma_exchange_request = 0;
}

-- ULONG_MAX + 1
abbrev pub ulong_limit : ℕ
ulong_limit = 2 ^ 64

-- An unsigned int, which UCX takes for the id of a handler.
abbrev pub uint_limit : ℕ
uint_limit = 2 ^ 32
