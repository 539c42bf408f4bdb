-- ===== src/ActiveMessage/Lifecycle.antt =====
-- Creation and release: `MPIOPT_INIT`, `MPIOPT_FINALIZE`, `init_request`, `MPIOPT_Send_init`,
-- `MPIOPT_Recv_init` and `MPIOPT_Request_free`.
use mpi_comp_match.Base.{ℕ, Bool, true, false, [], ◌∷◌, none, some, ◌==◌}
use mpi_comp_match.Machine.{done, fault, assertion_failed, ◌>>=◌, ◌>>◌, pure, when, assert}
use mpi_comp_match.Rendezvous.Request.{
  RequestType, recv_request_type, send_request_type_search_for_rdma_connection,
  recv_request_type_search_for_rdma_connection, Comm, comm_world, handshake_communicator,
}
use mpi_comp_match.Rendezvous.Library.{mpi_byte}
use mpi_comp_match.Rendezvous.RequestList.{remove}
use mpi_comp_match.Rendezvous.Lifecycle.{is_world}
use mpi_comp_match.ActiveMessage.Request.{SendFlag, no_flag, rendezvous, zeroed}
use mpi_comp_match.ActiveMessage.Library.{
  Library, ucp_worker_set_am_recv_handler, osc_ucx_get_ep, mpi_comm_rank, mpi_comm_size,
  mpi_comm_dup, mpi_comm_free, mpi_win_create, mpi_win_free, malloc_request,
}
use mpi_comp_match.ActiveMessage.Machine.{M, load, modify, call, call_}
use mpi_comp_match.ActiveMessage.Connection.{send_rdma_info}

-- `ucp_request_param.flags`, by the type of the request
abbrev pub flag_of : RequestType → SendFlag
flag_of send_request_type_search_for_rdma_connection = rendezvous
flag_of _ = no_flag

abbrev pub is_connected_recv : RequestType → Bool
is_connected_recv recv_request_type = true
is_connected_recv _ = false

module _ {World : Type 0} ⦃lib : Library World⦄ where
  unfoldable pub add_request_to_list : ℕ → M World (Unit {0})
  add_request_to_list p s = done tt (record s { request_list = p ∷ s.request_list })

  -- The walk is that of the other variant.
  unfoldable pub remove_request_from_list : ℕ → M World (Unit {0})
  remove_request_from_list p s = elim (remove p s.request_list) [
    | none ↦ fault assertion_failed
    | some rest ↦ done tt (record s { request_list = rest })
  ]

  unfoldable pub init_request : (buf count datatype dest tag : ℕ) → Comm → ℕ → M World (Unit {0})
  init_request buf count datatype dest tag comm p = do
    assert (datatype == mpi_byte)
    assert (is_world comm)
    call_ (mpi_comm_rank comm)
    call_ (mpi_comm_size comm)
    ep ← call (osc_ucx_get_ep dest)
    modify p (λ r. record r {
      is_ready_to_recv = false;
      ep = ep.handle;
      buf = buf;
      dest = dest;
      size = count;
      tag = tag;
      comm = comm;
      backup_request = 0;
      am_id = 0;
      list_of_pending_msgs = 0;
      send_flag = flag_of r.type;
    })
    send_rdma_info p
    add_request_to_list p

  unfoldable pub mpiopt_recv_init_internal :
      (buf count datatype source tag : ℕ) → Comm → ℕ → M World (Unit {0})
  mpiopt_recv_init_internal buf count datatype source tag comm p = do
    modify p (λ r. zeroed)
    modify p (λ r. record r { type = recv_request_type_search_for_rdma_connection })
    init_request buf count datatype source tag comm p

  unfoldable pub mpiopt_send_init_internal :
      (buf count datatype source tag : ℕ) → Comm → ℕ → M World (Unit {0})
  mpiopt_send_init_internal buf count datatype source tag comm p = do
    modify p (λ r. zeroed)
    modify p (λ r. record r { type = send_request_type_search_for_rdma_connection })
    init_request buf count datatype source tag comm p

  unfoldable pub mpiopt_send_init : (buf count datatype dest tag : ℕ) → Comm → M World ℕ
  mpiopt_send_init buf count datatype dest tag comm = do
    allocated ← call malloc_request
    mpiopt_send_init_internal buf count datatype dest tag comm allocated.handle
    pure allocated.handle

  unfoldable pub mpiopt_recv_init : (buf count datatype source tag : ℕ) → Comm → M World ℕ
  mpiopt_recv_init buf count datatype source tag comm = do
    allocated ← call malloc_request
    mpiopt_recv_init_internal buf count datatype source tag comm allocated.handle
    pure allocated.handle

  unfoldable pub mpiopt_request_free_internal : ℕ → M World (Unit {0})
  mpiopt_request_free_internal p = do
    remove_request_from_list p
    r ← load p
    when (is_connected_recv r.type) (call_ (ucp_worker_set_am_recv_handler r.am_handler_id none))

  -- The new value of the caller's handle, NULL.
  unfoldable pub mpiopt_request_free : ℕ → M World ℕ
  mpiopt_request_free p = do mpiopt_request_free_internal p; pure 0

  unfoldable pub clear_globals : M World (Unit {0})
  clear_globals s = done tt (record s { request_list = []; am_tag = 1 })

  unfoldable pub mpiopt_init : M World (Unit {0})
  unfolding clear_globals
  mpiopt_init = do call_ mpi_win_create; clear_globals; call_ (mpi_comm_dup comm_world)

  unfoldable pub mpiopt_finalize : M World (Unit {0})
  mpiopt_finalize = do call_ mpi_win_free; call_ (mpi_comm_free handshake_communicator)
