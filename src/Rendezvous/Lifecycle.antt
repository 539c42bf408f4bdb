-- ===== src/Rendezvous/Lifecycle.antt =====
-- Creation and release: `MPIOPT_INIT`, `MPIOPT_FINALIZE`, `init_request`, `MPIOPT_Send_init`,
-- `MPIOPT_Recv_init` and `MPIOPT_Request_free`.
pub mod Release
pub mod Create
use mpi_comp_match.Base.{ℕ, Bool, true, false, List, [], ◌∷◌, ◌==◌}
use mpi_comp_match.Rendezvous.Request.{
  Request, RequestType, uninitialized, recv_request_type, send_request_type,
  send_request_type_search_for_rdma_connection, recv_request_type_search_for_rdma_connection, Comm,
  comm_world, handshake_communicator, handshake_response_communicator,
}
use mpi_comp_match.Rendezvous.Library.{
  Library, request, rdma_info, ucp_mem_unmap, ucp_rkey_destroy, osc_ucx_get_ep, mpi_comm_rank,
  mpi_comm_size, mpi_comm_dup, mpi_comm_free, mpi_win_create, mpi_win_free, malloc_request, free,
  mpi_byte,
}
use mpi_comp_match.Rendezvous.Machine.{
  M, done, ◌>>=◌, ◌>>◌, pure, when, assert, load, modify, get, call, call_,
}
use mpi_comp_match.Rendezvous.RequestList.{add_request_to_list, remove_request_from_list}
use mpi_comp_match.Rendezvous.Handshake.{send_rdma_info}

abbrev pub is_world : Comm → Bool
is_world comm_world = true
is_world _ = false

-- The two types of a request that has found its connection.
abbrev pub is_connected : RequestType → Bool
is_connected recv_request_type = true
is_connected send_request_type = true
is_connected _ = false

abbrev is_empty : List ℕ → Bool
is_empty [] = true
is_empty (_ ∷ _) = false

-- memset(request, 0, sizeof(MPIOPT_Request))
abbrev pub zeroed : Request
zeroed = record {
  flag = 0;
  flag_buffer = 0;
  remote_data_addr = 0;
  remote_flag_addr = 0;
  remote_data_rkey = 0;
  remote_flag_rkey = 0;
  buf = 0;
  size = 0;
  ucx_request_data_transfer = 0;
  ucx_request_flag_transfer = 0;
  operation_number = 0;
  type = uninitialized;
  mem_handle_data = 0;
  mem_handle_flag = 0;
  ep = 0;
  backup_request = 0;
  tag = 0;
  dest = 0;
  comm = comm_world;
  rdma_exchange_request_send = 0;
  rdma_info_buf = [];
}

module _ {World : Type 0} ⦃lib : Library World⦄ where
  unfoldable pub init_request : (buf count datatype dest tag : ℕ) → Comm → ℕ → M World (Unit {0})
  init_request buf count datatype dest tag comm p = do
    assert (datatype == mpi_byte)
    assert (is_world comm)
    call_ (mpi_comm_rank comm)
    call_ (mpi_comm_size comm)
    ep ← call (osc_ucx_get_ep dest)
    modify p (λ r. record r {
      ep = ep.handle;
      buf = buf;
      dest = dest;
      size = count;
      tag = tag;
      comm = comm;
      backup_request = 0;
      remote_data_addr = 0;
    })
    send_rdma_info p
    add_request_to_list p

  unfoldable pub mpiopt_recv_init_internal :
      (buf count datatype source tag : ℕ) → Comm → ℕ → M World (Unit {0})
  mpiopt_recv_init_internal buf count datatype source tag comm p = do
    modify p (λ r. zeroed)
    modify p (λ r. record r { type = recv_request_type_search_for_rdma_connection })
    init_request buf count datatype source tag comm p

  unfoldable pub mpiopt_send_init_internal :
      (buf count datatype source tag : ℕ) → Comm → ℕ → M World (Unit {0})
  mpiopt_send_init_internal buf count datatype source tag comm p = do
    modify p (λ r. zeroed)
    modify p (λ r. record r { type = send_request_type_search_for_rdma_connection })
    init_request buf count datatype source tag comm p

  unfoldable pub mpiopt_send_init : (buf count datatype dest tag : ℕ) → Comm → M World ℕ
  mpiopt_send_init buf count datatype dest tag comm = do
    allocated ← call malloc_request
    mpiopt_send_init_internal buf count datatype dest tag comm allocated.handle
    pure allocated.handle

  unfoldable pub mpiopt_recv_init : (buf count datatype source tag : ℕ) → Comm → M World ℕ
  mpiopt_recv_init buf count datatype source tag comm = do
    allocated ← call malloc_request
    mpiopt_recv_init_internal buf count datatype source tag comm allocated.handle
    pure allocated.handle

  unfoldable pub defer_free : ℕ → M World (Unit {0})
  defer_free p s = done tt (record s { to_free_list = p ∷ s.to_free_list })

  -- What a connected request gives back at once.
  unfoldable pub release_data : ℕ → M World (Unit {0})
  release_data p = do
    r ← load p
    assert (r.ucx_request_data_transfer == 0)
    assert (r.ucx_request_flag_transfer == 0)
    call_ (ucp_mem_unmap r.mem_handle_data)
    call_ (ucp_rkey_destroy r.remote_data_rkey)

  unfoldable pub mpiopt_request_free_internal : ℕ → M World (Unit {0})
  unfolding release_data defer_free
  mpiopt_request_free_internal p = do
    remove_request_from_list p
    r ← load p
    when (is_connected r.type) (release_data p)
    defer_free p

  -- The new value of the caller's handle, NULL.
  unfoldable pub mpiopt_request_free : ℕ → M World ℕ
  mpiopt_request_free p = do mpiopt_request_free_internal p; pure 0

  unfoldable pub clear_lists : M World (Unit {0})
  clear_lists s = done tt (record s { request_list = []; to_free_list = []; crosstalk_counter = 0 })

  unfoldable pub mpiopt_init : M World (Unit {0})
  unfolding clear_lists
  mpiopt_init = do
    call_ mpi_win_create
    clear_lists
    call_ (mpi_comm_dup comm_world)
    call_ (mpi_comm_dup comm_world)

  -- The body of the loop of `MPIOPT_FINALIZE` for one request.
  unfoldable pub release_request : ℕ → M World (Unit {0})
  release_request p = do
    r ← load p
    call_ (free (rdma_info p))
    when (is_connected r.type)
        (do call_ (ucp_mem_unmap r.mem_handle_flag); call_ (ucp_rkey_destroy r.remote_flag_rkey))
    call_ (free (request p))

  unfoldable pub release_all : List ℕ → M World (Unit {0})
  unfolding release_request
  release_all [] = pure tt
  release_all (p ∷ rest) = do release_request p; release_all rest

  unfoldable pub mpiopt_finalize : M World (Unit {0})
  mpiopt_finalize = do
    call_ mpi_win_free
    active ← get (λ s. s.request_list)
    assert (is_empty active)
    deferred ← get (λ s. s.to_free_list)
    release_all deferred
    call_ (mpi_comm_free handshake_communicator)
    call_ (mpi_comm_free handshake_response_communicator)
