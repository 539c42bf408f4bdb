-- ===== src/ActiveMessage/Connection.antt =====
-- The first operation of a request: the exchange of the AM_ID, and the choice between active messages
-- and the fallback.
use mpi_comp_match.Base.{ℕ, ◌+◌, ◌%◌, ◌==◌, if◌then◌else◌, not, some, Bool}
use mpi_comp_match.Machine.{done, ◌>>=◌, ◌>>◌, pure, assert, get}
use mpi_comp_match.Rendezvous.Request.{
  RequestType, recv_request_type, send_request_type, recv_request_type_search_for_rdma_connection,
  send_request_type_use_fallback, recv_request_type_use_fallback, handshake_communicator,
}
use mpi_comp_match.Rendezvous.Library.{ucs_ok}
use mpi_comp_match.Rendezvous.Handshake.{is_searching}
use mpi_comp_match.ActiveMessage.Request.{ulong_limit, uint_limit}
use mpi_comp_match.ActiveMessage.Library.{
  Library, buffer, am_id_value, ucp_worker_set_am_recv_handler, ucp_worker_progress, mpi_issend,
  mpi_irecv, mpi_irecv_am_id, mpi_wait, mpi_test,
}
use mpi_comp_match.ActiveMessage.Machine.{M, load, modify, call, call_}

module _ {World : Type 0} ⦃lib : Library World⦄ where
  -- `request->AM_ID = AM_tag; AM_tag++;`, an unsigned long
  unfoldable pub take_am_tag : ℕ → M World (Unit {0})
  take_am_tag p = do
    tag ← get (λ s. s.am_tag)
    modify p (λ r. record r { am_id = tag })
    λ s. done tt (record s { am_tag = (s.am_tag + 1) % ulong_limit })

  -- `am_handler.id` is an unsigned int, and the assignment narrows AM_ID.
  unfoldable pub offer_am_id : ℕ → M World (Unit {0})
  unfolding take_am_tag
  offer_am_id p = do
    take_am_tag p
    r ← load p
    modify p (λ r'. record r' { am_handler_id = r.am_id % uint_limit })
    r ← load p
    status ← call (ucp_worker_set_am_recv_handler r.am_handler_id (some p))
    assert (status.value == ucs_ok)
    call_ ucp_worker_progress
    r ← load p
    reply ← call (mpi_issend (am_id_value r.am_id) r.dest r.tag handshake_communicator)
    modify p (λ r. record r { rdma_exchange_request = reply.handle })

  unfoldable pub await_am_id : ℕ → M World (Unit {0})
  await_am_id p = do
    r ← load p
    reply ← call (mpi_irecv_am_id p r.dest r.tag handshake_communicator)
    modify p (λ r. record r { rdma_exchange_request = reply.handle })

  -- The two branches, by the type of the request.
  unfoldable pub exchange_as : RequestType → ℕ → M World (Unit {0})
  exchange_as recv_request_type_search_for_rdma_connection p = offer_am_id p
  exchange_as _ p = await_am_id p

  unfoldable pub send_rdma_info : ℕ → M World (Unit {0})
  unfolding exchange_as
  send_rdma_info p = do r ← load p; assert (is_searching r.type); exchange_as r.type p

  unfoldable pub start_send_when_searching_for_connection : ℕ → M World (Unit {0})
  start_send_when_searching_for_connection p = do
    r ← load p
    assert (r.backup_request == 0)
    reply ← call (mpi_issend (buffer r.buf r.size) r.dest r.tag r.comm)
    modify p (λ r. record r { backup_request = reply.handle })

  -- MPI_Irecv of the payload into the buffer, which sets `backup_request`
  unfoldable pub start_recv_when_searching_for_connection : ℕ → M World (Unit {0})
  start_recv_when_searching_for_connection p = do
    r ← load p
    reply ← call (mpi_irecv r.buf r.size r.dest r.tag r.comm)
    modify p (λ r. record r { backup_request = reply.handle })

  -- MPI_Wait on `backup_request`, which sets the handle
  unfoldable pub wait_backup : ℕ → M World (Unit {0})
  wait_backup p = do
    r ← load p
    reply ← call (mpi_wait r.backup_request)
    modify p (λ r. record r { backup_request = reply.handle })

  -- MPI_Test on the exchange of the AM_ID, which sets its handle
  unfoldable pub test_exchange : ℕ → M World Bool
  test_exchange p = do
    r ← load p
    reply ← call (mpi_test r.rdma_exchange_request)
    modify p (λ r. record r { rdma_exchange_request = reply.handle })
    pure (not (reply.value == 0))

  unfoldable pub set_type : ℕ → RequestType → M World (Unit {0})
  set_type p type = modify p (λ r. record r { type = type })

  unfoldable pub wait_send_when_searching_for_connection : ℕ → M World (Unit {0})
  unfolding wait_backup test_exchange set_type
  wait_send_when_searching_for_connection p = do
    wait_backup p
    flag ← test_exchange p
    set_type p (if flag then send_request_type else send_request_type_use_fallback)

  unfoldable pub wait_recv_when_searching_for_connection : ℕ → M World (Unit {0})
  unfolding wait_backup test_exchange set_type
  wait_recv_when_searching_for_connection p = do
    wait_backup p
    flag ← test_exchange p
    if flag
        then (do r ← load p; assert (r.rdma_exchange_request == 0); set_type p recv_request_type)
        else set_type p recv_request_type_use_fallback
