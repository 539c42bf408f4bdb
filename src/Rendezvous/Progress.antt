-- ===== src/Rendezvous/Progress.antt =====
-- Progress of the other requests while one is waited for: `progress_request_waiting_for_rdma`,
-- `progress_request`, `progress_other_requests`. A handshake that is received progresses the other
-- requests in turn; the depth of that nesting, and the rounds of its loop, are bounded by fuel.
use mpi_comp_match.Base.{ℕ, zero, suc, Bool, true, false, List, [], ◌∷◌, ◌==◌, ◌&&◌, not}
use mpi_comp_match.Rendezvous.Request.{
  RequestType, uninitialized, recv_request_type, send_request_type,
  send_request_type_search_for_rdma_connection, recv_request_type_search_for_rdma_connection,
  send_request_type_use_fallback, recv_request_type_use_fallback,
}
use mpi_comp_match.Rendezvous.Library.{Library, mpi_iprobe, mpi_irecv, mpi_test}
use mpi_comp_match.Rendezvous.Machine.{
  M, get, out_of_fuel, assertion_failed, ◌>>=◌, ◌>>◌, pure, fail, when, assert, load, modify, call,
}
use mpi_comp_match.Rendezvous.Transfer.{progress_recv_request}
use mpi_comp_match.Rendezvous.Handshake.{is_searching, comm_to_receive, receive_rdma_info}

abbrev pub is_recv_searching : RequestType → Bool
is_recv_searching recv_request_type_search_for_rdma_connection = true
is_recv_searching _ = false

module _ {World : Type 0} ⦃lib : Library World⦄ where
  -- MPI_Irecv of the payload into the buffer, which sets `backup_request`
  unfoldable pub post_backup_recv : ℕ → M World (Unit {0})
  post_backup_recv p = do
    r ← load p
    reply ← call (mpi_irecv r.buf r.size r.dest r.tag r.comm)
    modify p (λ r. record r { backup_request = reply.handle })

  -- MPI_Test on `backup_request`, which sets the handle
  unfoldable pub test_backup : ℕ → M World Bool
  test_backup p = do
    r ← load p
    reply ← call (mpi_test r.backup_request)
    modify p (λ r. record r { backup_request = reply.handle })
    pure (not (reply.value == 0))

  -- The first statement: look for the handshake while there is no connection.
  unfoldable pub look_for_handshake : (ℕ → M World (Unit {0})) → ℕ → ℕ → M World (Unit {0})
  look_for_handshake others fuel p = do
    r ← load p
    when (r.remote_data_addr == 0) (do
      assert (is_searching r.type)
      flag ← call (mpi_iprobe r.dest r.tag (comm_to_receive r.type))
      when (not (flag.value == 0)) (receive_rdma_info others fuel p))

  -- The second statement: an active receive with a connection posts its receive.
  unfoldable pub post_matching_recv : ℕ → M World (Unit {0})
  unfolding post_backup_recv
  post_matching_recv p = do
    r ← load p
    when
        (not (r.remote_data_addr == 0)
          && (is_recv_searching r.type && (r.backup_request == 0 && r.operation_number == 1)))
        (post_backup_recv p)

  unfoldable pub progress_request_waiting_for_rdma :
      (ℕ → M World (Unit {0})) → ℕ → ℕ → M World (Unit {0})
  progress_request_waiting_for_rdma others fuel p = do
    look_for_handshake others fuel p
    post_matching_recv p

  -- The action for each type of request.
  unfoldable pub progress_as : RequestType → (ℕ → M World (Unit {0})) → ℕ → ℕ → M World (Unit {0})
  progress_as send_request_type others fuel p = pure tt
  progress_as recv_request_type others fuel p = progress_recv_request p
  progress_as send_request_type_search_for_rdma_connection others fuel p =
      progress_request_waiting_for_rdma others fuel p
  progress_as recv_request_type_search_for_rdma_connection others fuel p =
      progress_request_waiting_for_rdma others fuel p
  progress_as send_request_type_use_fallback others fuel p = do flag ← test_backup p; pure tt
  progress_as recv_request_type_use_fallback others fuel p = do flag ← test_backup p; pure tt
  progress_as uninitialized others fuel p = fail assertion_failed

  unfoldable pub progress_request : (ℕ → M World (Unit {0})) → ℕ → ℕ → M World (Unit {0})
  unfolding progress_as
  progress_request others fuel p = do r ← load p; progress_as r.type others fuel p

  -- The walk along the list of requests.
  unfoldable pub progress_list : (ℕ → M World (Unit {0})) → ℕ → ℕ → List ℕ → M World (Unit {0})
  progress_list others fuel current [] = pure tt
  progress_list others fuel current (q ∷ rest) = do
    when (not (q == current)) (progress_request others fuel q)
    progress_list others fuel current rest

  unfoldable pub progress_other_requests : ℕ → ℕ → M World (Unit {0})
  progress_other_requests zero current = fail out_of_fuel
  progress_other_requests (suc fuel) current = do
    l ← get (λ s. s.request_list)
    progress_list (progress_other_requests fuel) fuel current l
