-- ===== src/Rendezvous/Wait.antt =====
-- Completion of an operation: `e_send`, `e_recv`, the waits of a request that still searches for
-- its connection, and `MPIOPT_Wait`. Every loop that waits for the library or for the other process
-- takes fuel.
pub mod Hang
pub mod Complete
pub mod Send
use mpi_comp_match.Base.{
  ℕ, zero, suc, ◌+◌, ◌%◌, ◌^◌, Bool, true, false, ltb, ◌==◌, ◌&&◌, if◌then◌else◌, not,
}
use mpi_comp_match.Rendezvous.Request.{
  Request, RequestType, uninitialized, recv_request_type, send_request_type,
  send_request_type_search_for_rdma_connection, recv_request_type_search_for_rdma_connection,
  send_request_type_use_fallback, recv_request_type_use_fallback, rdma_spin_wait_threshold, is_send,
}
use mpi_comp_match.Rendezvous.Library.{
  Library, mpi_status_ignore, ucp_worker_progress, mpi_iprobe, mpi_wait,
}
use mpi_comp_match.Rendezvous.Machine.{
  M, State, done, out_of_fuel, assertion_failed, ◌>>=◌, ◌>>◌, pure, fail, when, assert, load,
  modify, call, call_,
}
use mpi_comp_match.Rendezvous.Transfer.{
  started_value, finished_value, b_recv, wait_for_completion_blocking,
}
use mpi_comp_match.Rendezvous.Handshake.{is_searching}
use mpi_comp_match.Rendezvous.Progress.{
  is_recv_searching, post_backup_recv, test_backup, progress_request_waiting_for_rdma,
  progress_other_requests,
}

module _ {World : Type 0} ⦃lib : Library World⦄ where
  -- Wait for a pending flush, and forget it.
  unfoldable pub complete_flag_transfer : ℕ → ℕ → M World (Unit {0})
  complete_flag_transfer fuel p = do
    r ← load p
    when (not (r.ucx_request_flag_transfer == 0)) (do
      wait_for_completion_blocking fuel r.ucx_request_flag_transfer
      modify p (λ r. record r { ucx_request_flag_transfer = 0 }))

  unfoldable pub complete_data_transfer : ℕ → ℕ → M World (Unit {0})
  complete_data_transfer fuel p = do
    r ← load p
    when (not (r.ucx_request_data_transfer == 0)) (do
      wait_for_completion_blocking fuel r.ucx_request_data_transfer
      modify p (λ r. record r { ucx_request_data_transfer = 0 }))

  -- The busy wait, with the rounds that `count` has left below the threshold.
  unfoldable pub spin_until : (Request → M World ℕ) → ℕ → ℕ → M World (Unit {0})
  spin_until target zero p = pure tt
  spin_until target (suc rounds) p = do
    r ← load p
    value ← target r
    when (ltb r.flag value) (do call_ ucp_worker_progress; spin_until target rounds p)

  -- The loop that progresses the other requests as long as the flag is below its target.
  unfoldable pub progress_until : (Request → M World ℕ) → ℕ → ℕ → M World (Unit {0})
  progress_until target zero p = fail out_of_fuel
  progress_until target (suc fuel) p = do
    r ← load p
    value ← target r
    when (ltb r.flag value)
        (do progress_other_requests fuel p; call_ ucp_worker_progress; progress_until target fuel p)

  unfoldable pub e_send : ℕ → ℕ → M World (Unit {0})
  e_send fuel p = do
    complete_flag_transfer fuel p
    complete_data_transfer fuel p
    spin_until finished_value rdma_spin_wait_threshold p
    progress_until finished_value fuel p

  -- unsigned int
  unfoldable pub count_crosstalk : M World (Unit {0})
  count_crosstalk s = done tt (record s { crosstalk_counter = (s.crosstalk_counter + 1) % 2 ^ 32 })

  -- What `e_recv` does where the flag says that both sides have offered.
  unfoldable pub resolve_crosstalk : ℕ → ℕ → M World (Unit {0})
  resolve_crosstalk fuel p = do
    r ← load p
    started ← started_value r
    when (r.flag == started) (do b_recv p; complete_data_transfer fuel p; count_crosstalk)

  unfoldable pub e_recv : ℕ → ℕ → M World (Unit {0})
  e_recv fuel p = do
    complete_flag_transfer fuel p
    complete_data_transfer fuel p
    spin_until started_value rdma_spin_wait_threshold p
    progress_until started_value fuel p
    resolve_crosstalk fuel p

  -- `request->type = ...` of the sender, once the connection is there
  unfoldable pub switch_to_rdma_send : ℕ → M World (Unit {0})
  switch_to_rdma_send p = do
    r ← load p
    when (not (r.remote_data_addr == 0)) (modify p (λ r. record r { type = send_request_type }))

  unfoldable pub wait_send_loop : ℕ → ℕ → M World (Unit {0})
  wait_send_loop zero p = fail out_of_fuel
  wait_send_loop (suc fuel) p = do
    progress_request_waiting_for_rdma (progress_other_requests fuel) fuel p
    switch_to_rdma_send p
    flag ← test_backup p
    progress_other_requests fuel p
    if flag then pure tt else wait_send_loop fuel p

  -- The test `request->type != SEND_REQUEST_TYPE` behind the loop.
  unfoldable pub fall_back_unless : RequestType → ℕ → M World (Unit {0})
  fall_back_unless send_request_type p = pure tt
  fall_back_unless _ p = modify p (λ r. record r { type = send_request_type_use_fallback })

  unfoldable pub wait_send_when_searching_for_connection : ℕ → ℕ → M World (Unit {0})
  unfolding wait_send_loop fall_back_unless
  wait_send_when_searching_for_connection fuel p = do
    r ← load p
    assert (r.operation_number == 1)
    wait_send_loop fuel p
    r ← load p
    fall_back_unless r.type p
    r ← load p
    assert (not (is_searching r.type && is_send r.type))

  -- Probe for the payload until it or the handshake is there; `flag` is the last probe's.
  unfoldable pub wait_recv_loop : ℕ → ℕ → Bool → M World (Unit {0})
  wait_recv_loop zero p flag = fail out_of_fuel
  wait_recv_loop (suc fuel) p flag = do
    r ← load p
    when (r.remote_data_addr == 0 && not flag) (do
      probe ← call (mpi_iprobe r.dest r.tag r.comm)
      progress_other_requests fuel p
      progress_request_waiting_for_rdma (progress_other_requests fuel) fuel p
      wait_recv_loop fuel p (not (probe.value == 0)))

  unfoldable pub wait_backup_loop : ℕ → ℕ → M World (Unit {0})
  wait_backup_loop zero p = fail out_of_fuel
  wait_backup_loop (suc fuel) p = do
    flag ← test_backup p
    progress_other_requests fuel p
    if flag then pure tt else wait_backup_loop fuel p

  -- The type that the receiver keeps for all later operations.
  unfoldable pub settle_recv_type : ℕ → M World (Unit {0})
  settle_recv_type p = do
    r ← load p
    modify p (λ r'. record r' {
      type = if r.remote_data_addr == 0 then recv_request_type_use_fallback else recv_request_type;
    })

  unfoldable pub wait_recv_when_searching_for_connection : ℕ → ℕ → M World (Unit {0})
  unfolding wait_recv_loop wait_backup_loop settle_recv_type
  wait_recv_when_searching_for_connection fuel p = do
    r ← load p
    assert (r.operation_number == 1)
    wait_recv_loop fuel p false
    r ← load p
    when (r.backup_request == 0) (post_backup_recv p)
    settle_recv_type p
    wait_backup_loop fuel p
    r ← load p
    assert (not (is_recv_searching r.type))

  -- MPI_Wait on `backup_request`, which sets the handle
  unfoldable pub wait_backup : ℕ → M World (Unit {0})
  wait_backup p = do
    r ← load p
    reply ← call (mpi_wait r.backup_request)
    modify p (λ r. record r { backup_request = reply.handle })

  unfoldable pub wait_send_as : RequestType → ℕ → ℕ → M World (Unit {0})
  wait_send_as send_request_type fuel p = e_send fuel p
  wait_send_as send_request_type_search_for_rdma_connection fuel p =
      wait_send_when_searching_for_connection fuel p
  wait_send_as send_request_type_use_fallback fuel p = wait_backup p
  wait_send_as _ fuel p = fail assertion_failed

  unfoldable pub wait_recv_as : RequestType → ℕ → ℕ → M World (Unit {0})
  wait_recv_as recv_request_type fuel p = e_recv fuel p
  wait_recv_as recv_request_type_search_for_rdma_connection fuel p =
      wait_recv_when_searching_for_connection fuel p
  wait_recv_as recv_request_type_use_fallback fuel p = wait_backup p
  wait_recv_as _ fuel p = fail assertion_failed

  unfoldable pub mpiopt_wait_send_internal : ℕ → ℕ → ℕ → M World (Unit {0})
  mpiopt_wait_send_internal fuel p status = do
    assert (status == mpi_status_ignore)
    r ← load p
    wait_send_as r.type fuel p

  unfoldable pub mpiopt_wait_recv_internal : ℕ → ℕ → ℕ → M World (Unit {0})
  mpiopt_wait_recv_internal fuel p status = do
    assert (status == mpi_status_ignore)
    r ← load p
    wait_recv_as r.type fuel p

  unfoldable pub mpiopt_wait_internal : ℕ → ℕ → ℕ → M World (Unit {0})
  mpiopt_wait_internal fuel p status = do
    assert (status == mpi_status_ignore)
    r ← load p
    if is_send r.type
        then mpiopt_wait_send_internal fuel p status
        else mpiopt_wait_recv_internal fuel p status
