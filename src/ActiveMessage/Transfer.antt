-- ===== src/ActiveMessage/Transfer.antt =====
-- The transfer of a connected request: `b_send`, `e_send`, `b_recv`, `e_recv`, as they are compiled
-- under USE_RENDEZVOUS, `wait_for_completion_blocking`, and the progress of the other requests.
use mpi_comp_match.Base.{ℕ, zero, suc, true, List, [], ◌∷◌, ◌%◌, ◌==◌, if◌then◌else◌, not}
use mpi_comp_match.Machine.{out_of_fuel, ◌>>=◌, ◌>>◌, pure, fail, when, assert, get}
use mpi_comp_match.Rendezvous.Request.{RequestType, recv_request_type}
use mpi_comp_match.Rendezvous.Library.{ucs_inprogress}
use mpi_comp_match.ActiveMessage.Request.{uint_limit}
use mpi_comp_match.ActiveMessage.Library.{
  Library, ucp_am_send_nbx, ucp_am_recv_data_nbx, ucp_worker_progress, ucp_request_check_status,
  ucp_request_free,
}
use mpi_comp_match.ActiveMessage.Machine.{M, load, modify, call, call_}

module _ {World : Type 0} ⦃lib : Library World⦄ where
  -- UCX takes the id of the handler as an unsigned int.
  unfoldable pub b_send : ℕ → M World (Unit {0})
  b_send p = do
    r ← load p
    assert (r.ucx_request_data_transfer == 0)
    reply ← call (ucp_am_send_nbx r.ep (r.am_id % uint_limit) r.buf r.size r.send_flag)
    modify p (λ r. record r { ucx_request_data_transfer = reply.handle })
    call_ ucp_worker_progress

  unfoldable pub b_recv : ℕ → M World (Unit {0})
  b_recv p = do
    call_ ucp_worker_progress
    r ← load p
    if not (r.list_of_pending_msgs == 0)
        then (do
          assert (r.ucx_request_data_transfer == 0)
          reply ← call (ucp_am_recv_data_nbx r.list_of_pending_msgs r.buf r.size r.send_flag)
          modify p (λ r. record r { ucx_request_data_transfer = reply.handle })
          modify p (λ r. record r { list_of_pending_msgs = 0 }))
        else modify p (λ r. record r { is_ready_to_recv = true })

  unfoldable pub progress_recv_request : ℕ → M World (Unit {0})
  unfolding b_recv
  progress_recv_request p = do r ← load p; when r.is_ready_to_recv (b_recv p)

  -- The action for each type of request; any other does nothing.
  unfoldable pub progress_as : RequestType → ℕ → M World (Unit {0})
  progress_as recv_request_type p = progress_recv_request p
  progress_as _ p = pure tt

  unfoldable pub progress_request : ℕ → M World (Unit {0})
  unfolding progress_as
  progress_request p = do r ← load p; progress_as r.type p

  -- The walk along the list of requests.
  unfoldable pub progress_list : ℕ → List ℕ → M World (Unit {0})
  progress_list current [] = pure tt
  progress_list current (q ∷ rest) = do
    when (not (q == current)) (progress_request q)
    progress_list current rest

  unfoldable pub progress_other_requests : ℕ → M World (Unit {0})
  unfolding progress_list
  progress_other_requests current = do l ← get (λ s. s.request_list); progress_list current l

  -- The `do` loop of `wait_for_completion_blocking`, with fuel.
  unfoldable pub wait_while_in_progress : ℕ → ℕ → ℕ → M World (Unit {0})
  wait_while_in_progress zero handle current = fail out_of_fuel
  wait_while_in_progress (suc fuel) handle current = do
    call_ ucp_worker_progress
    reply ← call (ucp_request_check_status handle)
    progress_other_requests current
    when (reply.value == ucs_inprogress) (wait_while_in_progress fuel handle current)

  unfoldable pub wait_for_completion_blocking : ℕ → ℕ → ℕ → M World (Unit {0})
  unfolding wait_while_in_progress
  wait_for_completion_blocking fuel handle current = do
    assert (not (handle == 0))
    wait_while_in_progress fuel handle current
    call_ (ucp_request_free handle)

  -- Wait for a pending transfer, and forget it.
  unfoldable pub complete_transfer : ℕ → ℕ → M World (Unit {0})
  complete_transfer fuel p = do
    r ← load p
    when (not (r.ucx_request_data_transfer == 0)) (do
      wait_for_completion_blocking fuel r.ucx_request_data_transfer p
      modify p (λ r. record r { ucx_request_data_transfer = 0 }))

  unfoldable pub e_send : ℕ → ℕ → M World (Unit {0})
  unfolding complete_transfer
  e_send fuel p = do r ← load p; assert (r.backup_request == 0); complete_transfer fuel p

  unfoldable pub e_recv : ℕ → ℕ → M World (Unit {0})
  unfolding complete_transfer
  e_recv fuel p = complete_transfer fuel p
