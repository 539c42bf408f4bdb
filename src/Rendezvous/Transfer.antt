-- ===== src/Rendezvous/Transfer.antt =====
-- The data transfer of a connected request: `b_send`, `b_recv`, `progress_recv_request` and
-- `wait_for_completion_blocking`.
pub mod Issued
pub mod Calls
use mpi_comp_match.Base.{ℕ, zero, suc, ◌+◌, ◌*◌, ◌==◌, if◌then◌else◌, not}
use mpi_comp_match.Rendezvous.Request.{Request}
use mpi_comp_match.Rendezvous.Library.{
  Library, buffer, flag_word, ucp_put_nbi, ucp_get_nbi, ucp_worker_fence, ucp_ep_flush_nb,
  ucp_worker_progress, ucp_request_check_status, ucp_request_free, ucs_inprogress,
}
use mpi_comp_match.Rendezvous.Machine.{
  M, out_of_fuel, ◌>>=◌, ◌>>◌, pure, fail, when, assert, int_value, load, modify, assert_no_error,
  call, call_,
}

module _ {World : Type 0} ⦃lib : Library World⦄ where
  -- The flag of an operation that has started on the remote, and of one that has finished.
  abbrev pub started_value : Request → M World ℕ
  started_value r = int_value (r.operation_number * 2 + 1)

  abbrev pub finished_value : Request → M World ℕ
  finished_value r = int_value (r.operation_number * 2 + 2)

  -- `request->flag++` and the assertion behind it
  unfoldable pub advance_flag : ℕ → M World (Unit {0})
  advance_flag p = do
    r ← load p
    next ← int_value (r.flag + 1)
    finished ← finished_value r
    modify p (λ r. record r { flag = next })
    assert (next == finished)

  -- the statement that puts `flag_buffer` to the flag of the other side
  unfoldable pub put_flag : ℕ → M World ℕ
  put_flag p = do
    r ← load p
    reply ←
        call (ucp_put_nbi r.ep (flag_word p r.flag_buffer) r.remote_flag_addr r.remote_flag_rkey)
    pure reply.value

  unfoldable pub set_flag_buffer : ℕ → ℕ → M World (Unit {0})
  set_flag_buffer p v = modify p (λ r. record r { flag_buffer = v })

  unfoldable pub flush_data_transfer : ℕ → M World (Unit {0})
  flush_data_transfer p = do
    r ← load p
    reply ← call (ucp_ep_flush_nb r.ep)
    modify p (λ r. record r { ucx_request_data_transfer = reply.handle })

  unfoldable pub flush_flag_transfer : ℕ → M World (Unit {0})
  flush_flag_transfer p = do
    r ← load p
    reply ← call (ucp_ep_flush_nb r.ep)
    modify p (λ r. record r { ucx_request_flag_transfer = reply.handle })

  -- The statements that `b_recv` and `progress_recv_request` share: fetch the data, then signal.
  unfoldable pub fetch : ℕ → M World (Unit {0})
  unfolding advance_flag put_flag set_flag_buffer
  fetch p = do
    advance_flag p
    r ← load p
    reply ← call (ucp_get_nbi r.ep r.buf r.size r.remote_data_addr r.remote_data_rkey)
    assert_no_error reply.value
    reply ← call ucp_worker_fence
    assert_no_error reply.value
    r ← load p
    finished ← finished_value r
    set_flag_buffer p finished
    status ← put_flag p
    assert_no_error status

  -- The branch of `b_send` that finds the receiver ready.
  unfoldable pub push : ℕ → M World (Unit {0})
  unfolding advance_flag put_flag set_flag_buffer flush_data_transfer
  push p = do
    advance_flag p
    r ← load p
    finished ← finished_value r
    set_flag_buffer p finished
    call_ (ucp_put_nbi r.ep (buffer r.buf r.size) r.remote_data_addr r.remote_data_rkey)
    call_ ucp_worker_fence
    status ← put_flag p
    r ← load p
    assert (r.ucx_request_data_transfer == 0)
    flush_data_transfer p
    call_ ucp_worker_progress

  unfoldable pub b_send : ℕ → M World (Unit {0})
  unfolding push put_flag set_flag_buffer flush_flag_transfer
  b_send p = do
    r ← load p
    started ← started_value r
    if r.flag == started then push p else (do
      set_flag_buffer p started
      status ← put_flag p
      r ← load p
      assert (r.ucx_request_flag_transfer == 0)
      flush_flag_transfer p
      call_ ucp_worker_progress)

  unfoldable pub b_recv : ℕ → M World (Unit {0})
  unfolding fetch put_flag set_flag_buffer flush_flag_transfer flush_data_transfer
  b_recv p = do
    r ← load p
    started ← started_value r
    if r.flag == started
        then (do
          fetch p
          r ← load p
          assert (r.ucx_request_data_transfer == 0)
          flush_data_transfer p
          call_ ucp_worker_progress)
        else (do
          set_flag_buffer p started
          status ← put_flag p
          assert_no_error status
          r ← load p
          assert (r.ucx_request_flag_transfer == 0)
          flush_flag_transfer p
          call_ ucp_worker_progress)

  unfoldable pub progress_recv_request : ℕ → M World (Unit {0})
  unfolding fetch flush_data_transfer
  progress_recv_request p = do
    r ← load p
    started ← started_value r
    when (r.flag == started) (do fetch p; flush_data_transfer p)
    call_ ucp_worker_progress

  -- The `do` loop of `wait_for_completion_blocking`, with fuel.
  unfoldable pub wait_while_in_progress : ℕ → ℕ → M World (Unit {0})
  wait_while_in_progress zero handle = fail out_of_fuel
  wait_while_in_progress (suc fuel) handle = do
    call_ ucp_worker_progress
    reply ← call (ucp_request_check_status handle)
    when (reply.value == ucs_inprogress) (wait_while_in_progress fuel handle)

  unfoldable pub wait_for_completion_blocking : ℕ → ℕ → M World (Unit {0})
  unfolding wait_while_in_progress
  wait_for_completion_blocking fuel handle = do
    assert (not (handle == 0))
    wait_while_in_progress fuel handle
    call_ (ucp_request_free handle)
