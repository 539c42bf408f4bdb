-- ===== src/Rendezvous/Start.antt =====
-- The start of an operation: `MPIOPT_Start` and the functions that it calls. The functions of the
-- source are declared to return an int and return none, so the model returns no value.
use mpi_comp_match.Base.{ℕ, ◌+◌, ◌==◌, if◌then◌else◌, not}
use mpi_comp_match.Rendezvous.Request.{
  RequestType, recv_request_type, send_request_type, send_request_type_search_for_rdma_connection,
  recv_request_type_search_for_rdma_connection, send_request_type_use_fallback,
  recv_request_type_use_fallback, is_send,
}
use mpi_comp_match.Rendezvous.Library.{Library, buffer, mpi_issend, mpi_isend, mpi_iprobe}
use mpi_comp_match.Rendezvous.Machine.{
  M, assertion_failed, ◌>>=◌, ◌>>◌, fail, when, assert, int_value, load, modify, call,
}
use mpi_comp_match.Rendezvous.Transfer.{b_send, b_recv}
use mpi_comp_match.Rendezvous.Progress.{
  post_backup_recv, progress_request_waiting_for_rdma, progress_other_requests,
}

module _ {World : Type 0} ⦃lib : Library World⦄ where
  unfoldable pub start_send_when_searching_for_connection : ℕ → ℕ → M World (Unit {0})
  start_send_when_searching_for_connection fuel p = do
    r ← load p
    assert (r.operation_number == 1)
    progress_request_waiting_for_rdma (progress_other_requests fuel) fuel p
    r ← load p
    assert (r.backup_request == 0)
    reply ← call (mpi_issend (buffer r.buf r.size) r.dest r.tag r.comm)
    modify p (λ r. record r { backup_request = reply.handle })

  unfoldable pub start_recv_when_searching_for_connection : ℕ → ℕ → M World (Unit {0})
  start_recv_when_searching_for_connection fuel p = do
    r ← load p
    assert (r.operation_number == 1)
    progress_request_waiting_for_rdma (progress_other_requests fuel) fuel p
    r ← load p
    if r.remote_data_addr == 0
        then (do
          probe ← call (mpi_iprobe r.dest r.tag r.comm)
          when (not (probe.value == 0))
              (do r ← load p; assert (r.backup_request == 0); post_backup_recv p))
        else when (r.backup_request == 0) (post_backup_recv p)

  -- `request->operation_number++`
  unfoldable pub next_operation : ℕ → M World (Unit {0})
  next_operation p = do
    r ← load p
    next ← int_value (r.operation_number + 1)
    modify p (λ r. record r { operation_number = next })

  unfoldable pub start_fallback_send : ℕ → M World (Unit {0})
  start_fallback_send p = do
    r ← load p
    assert (r.backup_request == 0)
    reply ← call (mpi_isend (buffer r.buf r.size) r.dest r.tag r.comm)
    modify p (λ r. record r { backup_request = reply.handle })

  unfoldable pub start_fallback_recv : ℕ → M World (Unit {0})
  start_fallback_recv p = do r ← load p; assert (r.backup_request == 0); post_backup_recv p

  unfoldable pub start_send_as : RequestType → ℕ → ℕ → M World (Unit {0})
  start_send_as send_request_type fuel p = b_send p
  start_send_as send_request_type_search_for_rdma_connection fuel p =
      start_send_when_searching_for_connection fuel p
  start_send_as send_request_type_use_fallback fuel p = start_fallback_send p
  start_send_as _ fuel p = fail assertion_failed

  unfoldable pub start_recv_as : RequestType → ℕ → ℕ → M World (Unit {0})
  start_recv_as recv_request_type fuel p = b_recv p
  start_recv_as recv_request_type_search_for_rdma_connection fuel p =
      start_recv_when_searching_for_connection fuel p
  start_recv_as recv_request_type_use_fallback fuel p = start_fallback_recv p
  start_recv_as _ fuel p = fail assertion_failed

  unfoldable pub mpiopt_start_send_internal : ℕ → ℕ → M World (Unit {0})
  mpiopt_start_send_internal fuel p = do next_operation p; r ← load p; start_send_as r.type fuel p

  unfoldable pub mpiopt_start_recv_internal : ℕ → ℕ → M World (Unit {0})
  mpiopt_start_recv_internal fuel p = do next_operation p; r ← load p; start_recv_as r.type fuel p

  unfoldable pub mpiopt_start_internal : ℕ → ℕ → M World (Unit {0})
  mpiopt_start_internal fuel p = do
    r ← load p
    if is_send r.type then mpiopt_start_send_internal fuel p else mpiopt_start_recv_internal fuel p
