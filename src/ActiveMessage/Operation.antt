-- ===== src/ActiveMessage/Operation.antt =====
-- An operation of a request: `MPIOPT_Start` and `MPIOPT_Wait`, and the functions of the interface
-- that only call these. The functions of the source are declared to return an int and return none.
use mpi_comp_match.Base.{ℕ, ◌==◌, if◌then◌else◌, false}
use mpi_comp_match.Machine.{assertion_failed, ◌>>=◌, ◌>>◌, fail, assert}
use mpi_comp_match.Rendezvous.Request.{
  RequestType, recv_request_type, send_request_type, send_request_type_search_for_rdma_connection,
  recv_request_type_search_for_rdma_connection, send_request_type_use_fallback,
  recv_request_type_use_fallback, is_send,
}
use mpi_comp_match.Rendezvous.Library.{mpi_status_ignore}
use mpi_comp_match.ActiveMessage.Library.{Library, buffer, mpi_isend, mpi_irecv}
use mpi_comp_match.ActiveMessage.Machine.{M, load, modify, call}
use mpi_comp_match.ActiveMessage.Transfer.{b_send, b_recv, e_send, e_recv}
use mpi_comp_match.ActiveMessage.Connection.{
  start_send_when_searching_for_connection, start_recv_when_searching_for_connection, wait_backup,
  wait_send_when_searching_for_connection, wait_recv_when_searching_for_connection,
}

module _ {World : Type 0} ⦃lib : Library World⦄ where
  unfoldable pub start_fallback_send : ℕ → M World (Unit {0})
  start_fallback_send p = do
    r ← load p
    assert (r.backup_request == 0)
    reply ← call (mpi_isend (buffer r.buf r.size) r.dest r.tag r.comm)
    modify p (λ r. record r { backup_request = reply.handle })

  unfoldable pub start_fallback_recv : ℕ → M World (Unit {0})
  start_fallback_recv p = do
    r ← load p
    assert (r.backup_request == 0)
    reply ← call (mpi_irecv r.buf r.size r.dest r.tag r.comm)
    modify p (λ r. record r { backup_request = reply.handle })

  unfoldable pub start_send_as : RequestType → ℕ → M World (Unit {0})
  start_send_as send_request_type p = b_send p
  start_send_as send_request_type_search_for_rdma_connection p =
      start_send_when_searching_for_connection p
  start_send_as send_request_type_use_fallback p = start_fallback_send p
  start_send_as _ p = fail assertion_failed

  unfoldable pub start_recv_as : RequestType → ℕ → M World (Unit {0})
  start_recv_as recv_request_type p = b_recv p
  start_recv_as recv_request_type_search_for_rdma_connection p =
      start_recv_when_searching_for_connection p
  start_recv_as recv_request_type_use_fallback p = start_fallback_recv p
  start_recv_as _ p = fail assertion_failed

  unfoldable pub mpiopt_start_send_internal : ℕ → M World (Unit {0})
  mpiopt_start_send_internal p = do r ← load p; start_send_as r.type p

  unfoldable pub mpiopt_start_recv_internal : ℕ → M World (Unit {0})
  mpiopt_start_recv_internal p = do r ← load p; start_recv_as r.type p

  unfoldable pub mpiopt_start_internal : ℕ → M World (Unit {0})
  mpiopt_start_internal p = do
    r ← load p
    if is_send r.type then mpiopt_start_send_internal p else mpiopt_start_recv_internal p

  unfoldable pub wait_send_as : RequestType → ℕ → ℕ → M World (Unit {0})
  wait_send_as send_request_type fuel p = e_send fuel p
  wait_send_as send_request_type_search_for_rdma_connection fuel p =
      wait_send_when_searching_for_connection p
  wait_send_as send_request_type_use_fallback fuel p = wait_backup p
  wait_send_as _ fuel p = fail assertion_failed

  unfoldable pub wait_recv_as : RequestType → ℕ → ℕ → M World (Unit {0})
  wait_recv_as recv_request_type fuel p = e_recv fuel p
  wait_recv_as recv_request_type_search_for_rdma_connection fuel p =
      wait_recv_when_searching_for_connection p
  wait_recv_as recv_request_type_use_fallback fuel p = wait_backup p
  wait_recv_as _ fuel p = fail assertion_failed

  unfoldable pub mpiopt_wait_send_internal : ℕ → ℕ → ℕ → M World (Unit {0})
  mpiopt_wait_send_internal fuel p status = do
    assert (status == mpi_status_ignore)
    r ← load p
    wait_send_as r.type fuel p

  unfoldable pub mpiopt_wait_recv_internal : ℕ → ℕ → ℕ → M World (Unit {0})
  mpiopt_wait_recv_internal fuel p status = do
    assert (status == mpi_status_ignore)
    r ← load p
    wait_recv_as r.type fuel p

  unfoldable pub mpiopt_wait_internal : ℕ → ℕ → ℕ → M World (Unit {0})
  mpiopt_wait_internal fuel p status = do
    assert (status == mpi_status_ignore)
    r ← load p
    if is_send r.type
        then mpiopt_wait_send_internal fuel p status
        else mpiopt_wait_recv_internal fuel p status

  unfoldable pub mpiopt_test_internal : ℕ → M World (Unit {0})
  mpiopt_test_internal p = assert false

  unfoldable pub mpiopt_start : ℕ → M World (Unit {0})
  mpiopt_start p = mpiopt_start_internal p

  unfoldable pub mpiopt_start_send : ℕ → M World (Unit {0})
  mpiopt_start_send p = mpiopt_start_send_internal p

  unfoldable pub mpiopt_start_recv : ℕ → M World (Unit {0})
  mpiopt_start_recv p = mpiopt_start_recv_internal p

  unfoldable pub mpiopt_wait_send : ℕ → ℕ → ℕ → M World (Unit {0})
  mpiopt_wait_send fuel p status = mpiopt_wait_send_internal fuel p status

  unfoldable pub mpiopt_wait_recv : ℕ → ℕ → ℕ → M World (Unit {0})
  mpiopt_wait_recv fuel p status = mpiopt_wait_recv_internal fuel p status

  unfoldable pub mpiopt_wait : ℕ → ℕ → ℕ → M World (Unit {0})
  mpiopt_wait fuel p status = mpiopt_wait_internal fuel p status

  unfoldable pub mpiopt_test : ℕ → M World (Unit {0})
  mpiopt_test p = mpiopt_test_internal p
