-- ===== src/ActiveMessage/Ids/Operations.antt =====
-- The starts and the waits of Operation.antt register no handler.
use mpi_comp_match.Base.{ℕ}
use mpi_comp_match.Machine.Preserves.{Preserves}
use mpi_comp_match.Rendezvous.Request.{
  RequestType, uninitialized, recv_request_type, send_request_type,
}
use mpi_comp_match.ActiveMessage.Library.{Library}
use mpi_comp_match.ActiveMessage.Machine.{M}
use mpi_comp_match.ActiveMessage.Ids.{Kept, Kept-Preorder}
use mpi_comp_match.ActiveMessage.Connection.{
  start_send_when_searching_for_connection, start_recv_when_searching_for_connection, wait_backup,
  test_exchange, set_type, wait_send_when_searching_for_connection,
  wait_recv_when_searching_for_connection,
}
use mpi_comp_match.ActiveMessage.Operation.{
  start_fallback_send, start_fallback_recv, start_send_as, start_recv_as,
  mpiopt_start_send_internal, mpiopt_start_recv_internal, mpiopt_start_internal, wait_send_as,
  wait_recv_as, mpiopt_wait_send_internal, mpiopt_wait_recv_internal, mpiopt_wait_internal,
  mpiopt_start, mpiopt_wait,
}
use mpi_comp_match.ActiveMessage.Ids.Transfers.{
  kept, b_send-Kept, b_recv-Kept, e_send-Kept, e_recv-Kept,
}

module _ {World : Type 0} ⦃lib : Library World⦄ where
  abbrev Keeps : {A : Type 0} → M World A → Type 0
  Keeps = Preserves (Kept {World = World})

  start_send_as-Kept : (type : RequestType) (p : ℕ) → Keeps (start_send_as type p)
  unfolding start_send_as start_send_when_searching_for_connection start_fallback_send
  start_send_as-Kept uninitialized p = search kept
  start_send_as-Kept send_request_type p = b_send-Kept p
  start_send_as-Kept _ p = search kept depth 20

  start_recv_as-Kept : (type : RequestType) (p : ℕ) → Keeps (start_recv_as type p)
  unfolding start_recv_as start_recv_when_searching_for_connection start_fallback_recv
  start_recv_as-Kept uninitialized p = search kept
  start_recv_as-Kept recv_request_type p = b_recv-Kept p
  start_recv_as-Kept _ p = search kept depth 20

  pub mpiopt_start-Kept : (p : ℕ) → Keeps (mpiopt_start p)
  unfolding mpiopt_start mpiopt_start_internal mpiopt_start_send_internal mpiopt_start_recv_internal
  mpiopt_start-Kept p = search (kept, start_send_as-Kept, start_recv_as-Kept) depth 20

  wait_send_searching-Kept : (p : ℕ) → Keeps (wait_send_when_searching_for_connection p)
  unfolding wait_send_when_searching_for_connection wait_backup test_exchange set_type
  wait_send_searching-Kept p = search kept depth 30

  wait_recv_searching-Kept : (p : ℕ) → Keeps (wait_recv_when_searching_for_connection p)
  unfolding wait_recv_when_searching_for_connection wait_backup test_exchange set_type
  wait_recv_searching-Kept p = search kept depth 30

  wait_backup-Kept : (p : ℕ) → Keeps (wait_backup p)
  unfolding wait_backup
  wait_backup-Kept p = search kept

  wait_send_as-Kept : (type : RequestType) (fuel p : ℕ) → Keeps (wait_send_as type fuel p)
  unfolding wait_send_as
  wait_send_as-Kept uninitialized fuel p = search kept
  wait_send_as-Kept _ fuel p =
      search (kept, e_send-Kept, wait_send_searching-Kept, wait_backup-Kept)

  wait_recv_as-Kept : (type : RequestType) (fuel p : ℕ) → Keeps (wait_recv_as type fuel p)
  unfolding wait_recv_as
  wait_recv_as-Kept uninitialized fuel p = search kept
  wait_recv_as-Kept _ fuel p =
      search (kept, e_recv-Kept, wait_recv_searching-Kept, wait_backup-Kept)

  pub mpiopt_wait-Kept : (fuel p status : ℕ) → Keeps (mpiopt_wait fuel p status)
  unfolding mpiopt_wait mpiopt_wait_internal mpiopt_wait_send_internal mpiopt_wait_recv_internal
  mpiopt_wait-Kept fuel p status = search (kept, wait_send_as-Kept, wait_recv_as-Kept) depth 30
