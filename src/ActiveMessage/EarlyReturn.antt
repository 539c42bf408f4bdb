-- ===== src/ActiveMessage/EarlyReturn.antt =====
-- A receive that is waited for before its message has come in.
use mpi_comp_match.Base.{ℕ, ◌≡◌, refl, true, [], ◌∷◌}
use mpi_comp_match.Machine.{Returns, ◌>>◌, when}
use mpi_comp_match.Rendezvous.Request.{recv_request_type}
use mpi_comp_match.ActiveMessage.Library.{Library, ucp_worker_progress}
use mpi_comp_match.ActiveMessage.Machine.{State}
use mpi_comp_match.ActiveMessage.Machine.Run.{run}
use mpi_comp_match.ActiveMessage.Transfer.{b_recv, e_recv, complete_transfer}
use mpi_comp_match.ActiveMessage.Operation.{
  mpiopt_start_recv_internal, mpiopt_wait_recv_internal, start_recv_as, wait_recv_as,
}

module _ {World : Type 0} ⦃lib : Library World⦄ where
  -- A connected receive is started and then waited for, with no message pending and none that comes
  -- in during the progress of its start. Then both return, whatever the fuel: the wait makes no call,
  -- and the request is still ready for its message, with no transfer started.
  pub wait-before_arrival :
      (fuel p : ℕ) (s : State World)
      → (s.heap p).type ≡ recv_request_type
      → (s.heap p).list_of_pending_msgs ≡ 0
      → (s.heap p).ucx_request_data_transfer ≡ 0
      → (lib.perform ucp_worker_progress s.world).0.incoming ≡ []
      → Returns ((do mpiopt_start_recv_internal p; mpiopt_wait_recv_internal fuel p 0) s) λ _ s'.
        (s'.log ≡ ucp_worker_progress ∷ s.log)
        × ((s'.heap p).is_ready_to_recv ≡ true)
        × ((s'.heap p).ucx_request_data_transfer ≡ 0)
  unfolding mpiopt_start_recv_internal mpiopt_wait_recv_internal start_recv_as wait_recv_as b_recv
      e_recv complete_transfer when
  wait-before_arrival fuel p s type none_pending idle silent =
      simp (run, type)
        (simp (run, silent) (simp (run, none_pending, type) (simp (run, idle) (refl, refl, refl))))
