-- ===== src/ActiveMessage/Nested.antt =====
-- A message that comes in while the wait for another request progresses this one.
use mpi_comp_match.Base.{ℕ, ◌≡◌, ◌∙◌, refl, true, false, [], ◌∷◌, ◌==◌, ==_self}
use mpi_comp_match.Machine.{Returns, fault, assertion_failed, ◌>>◌, when}
use mpi_comp_match.Machine.Run.{fault-bind}
use mpi_comp_match.ActiveMessage.Library.{
  Library, Incoming, ucp_am_recv_data_nbx, ucp_worker_progress,
}
use mpi_comp_match.ActiveMessage.Machine.{State, incoming_am_msg_handler, run_handlers}
use mpi_comp_match.ActiveMessage.Machine.Run.{run}
use mpi_comp_match.ActiveMessage.Transfer.{b_recv, progress_recv_request}
use mpi_comp_match.ActiveMessage.Messages.{Fits}

module _ {World : Type 0} ⦃lib : Library World⦄ (p : ℕ) (s : State World) (m : Incoming) where
  -- The request waits for its message, and just that message comes in when the worker is progressed.
  pub record Awaits : Type 0 where
    pub ready : (s.heap p).is_ready_to_recv ≡ true
    pub none_pending : (s.heap p).list_of_pending_msgs ≡ 0
    pub idle : (s.heap p).ucx_request_data_transfer ≡ 0
    pub comes_in : (lib.perform ucp_worker_progress s.world).0.incoming ≡ m ∷ []
    pub fits : Fits p s m

  -- The world behind the progress, and the handle of the transfer that the handler starts.
  abbrev pub receipt : ℕ
  receipt =
      (lib.perform (ucp_am_recv_data_nbx m.descriptor (s.heap p).buf m.length (s.heap p).send_flag)
        (lib.perform ucp_worker_progress s.world).1).0.handle

  pub progress_recv_request-Awaits :
      Awaits
      → Returns (progress_recv_request p s) λ _ s'.
        ((s'.heap p).ucx_request_data_transfer ≡ receipt)
        × ((s'.heap p).is_ready_to_recv ≡ true)
        × ((s'.heap p).list_of_pending_msgs ≡ 0)
        × ((s'.heap p).size ≡ (s.heap p).size)
  unfolding progress_recv_request b_recv run_handlers incoming_am_msg_handler when
  progress_recv_request-Awaits h =
      simp (run, h.ready)
        (simp (run, h.comes_in)
          (simp
            (
              run, h.fits.request, h.fits.size, h.fits.by_rendezvous, ==_self, h.none_pending,
              h.ready, h.idle,
            )
            (refl, refl, refl, refl)))

  fails_in_transfer :
      (m' : Incoming) (s' : State World)
      → m'.request ≡ p
      → (s'.heap p).size ≡ m'.length
      → m'.is_rendezvous ≡ true
      → ((s'.heap p).ucx_request_data_transfer == 0) ≡ false
      → (s'.heap p).list_of_pending_msgs ≡ 0
      → (s'.heap p).is_ready_to_recv ≡ true
      → incoming_am_msg_handler m' s' ≡ fault assertion_failed
  unfolding incoming_am_msg_handler
  fails_in_transfer m' s' request size by_rendezvous busy none_pending ready =
      simp (run, request, size, by_rendezvous, ==_self, none_pending, ready, busy)

  -- A started receive waits for its message, and the message comes in within the progress that the
  -- wait for another request makes of it. Then `b_recv` makes the request ready again, behind the
  -- transfer that the handler has started, and the next message of this request, which comes in
  -- before the receive is waited for, fails the handler's assertion. The transfer does not complete
  -- at once.
  pub progress_recv_request-fails_next :
      (m' : Incoming)
      → Awaits
      → (receipt == 0) ≡ false
      → Fits p s m'
      → (do progress_recv_request p; incoming_am_msg_handler m') s ≡ fault assertion_failed
  progress_recv_request-fails_next m' h busy fits' =
      fault-bind (progress_recv_request p) (λ _. incoming_am_msg_handler m') s assertion_failed _
        (progress_recv_request-Awaits h)
        λ _ t k.
          fails_in_transfer m' t fits'.request (k.3 ∙ fits'.size) fits'.by_rendezvous (rw k.0 busy)
            k.2 k.1
