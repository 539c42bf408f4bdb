-- ===== src/ActiveMessage/Loss.antt =====
-- A message that comes in while another request's wait progresses this one is lost.
use mpi_comp_match.Base.{ℕ, ◌≡◌, true, List, [], ◌∷◌, ==_self, length}
use mpi_comp_match.ActiveMessage.Eager.{
  Receiver, and_then, incoming_am_msg_handler, progressed, b_recv, progress_recv_request,
}

-- A request is started and waits for its message, and the message comes in within the progress that
-- `progress_recv_request` makes of it. Then the next message is handled as if the first had never
-- come in: `b_recv` has made the request ready again, and the buffer is overwritten.
pub progress_recv_request-loses :
    (r : Receiver) (lost msg : List ℕ)
    → r.is_ready_to_recv ≡ true
    → r.list_of_pending_msgs ≡ []
    → r.size ≡ length lost
    → and_then (progress_recv_request (lost ∷ []) r) (λ r'. incoming_am_msg_handler r' msg)
      ≡ incoming_am_msg_handler r msg
unfolding progress_recv_request progressed b_recv incoming_am_msg_handler
progress_recv_request-loses r lost msg ready none_pending e = simp (ready, none_pending, e, ==_self)
