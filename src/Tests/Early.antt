-- ===== src/Tests/Early.antt =====
-- Messages that come in early: one behind the other before the second receive is started.
use mpi_comp_match.Base.{◌≡◌, refl, true, false, [], ◌∷◌}
use mpi_comp_match.ActiveMessage.Eager.{
  Receiver, and_then, incoming_am_msg_handler, b_recv, e_recv, must_wait, progress_recv_request,
}
use mpi_comp_match.ActiveMessage.Queue.{History, Reach, start, next, arrives, starts, ends}
use mpi_comp_match.ActiveMessage.Order.{Ordered, Reach-Ordered}
use mpi_comp_match.ActiveMessage.Loss.{progress_recv_request-loses}

-- The second message has come in, the first has been received, and a receive has been started.
abbrev second : History
second = record {
  receiver = record {
    size = 2;
    buf = 3 ∷ 4 ∷ [];
    is_ready_to_recv = false;
    list_of_pending_msgs = [];
  };
  arrived = (1 ∷ 2 ∷ []) ∷ (3 ∷ 4 ∷ []) ∷ [];
  received = (1 ∷ 2 ∷ []) ∷ [];
  is_active = true;
}

second-Reach : Reach 2 second
unfolding incoming_am_msg_handler b_recv e_recv must_wait
second-Reach =
    next
      (next
        (next (next (next start (starts _ refl refl)) (arrives (1 ∷ 2 ∷ []) _ refl))
          (arrives (3 ∷ 4 ∷ []) _ refl))
        (ends _ refl refl refl))
      (starts _ refl refl)

Reach-Ordered_example : Ordered 2 second
Reach-Ordered_example = Reach-Ordered 2 second second-Reach

abbrev ready : Receiver
ready = record { size = 2; buf = []; is_ready_to_recv = true; list_of_pending_msgs = [] }

progress_recv_request-loses_example :
    and_then
      (progress_recv_request ((1 ∷ 2 ∷ []) ∷ []) ready)
      (λ r'. incoming_am_msg_handler r' (3 ∷ 4 ∷ []))
    ≡ incoming_am_msg_handler ready (3 ∷ 4 ∷ [])
progress_recv_request-loses_example =
    progress_recv_request-loses ready (1 ∷ 2 ∷ []) (3 ∷ 4 ∷ []) refl refl refl
