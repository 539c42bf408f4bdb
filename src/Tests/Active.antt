-- ===== src/Tests/Active.antt =====
-- The variant with active messages under USE_RENDEZVOUS, with a library that answers at once.
use mpi_comp_match.Base.{length, arith, ◌<◌, ◌+◌, ◌≡◌, refl, true, List, [], ◌∷◌}
use mpi_comp_match.Machine.{
  Outcome, done, fault, assertion_failed, Returns, ◌>>◌, basic_actions, update,
}
use mpi_comp_match.Rendezvous.Request.{recv_request_type, comm_world}
use mpi_comp_match.Rendezvous.Library.{mpi_byte}
use mpi_comp_match.ActiveMessage.Request.{Request, zeroed, uint_limit}
use mpi_comp_match.ActiveMessage.Library.{Library, Incoming, Reply, ucp_worker_progress}
use mpi_comp_match.ActiveMessage.Machine.{
  State, incoming_am_msg_handler, run_handlers, call, issue, load, modify, am_id_after,
}
use mpi_comp_match.ActiveMessage.Transfer.{progress_recv_request}
use mpi_comp_match.ActiveMessage.Connection.{send_rdma_info, exchange_as, offer_am_id, take_am_tag}
use mpi_comp_match.ActiveMessage.Operation.{mpiopt_start_recv_internal, mpiopt_wait_recv_internal}
use mpi_comp_match.ActiveMessage.Lifecycle.{
  mpiopt_recv_init, mpiopt_recv_init_internal, init_request, add_request_to_list, clear_globals,
}
use mpi_comp_match.ActiveMessage.EarlyReturn.{wait-before_arrival}
use mpi_comp_match.ActiveMessage.Messages.{Fits}
use mpi_comp_match.ActiveMessage.Nested.{Awaits, progress_recv_request-fails_next}
use mpi_comp_match.ActiveMessage.Ids.{registered, AllDistinct}
use mpi_comp_match.ActiveMessage.Ids.Reach.{Reach, init, next, recv_init, Reach-AllDistinct}

-- Every call answers 0, which is UCS_OK and false, with the handle 7.
abbrev answer : List Incoming → Reply
answer incoming = record { value = 0; handle = 7; am_ids = []; incoming = incoming }

abbrev quiet : Library (Unit {0})
quiet = record { perform = λ c w. (answer [], w) }

-- A connected receive of 8 bytes.
abbrev connected : Request
connected = record zeroed { type = recv_request_type; buf = 100; size = 8; am_id = 1 }

abbrev one : State (Unit {0})
one = record { heap = λ p. connected; request_list = 1 ∷ []; am_tag = 2; world = tt; log = [] }

abbrev message : Incoming
message = record { request = 1; descriptor = 50; length = 8; is_rendezvous = true }

wait-before_arrival_example :
    Returns
      ((do
        mpiopt_start_recv_internal ⦃lib = quiet⦄ 1
        mpiopt_wait_recv_internal ⦃lib = quiet⦄ 3 1 0)
        one)
      λ _ s'.
        (s'.log ≡ ucp_worker_progress ∷ [])
        × ((s'.heap 1).is_ready_to_recv ≡ true)
        × ((s'.heap 1).ucx_request_data_transfer ≡ 0)
wait-before_arrival_example = wait-before_arrival ⦃lib = quiet⦄ 3 1 one refl refl refl refl

-- The message comes in within each progress.
abbrev busy : Library (Unit {0})
busy = record {
  perform = λ c w. (elim c [ ucp_worker_progress ↦ answer (message ∷ []) | _ ↦ answer [] ], w);
}

abbrev started : State (Unit {0})
started = record one { heap = λ p. record connected { is_ready_to_recv = true } }

started-Fits : Fits 1 started message
started-Fits = record { request = refl; size = refl; by_rendezvous = refl; descriptor = refl }

started-Awaits : Awaits ⦃lib = busy⦄ 1 started message
started-Awaits = record {
  ready = refl;
  none_pending = refl;
  idle = refl;
  comes_in = refl;
  fits = started-Fits;
}

progress_recv_request-fails_next_example :
    (do progress_recv_request ⦃lib = busy⦄ 1; incoming_am_msg_handler ⦃lib = busy⦄ message) started
    ≡ fault assertion_failed
progress_recv_request-fails_next_example =
    progress_recv_request-fails_next ⦃lib = busy⦄ 1 started message message started-Awaits refl
      started-Fits

-- Before any operation, and behind MPIOPT_Recv_init, which gets the request at 7.
abbrev cleared : State (Unit {0})
cleared = record one { request_list = []; am_tag = 1 }

abbrev state_of : {A : Type 0} → Outcome (State (Unit {0})) A → State (Unit {0})
state_of (done a s) = s
state_of (fault e) = one

unfoldable created : State (Unit {0})
created = state_of (mpiopt_recv_init ⦃lib = quiet⦄ 100 8 mpi_byte 2 3 comm_world cleared)

-- Opens what MPIOPT_Recv_init runs.
unfoldable recv_init_opened : Unit {0}
unfolding mpiopt_recv_init mpiopt_recv_init_internal init_request send_rdma_info exchange_as
    offer_am_id add_request_to_list take_am_tag clear_globals basic_actions call issue load modify
    run_handlers am_id_after update created registered
recv_init_opened = tt

created-Reach : Reach ⦃lib = quiet⦄ created
unfolding recv_init_opened
created-Reach = next (init one refl refl) (recv_init 100 8 mpi_byte 2 3 comm_world 7 refl)

created-fewer : length (registered created.log) + 1 < uint_limit
unfolding recv_init_opened
created-fewer = omega arith

Reach-AllDistinct_example : AllDistinct (registered created.log)
Reach-AllDistinct_example = Reach-AllDistinct ⦃lib = quiet⦄ created-Reach created-fewer
