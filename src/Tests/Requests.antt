-- ===== src/Tests/Requests.antt =====
-- The handshake, the list of requests, the release and the fallback on concrete requests.
use mpi_comp_match.Base.{ℕ, ◌≡◌, ◌+◌, refl, Bool, true, false, [], ◌∷◌, ◌++◌, length, arith}
use mpi_comp_match.Rendezvous.Request.{
  recv_request_type_search_for_rdma_connection, comm_world, handshake_communicator,
  handshake_response_communicator, Comm,
}
use mpi_comp_match.Rendezvous.Library.{
  Library, Call, mpi_iprobe, mpi_irecv, mpi_comm_free, mpi_win_free,
}
use mpi_comp_match.Rendezvous.Machine.{State, Returns, fault, out_of_fuel, ◌>>◌}
use mpi_comp_match.Rendezvous.RequestList.{remove_request_from_list}
use mpi_comp_match.Rendezvous.RequestList.Removal.{After, remove_request_from_list-Removes}
use mpi_comp_match.Rendezvous.Handshake.{send_rdma_info, read_rdma_info}
use mpi_comp_match.Rendezvous.Handshake.Message.{message, receive_into}
use mpi_comp_match.Rendezvous.Handshake.RoundTrip.{HasRead, read_rdma_info-message}
use mpi_comp_match.Rendezvous.Handshake.Offer.{HasOffered, send_rdma_info-HasOffered}
use mpi_comp_match.Rendezvous.Progress.{progress_other_requests}
use mpi_comp_match.Rendezvous.Frame.Rules.{Keeps}
use mpi_comp_match.Rendezvous.Frame.Progress.{progress_other_requests-Keeps}
use mpi_comp_match.Rendezvous.Lifecycle.{zeroed, mpiopt_request_free_internal, mpiopt_finalize}
use mpi_comp_match.Rendezvous.Lifecycle.Release.{
  release_calls, unmapped, mpiopt_finalize_lem, unmapped-finalize,
}
use mpi_comp_match.Rendezvous.Start.{mpiopt_start_recv_internal}
use mpi_comp_match.Rendezvous.Wait.{mpiopt_wait_recv_internal}
use mpi_comp_match.Rendezvous.Wait.Hang.{OneMessage, fallback_in_start_hangs}
use mpi_comp_match.Tests.Fixtures.{quiet, ready, alone, searching, quiet-MapsMemory}

read_rdma_info-message_example :
    let info = message 100 4097 (1 ∷ 2 ∷ []) (3 ∷ []) in
    Returns
      (read_rdma_info ⦃lib = quiet⦄ 1 (length info) (receive_into (length info) info) alone)
      λ _. HasRead quiet 1 100 4097 (1 ∷ 2 ∷ []) (3 ∷ []) alone
read_rdma_info-message_example =
    read_rdma_info-message ⦃lib = quiet⦄ alone 1 100 4097 (1 ∷ 2 ∷ []) (3 ∷ []) (ground arith)
      (ground arith) (ground arith) (ground arith)

send_rdma_info-HasOffered_example :
    Returns (send_rdma_info ⦃lib = quiet⦄ 1 searching) λ _. HasOffered quiet 1 searching
send_rdma_info-HasOffered_example =
    send_rdma_info-HasOffered ⦃lib = quiet⦄ quiet-MapsMemory searching 1 refl

abbrev three_requests : State (Unit {0})
three_requests = record alone { request_list = 4 ∷ 1 ∷ 2 ∷ 1 ∷ [] }

remove_request_from_list-Removes_example :
    After 1 three_requests (remove_request_from_list 1 three_requests)
remove_request_from_list-Removes_example = remove_request_from_list-Removes 1 three_requests

progress_other_requests-Keeps_example : Keeps (progress_other_requests ⦃lib = quiet⦄ 3 1)
progress_other_requests-Keeps_example = progress_other_requests-Keeps ⦃lib = quiet⦄ 3 1

abbrev ended : State (Unit {0})
ended = record alone { request_list = []; to_free_list = 2 ∷ 1 ∷ [] }

mpiopt_finalize_example : Returns (mpiopt_finalize ⦃lib = quiet⦄ ended) λ _ s'.
    s'.log
    ≡ mpi_comm_free handshake_response_communicator
        ∷ mpi_comm_free handshake_communicator
        ∷ release_calls 1 ready
      ++ (release_calls 2 ready ++ (mpi_win_free ∷ []))
mpiopt_finalize_example = mpiopt_finalize_lem ⦃lib = quiet⦄ ended [] refl

-- The last active request, and two that have been given up before.
abbrev last_active : State (Unit {0})
last_active = record alone {
  heap = λ p. record (alone.heap p) { mem_handle_data = 50 + p; mem_handle_flag = 60 + p };
  request_list = 1 ∷ [];
  to_free_list = 3 ∷ 2 ∷ [];
}

unmapped-finalize_example :
    Returns
      ((mpiopt_request_free_internal ⦃lib = quiet⦄ 1 >> mpiopt_finalize ⦃lib = quiet⦄) last_active)
      λ _ s'. unmapped s'.log ≡ 62 ∷ 63 ∷ 61 ∷ 51 ∷ []
unfolding unmapped
unmapped-finalize_example = unmapped-finalize ⦃lib = quiet⦄ 1 last_active refl refl refl

-- A library in which one ordinary message has come in; its state says whether a receive has been
-- posted for it.
abbrev probe_answer : Comm → Bool → ℕ
probe_answer comm_world false = 1
probe_answer _ _ = 0

abbrev answer : Call → Bool → ℕ
answer (mpi_iprobe dest tag comm) matched = probe_answer comm matched
answer _ matched = 0

abbrev matched_after : Call → Bool → Bool
matched_after (mpi_irecv buf size dest tag comm) matched = true
matched_after _ matched = matched

abbrev one_message : Library Bool
one_message = record {
  perform = λ c w.
      (record { value = answer c w; handle = 7; delivered = []; writes = [] }, matched_after c w);
  flag_address = λ p. 4096 + p;
}

stays_matched : (c : Call) (w : Bool) → w ≡ true → matched_after c w ≡ true
stays_matched (mpi_irecv buf size dest tag comm) w h = refl
stays_matched _ w h = h

hidden_when_matched :
    (dest tag : ℕ) (w : Bool) → w ≡ true → answer (mpi_iprobe dest tag comm_world) w ≡ 0
hidden_when_matched dest tag w h = rw h refl

one_message-OneMessage : OneMessage one_message
one_message-OneMessage = record {
  Matched = λ w. w ≡ true;
  no_handshake = λ dest tag w. refl;
  by_recv = λ buf size dest tag w. refl;
  stays = stays_matched;
  hidden = hidden_when_matched;
}

abbrev fresh : State Bool
fresh = record {
  heap = λ p. record zeroed { type = recv_request_type_search_for_rdma_connection };
  request_list = 1 ∷ [];
  to_free_list = [];
  crosstalk_counter = 0;
  world = false;
  log = [];
}

fallback_in_start_hangs_example :
    (mpiopt_start_recv_internal ⦃lib = one_message⦄ 4 1
        >> mpiopt_wait_recv_internal ⦃lib = one_message⦄ 9 1 0)
      fresh
    ≡ fault out_of_fuel
fallback_in_start_hangs_example =
    fallback_in_start_hangs ⦃lib = one_message⦄ one_message-OneMessage 4 9 1 fresh
      (record {
        type = refl;
        unconnected = refl;
        alone = refl;
        comm = refl;
        unused = refl;
        no_backup = refl;
      })
      refl
