-- ===== src/Tests/Calls.antt =====
-- The transfer functions on concrete requests.
use mpi_comp_match.Base.{◌≡◌, refl, [], ◌∷◌, arith}
use mpi_comp_match.Rendezvous.Machine.{Returns}
use mpi_comp_match.Rendezvous.Transfer.{b_send, b_recv, progress_recv_request}
use mpi_comp_match.Protocol.System.{
  put_flag, put_data, get_data, fence, send_wires, recv_wires, progress_wires,
}
use mpi_comp_match.Protocol.Refines.{
  wires, b_send-send_wires, b_recv-recv_wires, progress_recv_request-progress_wires,
}
use mpi_comp_match.Tests.Fixtures.{quiet, alone, quiet-NoError}

b_send-send_wires_example :
    Returns (b_send ⦃lib = quiet⦄ 1 alone) λ _ s'. wires s'.log ≡ put_data ∷ fence ∷ put_flag 6 ∷ []
unfolding wires send_wires
b_send-send_wires_example = b_send-send_wires ⦃lib = quiet⦄ 1 alone (ground arith) refl refl

b_recv-recv_wires_example :
    Returns (b_recv ⦃lib = quiet⦄ 1 alone) λ _ s'. wires s'.log ≡ get_data ∷ fence ∷ put_flag 6 ∷ []
unfolding wires recv_wires
b_recv-recv_wires_example =
    b_recv-recv_wires ⦃lib = quiet⦄ 1 alone quiet-NoError (ground arith) refl refl

progress_recv_request-progress_wires_example :
    Returns
      (progress_recv_request ⦃lib = quiet⦄ 1 alone)
      λ _ s'. wires s'.log ≡ get_data ∷ fence ∷ put_flag 6 ∷ []
unfolding wires progress_wires
progress_recv_request-progress_wires_example =
    progress_recv_request-progress_wires ⦃lib = quiet⦄ 1 alone quiet-NoError (ground arith)
