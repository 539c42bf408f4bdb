-- ===== src/Protocol/Refines.antt =====
-- The functions of the code issue what the steps of the system put into an outbox, in that order.
use mpi_comp_match.Base.{
  ℕ, ◌+◌, ◌*◌, ◌<◌, ◌≡◌, refl, ap, ◌∙◌, Bool, true, false, List, [], ◌∷◌, ◌++◌, if◌then◌else◌,
  append_assoc,
}
use mpi_comp_match.Machine.{int_limit}
use mpi_comp_match.Rendezvous.Request.{Request}
use mpi_comp_match.Rendezvous.Library.{
  Library, Call, buffer, flag_word, bytes, ucp_put_nbi, ucp_get_nbi, ucp_worker_fence,
  ucp_worker_progress,
}
use mpi_comp_match.Rendezvous.Machine.{State, Returns}
use mpi_comp_match.Rendezvous.Machine.Run.{Returns-map}
use mpi_comp_match.Rendezvous.Transfer.{b_send, b_recv, progress_recv_request}
use mpi_comp_match.Rendezvous.Transfer.Issued.{
  push_calls, offer_calls, fetch_calls, remote_has_started, NoError,
}
use mpi_comp_match.Rendezvous.Transfer.Calls.{b_send_lem, b_recv_lem, progress_recv_request_lem}
use mpi_comp_match.Protocol.System.{
  Wire, put_flag, put_data, get_data, fence, send_wires, recv_wires, progress_wires,
}

-- The RDMA operation of a call, where it is one.
abbrev wire_of : Call → List Wire
wire_of (ucp_put_nbi ep (buffer address size) addr rkey) = put_data ∷ []
wire_of (ucp_put_nbi ep (flag_word request value) addr rkey) = put_flag value ∷ []
wire_of (ucp_put_nbi ep (bytes content) addr rkey) = []
wire_of (ucp_get_nbi ep buf size addr rkey) = get_data ∷ []
wire_of ucp_worker_fence = fence ∷ []
wire_of _ = []

-- What a log issues, in the order of issue, which is the reverse of the log's.
unfoldable pub wires : List Call → List Wire
wires [] = []
wires (c ∷ rest) = wires rest ++ wire_of c

wires-push :
    (p : ℕ) (r : Request) (log : List Call)
    → wires (push_calls p r ++ log)
      ≡ wires log ++ (put_data ∷ fence ∷ put_flag (r.operation_number * 2 + 2) ∷ [])
unfolding wires
wires-push p r log = simp append_assoc

wires-offer :
    (p : ℕ) (r : Request) (log : List Call)
    → wires (offer_calls p r ++ log) ≡ wires log ++ (put_flag (r.operation_number * 2 + 1) ∷ [])
unfolding wires
wires-offer p r log = simp append_assoc

module _ {World : Type 0} ⦃lib : Library World⦄ (p : ℕ) (s : State World) where
  abbrev here : Request
  here = s.heap p

  -- With no transfer pending and 2 n + 2 an int, `b_send` in operation n issues exactly the RDMA
  -- operations that the sender of the protocol issues for the flag that the request has, in the same
  -- order, with the same fence and the same values for the remote flag.
  pub b_send-send_wires :
      here.operation_number * 2 + 2 < int_limit
      → here.ucx_request_data_transfer ≡ 0
      → here.ucx_request_flag_transfer ≡ 0
      → Returns
          (b_send p s)
          λ _ s'. wires s'.log ≡ wires s.log ++ send_wires here.operation_number here.flag
  unfolding send_wires
  b_send-send_wires small no_data no_flag =
      Returns-map _ _ (b_send p s) (λ _ t h. ap wires h.0 ∙ by_flag (remote_has_started here))
        (b_send_lem p s small no_data no_flag)
    where
      by_flag :
          (b : Bool)
          → wires ((if b then push_calls p here else offer_calls p here) ++ s.log)
            ≡ wires s.log
              ++ (if b
                  then put_data ∷ fence ∷ put_flag (here.operation_number * 2 + 2) ∷ []
                  else put_flag (here.operation_number * 2 + 1) ∷ [])
      by_flag true = wires-push p here s.log
      by_flag false = wires-offer p here s.log

  -- With no transfer pending, 2 n + 2 an int and no error of the library, `b_recv` in operation n
  -- issues exactly the RDMA operations that the receiver of the protocol issues for the flag that the
  -- request has, in the same order.
  pub b_recv-recv_wires :
      NoError lib
      → here.operation_number * 2 + 2 < int_limit
      → here.ucx_request_data_transfer ≡ 0
      → here.ucx_request_flag_transfer ≡ 0
      → Returns
          (b_recv p s)
          λ _ s'. wires s'.log ≡ wires s.log ++ recv_wires here.operation_number here.flag
  unfolding recv_wires wires
  b_recv-recv_wires fine small no_data no_flag =
      Returns-map _ _ (b_recv p s) (λ _ t h. ap wires h.0 ∙ by_flag (remote_has_started here))
        (b_recv_lem p s fine small no_data no_flag)
    where
      by_flag :
          (b : Bool)
          → wires (
              (if b then ucp_worker_progress ∷ fetch_calls p here else offer_calls p here) ++ s.log)
            ≡ wires s.log
              ++ (if b
                  then get_data ∷ fence ∷ put_flag (here.operation_number * 2 + 2) ∷ []
                  else put_flag (here.operation_number * 2 + 1) ∷ [])
      by_flag true = simp append_assoc
      by_flag false = wires-offer p here s.log

  -- With 2 n + 2 an int and no error of the library, `progress_recv_request` in operation n issues
  -- exactly the RDMA operations of the protocol's nested progress: a fetch where the sender has
  -- started the operation, and none otherwise.
  pub progress_recv_request-progress_wires :
      NoError lib
      → here.operation_number * 2 + 2 < int_limit
      → Returns
          (progress_recv_request p s)
          λ _ s'. wires s'.log ≡ wires s.log ++ progress_wires here.operation_number here.flag
  unfolding progress_wires wires
  progress_recv_request-progress_wires fine small =
      Returns-map _ _ (progress_recv_request p s)
        (λ _ t h. ap wires h.0 ∙ by_flag (remote_has_started here))
        (progress_recv_request_lem p s fine small)
    where
      by_flag :
          (b : Bool)
          → wires (ucp_worker_progress ∷ (if b then fetch_calls p here else []) ++ s.log)
            ≡ wires s.log
              ++ (if b
                  then get_data ∷ fence ∷ put_flag (here.operation_number * 2 + 2) ∷ []
                  else [])
      by_flag true = simp append_assoc
      by_flag false = refl
